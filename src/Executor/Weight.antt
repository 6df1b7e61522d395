-- ===== src/Executor/Weight.antt =====
-- How many steps of a plan are open, and what a round does to that number.
use jean_bot.Common.{
  ℕ, suc, ◌+◌, ◌≤◌, String, Bool, true, false, not, ◌&&◌, ◌||◌, ◌≡◌, refl, ap, Option, none, some,
  List, [], ◌∷◌, ◌++◌, map, ◌==◌, string_eq, length, count, find, any, or_default, Bool-cases,
  if-cases, Option-cases, inl, inr, arith, length-filter-le,
}
use jean_bot.Types.{StepStatus, MissionStep, step_status_eq}
use jean_bot.Scheduler.{is_ready, promoted, promote_ready_steps}
use jean_bot.Scheduler.Promotion.{promote_ready_steps-eq-map}
use jean_bot.Replanner.{splice_at}
use jean_bot.Executor.{StepEnd, fulfilled, broke, left_status, mark_as, marked}

abbrev pub is_open : MissionStep → Bool
is_open step = not (step.status == StepStatus.completed || step.status == StepStatus.skipped)

module _ (f : MissionStep → MissionStep) where
  count-map-le :
      (steps : List MissionStep)
      → ((s : MissionStep) → is_open (f s) ≡ true → is_open s ≡ true)
      → count is_open (map f steps) ≤ count is_open steps
  count-map-le [] h = omega arith
  count-map-le (s ∷ steps) h = elim (Bool-cases (is_open (f s))) [
    | inl still ↦ rw (still, h s still) (omega (arith, count-map-le steps h))
    | inr closed ↦ rw closed (
        if-cases (λ l. count is_open (map f steps) ≤ length l) (is_open s)
          (λ was. omega (arith, count-map-le steps h)) (λ never. count-map-le steps h))
  ]

  -- Strictly fewer, where an open step that passes a test is closed.
  count-map-lt :
      (p : MissionStep → Bool) (steps : List MissionStep)
      → ((s : MissionStep) → is_open (f s) ≡ true → is_open s ≡ true)
      → ((s : MissionStep) → p s ≡ true → (is_open s ≡ true) × (is_open (f s) ≡ false))
      → any p steps ≡ true
      → suc (count is_open (map f steps)) ≤ count is_open steps
  count-map-lt p [] h k a = cc a
  count-map-lt p (s ∷ steps) h k a = elim (Bool-cases (p s)) [
    | inl here ↦ rw ((k s here).0, (k s here).1) (omega (arith, count-map-le steps h))
    | inr later ↦
        let fewer = count-map-lt p steps h k (rw later at a) in
        elim (Bool-cases (is_open (f s))) [
          | inl still ↦ rw (still, h s still) (omega (arith, fewer))
          | inr closed ↦ rw closed (
              if-cases (λ l. suc (count is_open (map f steps)) ≤ length l) (is_open s)
                (λ was. omega (arith, fewer)) (λ never. fewer))
        ]
  ]

ready_is_open : (s : MissionStep) → (s.status == StepStatus.ready) ≡ true → is_open s ≡ true
ready_is_open s h =
    let same : s.status ≡ StepStatus.ready =
      (step_status_eq.beq_iff s.status StepStatus.ready).0 h in
    ap (λ st. not (st == StepStatus.completed || st == StepStatus.skipped)) same

is_ready-is_open :
    (s : MissionStep) (steps : List MissionStep) → is_ready s steps ≡ true → is_open s ≡ true
unfolding is_ready
is_ready-is_open s steps h = ground (arith, h)

promoted-is_open :
    (steps : List MissionStep) (s : MissionStep)
    → is_open (promoted s steps) ≡ true
    → is_open s ≡ true
unfolding promoted
promoted-is_open steps s =
    if-cases (λ t. is_open t ≡ true → is_open s ≡ true) (is_ready s steps)
      (λ ready h. is_ready-is_open s steps ready)
      (λ not_ready.
        if-cases (λ t. is_open t ≡ true → is_open s ≡ true) (s.status == StepStatus.ready)
          (λ was h. ready_is_open s was) (λ other h. h))

pub open-promote_ready_steps :
    (steps : List MissionStep) → count is_open (promote_ready_steps steps) ≤ count is_open steps
open-promote_ready_steps steps =
    rw (promote_ready_steps-eq-map steps)
      (count-map-le (λ s. promoted s steps) steps (promoted-is_open steps))

mark_as-is_open :
    (o : Option (MissionStep × StepEnd)) (s : MissionStep)
    → is_open (mark_as o s) ≡ true
    → is_open s ≡ true
mark_as-is_open none s = λ h. h
mark_as-is_open (some e) s =
    if-cases (λ t. is_open t ≡ true → is_open s ≡ true) (s.status == StepStatus.ready)
      (λ was h. ready_is_open s was) (λ other h. h)

marked-is_open :
    (ends : List (MissionStep × StepEnd)) (s : MissionStep)
    → is_open (marked ends s) ≡ true
    → is_open s ≡ true
unfolding marked
marked-is_open ends s = mark_as-is_open (find (λ e. e.0.id == s.id) ends) s

pub open-marked :
    (ends : List (MissionStep × StepEnd)) (steps : List MissionStep)
    → count is_open (map (marked ends) steps) ≤ count is_open steps
open-marked ends steps = count-map-le (marked ends) steps (marked-is_open ends)

abbrev pub is_fulfilled : StepEnd → Bool
is_fulfilled (fulfilled outcome) = true
is_fulfilled (broke status thrown) = false

-- A ready step with the identifier.
abbrev pub is_ready_one : String → MissionStep → Bool
is_ready_one id s = s.status == StepStatus.ready && id == s.id

fulfilled-left_status : (e : StepEnd) → is_fulfilled e ≡ true → left_status e ≡ StepStatus.completed
fulfilled-left_status (fulfilled outcome) h = refl
fulfilled-left_status (broke status thrown) h = cc h

closed_step :
    (step : MissionStep) (e : StepEnd) (ends : List (MissionStep × StepEnd)) (s : MissionStep)
    → is_fulfilled e ≡ true
    → is_ready_one step.id s ≡ true
    → (is_open s ≡ true) × (is_open (marked ((step, e) ∷ ends) s) ≡ false)
unfolding marked
closed_step step e ends s f h =
    let ready : (s.status == StepStatus.ready) ≡ true = ground (arith, h) in
    let same : (step.id == s.id) ≡ true = ground (arith, h) in
    (ready_is_open s ready, rw (same, marked, ready) (rw (fulfilled-left_status e f) refl))

-- A batch whose first step stands ready in the plan and ends with an outcome closes a step.
pub open-marked-lt :
    (step : MissionStep) (e : StepEnd) (ends : List (MissionStep × StepEnd))
    (steps : List MissionStep)
    → is_fulfilled e ≡ true
    → any (is_ready_one step.id) steps ≡ true
    → suc (count is_open (map (marked ((step, e) ∷ ends)) steps)) ≤ count is_open steps
open-marked-lt step e ends steps f h =
    count-map-lt (marked ((step, e) ∷ ends)) (is_ready_one step.id) steps
      (marked-is_open ((step, e) ∷ ends)) (λ s. closed_step step e ends s f) h

count-append :
    (xs ys : List MissionStep) → count is_open (xs ++ ys) ≡ count is_open xs + count is_open ys
count-append [] ys = omega arith
count-append (x ∷ xs) ys = ground (arith, count-append xs ys)

count-length : (xs : List MissionStep) → count is_open xs ≤ length xs
count-length xs = length-filter-le is_open xs

-- Where a step gives way to at most `most` steps, the open steps grow by no more than that.
pub open-splice_at :
    (id : String) (replacement : MissionStep → List MissionStep) (most : ℕ)
    (steps spliced : List MissionStep)
    → ((s : MissionStep) → length (replacement s) ≤ most)
    → splice_at id replacement steps ≡ some spliced
    → count is_open spliced ≤ count is_open steps + most
unfolding splice_at
open-splice_at id replacement most [] spliced h e = cc e
open-splice_at id replacement most (s ∷ steps) spliced h e = elim (Bool-cases (s.id == id)) [
  | inl here ↦
      let made : some (replacement s ++ steps) ≡ some spliced = rw here at e in
      let same : replacement s ++ steps ≡ spliced = ap (λ o. or_default o []) made in
      rw⁻¹ same (
        rw (count-append (replacement s) steps) (ground (arith, count-length (replacement s), h s)))
  | inr later ↦ elim (Option-cases (splice_at id replacement steps)) [
    | inl missing ↦ cc (rw (later, missing) at e)
    | inr (rest, found) ↦
        let made : some (s ∷ rest) ≡ some spliced = rw (later, found) at e in
        let same : s ∷ rest ≡ spliced = ap (λ o. or_default o []) made in
        let grown = open-splice_at id replacement most steps rest h found in
        rw⁻¹ same (ground (arith, grown))
  ]
]
