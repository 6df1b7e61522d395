-- ===== src/Scheduler/Progress.antt =====
-- An ordered plan is never stuck: as long as a step is left, promotion makes one ready.
use jean_bot.Common.{
  String, ◌≡◌, refl, ◌∙◌, ◌≢◌, Bool, true, false, List, [], ◌∷◌, ◌++◌, map, arith, ◌==◌, string_eq,
  beq_refl, Bool-cases, inl, inr, find, all, any, All, All-concat, includes,
}
use mathlib.Core.List.{append_assoc}
use jean_bot.Types.{StepStatus, MissionStep, step_status_eq}
use jean_bot.Steps.{IsOrdered, Within}
use jean_bot.Scheduler.{
  is_completed, is_ready, promoted, promote_ready_steps, ready_steps, has_status,
}
use jean_bot.Scheduler.Promotion.{promote_ready_steps-eq-map}

-- Between two batches no step is running, and the executor skips none.
abbrev pub IsSettled : MissionStep → Type 0
IsSettled step = (step.status ≢ StepStatus.running) × (step.status ≢ StepStatus.skipped)

-- All of `seen` is complete in the lookup of `steps`.
abbrev AllDone : List String → List MissionStep → Type 0
AllDone seen steps =
    (d : String) → includes seen d ≡ true → is_completed (find (λ c. c.id == d) steps) ≡ true

all_of_Within :
    (seen wanted : List String) (steps : List MissionStep)
    → AllDone seen steps
    → Within seen wanted
    → all (λ d. is_completed (find (λ c. c.id == d) steps)) wanted ≡ true
all_of_Within seen [] steps h w = refl
all_of_Within seen (d ∷ ds) steps h w = rw (h d w.0) (all_of_Within seen ds steps h w.1)

-- Some step of a list passes a test, and the rest of the plan agrees.
is_ready_of_AllDone :
    (seen : List String) (step : MissionStep) (steps : List MissionStep)
    → AllDone seen steps
    → Within seen step.depends_on
    → IsSettled step
    → (step.status == StepStatus.completed) ≡ false
    → is_ready step steps ≡ true
unfolding is_ready
is_ready_of_AllDone seen step steps h w settled open_step =
    ground (arith, all_of_Within seen step.depends_on steps h w)

-- The steps of a list are complete.
abbrev pub AllCompleted : List MissionStep → Type 0
AllCompleted steps = All (λ s. has_status StepStatus.completed s ≡ true) steps

-- A lookup of a complete step that stands behind complete steps finds a complete step.
find-completed :
    (before rest : List MissionStep) (s : MissionStep)
    → AllCompleted before
    → has_status StepStatus.completed s ≡ true
    → is_completed (find (λ c. c.id == s.id) (before ++ s ∷ rest)) ≡ true
find-completed [] rest s h k = rw (beq_refl s.id) k
find-completed (b ∷ before) rest s h k = ground (arith, find-completed before rest s h.1 k)

AllDone-cons :
    (seen : List String) (s : MissionStep) (steps : List MissionStep)
    → AllDone seen steps
    → is_completed (find (λ c. c.id == s.id) steps) ≡ true
    → AllDone (s.id ∷ seen) steps
AllDone-cons seen s steps h k d e = elim (Bool-cases (s.id == d)) [
  | inl same ↦ rw ((string_eq.beq_iff s.id d).0 same) at k
  | inr other ↦ h d (rw other at e)
]

any-eq-true_of_head :
    {A : Type 0} (p : A → Bool) (x : A) (xs : List A) → p x ≡ true → any p (x ∷ xs) ≡ true
any-eq-true_of_head p x xs h = rw h

any-eq-true_of_tail :
    {A : Type 0} (p : A → Bool) (x : A) (xs : List A) → any p xs ≡ true → any p (x ∷ xs) ≡ true
any-eq-true_of_tail p x xs h = ground arith

-- Behind complete steps the first open step of an ordered plan is ready.
some_ready :
    (seen : List String) (before rest steps : List MissionStep)
    → before ++ rest ≡ steps
    → AllCompleted before
    → AllDone seen steps
    → IsOrdered seen rest
    → All IsSettled rest
    → all (has_status StepStatus.completed) rest ≡ false
    → any (λ s. is_ready s steps) rest ≡ true
some_ready seen before [] steps e c d o t open_left = cc
some_ready seen before (s ∷ rest) steps e c d o t open_left =
    elim (Bool-cases (has_status StepStatus.completed s)) [
      | inl closed ↦
          let found : is_completed (find (λ c. c.id == s.id) steps) ≡ true =
            rw e at (find-completed before rest s c closed) in
          any-eq-true_of_tail (λ u. is_ready u steps) s rest
            (some_ready (s.id ∷ seen) (before ++ s ∷ []) rest steps
              (append_assoc before (s ∷ []) rest ∙ e)
              (All-concat (λ b. has_status StepStatus.completed b ≡ true) before s c closed)
              (AllDone-cons seen s steps d found) o.1 t.1 (rw closed at open_left))
      | inr waiting ↦
          any-eq-true_of_head (λ u. is_ready u steps) s rest
            (is_ready_of_AllDone seen s steps d o.0 t.0 waiting)
    ]

ready_of_is_ready :
    (steps rest : List MissionStep)
    → any (λ s. is_ready s steps) rest ≡ true
    → ready_steps (map (λ s. promoted s steps) rest) ≢ []
unfolding ready_steps promoted
ready_of_is_ready steps [] h e = cc
ready_of_is_ready steps (s ∷ rest) h e = ground (arith, ready_of_is_ready steps rest)

-- If the plan is ordered, no step of it is running or skipped, and not every step is complete,
-- then promotion leaves at least one step ready: "cannot make progress" is not raised.
pub ready_steps-ne-nil :
    (steps : List MissionStep)
    → IsOrdered [] steps
    → All IsSettled steps
    → all (has_status StepStatus.completed) steps ≡ false
    → ready_steps (promote_ready_steps steps) ≢ []
ready_steps-ne-nil steps o t open_left =
    rw (promote_ready_steps-eq-map steps) (
      ready_of_is_ready steps steps
        (some_ready [] [] steps steps refl tt (λ d e. cc) o t open_left))
