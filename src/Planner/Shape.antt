-- ===== src/Planner/Shape.antt =====
-- The identifiers of a new plan, and the capabilities that its steps cover.
use text.Mathlib.TextLemmas.{append_cancel_left, append_cancel_right}
use jean_bot.Common.{
  ℕ, ◌+◌, ◌<◌, String, ◌≡◌, refl, sym, ap, ◌∙◌, ◌≢◌, false, List, [], ◌∷◌, ◌++◌, arith, string_eq,
  Bool-cases, inl, inr, includes, length, unique,
}
use jean_bot.Common.Decimal.{decimal-injective}
use jean_bot.Types.{Capability, Stage, MissionObjective, MissionStep, PolicyDecision, capability_eq}
use jean_bot.Steps.{ids}
use jean_bot.Planner.{
  step_id, create_step, safety_checkpoint, is_covered, execution_steps, opening_steps,
  closing_steps, waits_for, needs_checkpoint, needs_coordination, working_steps, plan_steps,
}

step_id-injective : (id : String) (a b : ℕ) → step_id id a ≡ step_id id b → a ≡ b
unfolding step_id
step_id-injective id a b e =
    decimal-injective a b
      (append_cancel_right _ _ "" (append_cancel_left "-step-" _ _ (append_cancel_left id _ _ e)))

-- The steps carry the numbers `index`, `index + 1`, ….
abbrev pub IsNumbered : String → ℕ → List MissionStep → Type 0
IsNumbered id index [] = Unit
IsNumbered id index (s ∷ steps) = (s.id ≡ step_id id index) × IsNumbered id (index + 1) steps

IsNumbered-append :
    (id : String) (index next : ℕ) (xs ys : List MissionStep)
    → next ≡ index + length xs
    → IsNumbered id index xs
    → IsNumbered id next ys
    → IsNumbered id index (xs ++ ys)
IsNumbered-append id index next [] ys e h k = let same : next ≡ index = omega arith in rw same at k
IsNumbered-append id index next (s ∷ xs) ys e h k =
    (h.0, IsNumbered-append id (index + 1) next xs ys (omega arith) h.1 k)

execution_steps-IsNumbered :
    (id barrier : String) (index : ℕ) (caps : List Capability)
    → IsNumbered id index (execution_steps id barrier index caps)
unfolding execution_steps
execution_steps-IsNumbered id barrier index [] = tt
execution_steps-IsNumbered id barrier index (c ∷ cs) = elim (Bool-cases (is_covered c)) [
  | inl skip ↦ rw skip (execution_steps-IsNumbered id barrier index cs)
  | inr take ↦ rw take (refl, execution_steps-IsNumbered id barrier (index + 1) cs)
]

closing_steps-IsNumbered :
    (id : String) (index : ℕ) (awaited : List String)
    → IsNumbered id index (closing_steps id index awaited)
unfolding closing_steps
closing_steps-IsNumbered id index awaited =
    (refl, (ap (step_id id) (omega arith), (ap (step_id id) (omega arith), tt)))

working_steps-IsNumbered :
    (id barrier : String) (index : ℕ) (caps : List Capability)
    → IsNumbered id index (working_steps id barrier index caps)
unfolding working_steps
working_steps-IsNumbered id barrier index caps =
    let work = execution_steps id barrier index caps in
    let worked = execution_steps-IsNumbered id barrier index caps in
    let next : ℕ = index + length work in
    let closed = closing_steps-IsNumbered id (next + 1) (ids work ++ step_id id next ∷ []) in
    elim (Bool-cases (needs_coordination caps)) [
      | inl needed ↦ rw needed (
          IsNumbered-append id index next work
            (create_step id next Capability.project_management (waits_for barrier (ids work))
                Stage.execution
              ∷ closing_steps id (next + 1) (ids work ++ step_id id next ∷ []))
            refl worked (refl, closed))
      | inr free ↦ rw free (
          IsNumbered-append id index next work _ refl worked
            (closing_steps-IsNumbered id next (waits_for barrier (ids work))))
    ]

opening_steps-IsNumbered : (id : String) → IsNumbered id 1 (opening_steps id)
unfolding opening_steps
opening_steps-IsNumbered id = (refl, (refl, (refl, (refl, tt))))

length-opening_steps : (id : String) → 5 ≡ 1 + length (opening_steps id)
unfolding opening_steps
length-opening_steps id = refl

-- The steps of a new plan carry the numbers 1, 2, 3, … in the order of the plan.
pub plan_steps-IsNumbered :
    (objective : MissionObjective) (decision : PolicyDecision)
    → IsNumbered objective.id 1 (plan_steps objective decision)
unfolding plan_steps
plan_steps-IsNumbered objective decision =
    let id = objective.id in
    let caps = unique objective.required_capabilities in
    let opened = opening_steps-IsNumbered id in
    let four = length-opening_steps id in
    elim (Bool-cases (needs_checkpoint objective decision)) [
      | inl careful ↦ rw careful (
          IsNumbered-append id 1 5 (opening_steps id)
            (safety_checkpoint id 5 (step_id id 4) ∷ working_steps id (step_id id 5) 6 caps) four
            opened (refl, working_steps-IsNumbered id (step_id id 5) 6 caps))
      | inr direct ↦ rw direct (
          IsNumbered-append id 1 5 (opening_steps id) (working_steps id (step_id id 4) 5 caps) four
            opened (working_steps-IsNumbered id (step_id id 4) 5 caps))
    ]

abbrev pub IsDistinct : List String → Type 0
IsDistinct [] = Unit
IsDistinct (i ∷ is) = (includes is i ≡ false) × IsDistinct is

not-includes_of_IsNumbered :
    (id : String) (number index : ℕ) (steps : List MissionStep)
    → number < index
    → IsNumbered id index steps
    → includes (ids steps) (step_id id number) ≡ false
not-includes_of_IsNumbered id number index [] h k = refl
not-includes_of_IsNumbered id number index (s ∷ steps) h k =
    let other : s.id ≢ step_id id number = λ e.
      let same : index ≡ number = step_id-injective id index number (sym k.0 ∙ e) in omega arith in
    ground (
      arith,
      string_eq.beq_iff s.id (step_id id number),
      not-includes_of_IsNumbered id number (index + 1) steps (omega arith) k.1,
    )

IsDistinct-IsNumbered :
    (id : String) (index : ℕ) (steps : List MissionStep)
    → IsNumbered id index steps
    → IsDistinct (ids steps)
IsDistinct-IsNumbered id index [] h = tt
IsDistinct-IsNumbered id index (s ∷ steps) h = (
  rw (h.0) (not-includes_of_IsNumbered id index (index + 1) steps (omega arith) h.1),
  IsDistinct-IsNumbered id (index + 1) steps h.1,
)

-- No two steps of a new plan have the same identifier.
pub plan_steps-IsDistinct :
    (objective : MissionObjective) (decision : PolicyDecision)
    → IsDistinct (ids (plan_steps objective decision))
plan_steps-IsDistinct objective decision =
    IsDistinct-IsNumbered objective.id 1 (plan_steps objective decision)
      (plan_steps-IsNumbered objective decision)
