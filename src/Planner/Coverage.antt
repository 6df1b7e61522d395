-- ===== src/Planner/Coverage.antt =====
-- A new plan leaves out no capability that the objective requires.
use jean_bot.Common.{
  String, ◌≡◌, refl, true, false, ◌||◌, Bool, List, [], ◌∷◌, ◌++◌, arith, ◌==◌, Bool-cases, inl,
  inr, any, includes, unique_from, unique, ℕ, ◌+◌, Eq,
}
use jean_bot.Types.{Capability, MissionObjective, MissionStep, PolicyDecision, capability_eq}
use jean_bot.Planner.{
  create_step, execution_steps, opening_steps, working_steps, needs_checkpoint, needs_coordination,
  plan_steps, is_covered, step_id,
}

abbrev pub works_on : Capability → MissionStep → Bool
works_on c step = step.capability == c

any-append :
    {A : Type 0} (p : A → Bool) (xs ys : List A) → any p (xs ++ ys) ≡ (any p xs || any p ys)
any-append p [] ys = refl
any-append p (x ∷ xs) ys = ground (arith, any-append p xs ys)

module _ {A : Type 0} ⦃e : Eq A⦄ where
  includes-unique_from :
      (seen xs : List A) (a : A)
      → includes xs a ≡ true
      → includes seen a ≡ false
      → includes (unique_from seen xs) a ≡ true
  includes-unique_from seen [] a h k = cc
  includes-unique_from seen (x ∷ xs) a h k = elim (Bool-cases (x == a)) [
    | inl here ↦
        let same : x ≡ a = (e.beq_iff x a).0 here in
        let new : includes seen x ≡ false = rw same k in rw new (rw here refl)
    | inr other ↦
        let later : includes xs a ≡ true = rw other at h in
        let unseen : includes (x ∷ seen) a ≡ false = rw other k in
        ground (
          arith,
          includes-unique_from seen xs a later k,
          includes-unique_from (x ∷ seen) xs a later unseen,
        )
  ]

any-execution_steps :
    (id barrier : String) (index : ℕ) (cs : List Capability) (c : Capability)
    → includes cs c ≡ true
    → is_covered c ≡ false
    → any (works_on c) (execution_steps id barrier index cs) ≡ true
unfolding execution_steps create_step
any-execution_steps id barrier index [] c h k = cc
any-execution_steps id barrier index (x ∷ cs) c h k = elim (Bool-cases (x == c)) [
  | inl here ↦
      let same : x ≡ c = (capability_eq.beq_iff x c).0 here in
      let free : is_covered x ≡ false = rw same k in rw (free, here) refl
  | inr other ↦ ground (
    arith,
    other,
    any-execution_steps id barrier index cs c (rw other at h) k,
    any-execution_steps id barrier (index + 1) cs c (rw other at h) k,
  )
]

any-working_steps :
    (id barrier : String) (index : ℕ) (caps : List Capability) (c : Capability)
    → includes caps c ≡ true
    → is_covered c ≡ false
    → any (works_on c) (working_steps id barrier index caps) ≡ true
unfolding working_steps
any-working_steps id barrier index caps c h k =
    let work = execution_steps id barrier index caps in
    let done = any-execution_steps id barrier index caps c h k in
    elim (Bool-cases (needs_coordination caps)) [
      | inl many ↦ rw (many, any-append (works_on c) work _, done) refl
      | inr few ↦ rw (few, any-append (works_on c) work _, done) refl
    ]

opening_steps-covered :
    (id : String) (c : Capability)
    → is_covered c ≡ true
    → any (works_on c) (opening_steps id) ≡ true
unfolding opening_steps create_step
opening_steps-covered id Capability.filesystem h = refl
opening_steps-covered id Capability.memory h = refl
opening_steps-covered id Capability.planning h = refl
opening_steps-covered id Capability.security h = refl
opening_steps-covered id _ h = cc

-- For every capability that the objective requires, a new plan has a step that works on it.
pub plan_steps-works_on :
    (objective : MissionObjective) (decision : PolicyDecision) (c : Capability)
    → includes objective.required_capabilities c ≡ true
    → any (works_on c) (plan_steps objective decision) ≡ true
unfolding plan_steps
plan_steps-works_on objective decision c h =
    let id = objective.id in
    let caps = unique objective.required_capabilities in
    let kept : includes caps c ≡ true =
      includes-unique_from [] objective.required_capabilities c h refl in
    elim (Bool-cases (is_covered c)) [
      | inl fixed ↦
          let early = opening_steps-covered id c fixed in
          elim (Bool-cases (needs_checkpoint objective decision)) [
            | inl careful ↦ rw (careful, any-append (works_on c) (opening_steps id) _, early) refl
            | inr direct ↦ rw (direct, any-append (works_on c) (opening_steps id) _, early) refl
          ]
      | inr free ↦ elim (Bool-cases (needs_checkpoint objective decision)) [
        | inl careful ↦
            rw (careful, any-append (works_on c) (opening_steps id) _)
              (ground (arith, any-working_steps id (step_id id 5) 6 caps c kept free))
        | inr direct ↦
            rw (direct, any-append (works_on c) (opening_steps id) _)
              (ground (arith, any-working_steps id (step_id id 4) 5 caps c kept free))
      ]
    ]
