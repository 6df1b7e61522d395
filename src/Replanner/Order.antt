-- ===== src/Replanner/Order.antt =====
-- A replan keeps the plan ordered, and changes nothing but the place of the failed step.
use mathlib.Core.Option
use mathlib.Core.List.{append_assoc}
use jean_bot.Common.{
  ℕ, ◌+◌, String, ◌≡◌, refl, ap, ◌∙◌, true, false, some, List, [], ◌∷◌, ◌++◌, ◌==◌, string_eq,
  Bool-cases, inl, inr, find, JsText,
}
use jean_bot.Types.{Arithmetic, Stamps, MissionStep, MissionPlan, MissionRecord}
use jean_bot.Steps.{
  Within, IsOrdered, after, IsOrdered-append, IsOrdered-prefix, IsOrdered-suffix, IsOrdered-Extends,
  Extends-after, Within-after, includes-cons_self, Extends-cons,
}
use jean_bot.Replanner.Blueprints.{RemediationBlueprint}
use jean_bot.Replanner.Plan.{
  StepExecutionFailureContext, remediation_id, remediation_chain, build_remediation_steps,
  splice_at, deferred_step, can_replan, plan_version_of,
}
use jean_bot.Replanner.{apply, apply_to, patch_plan, patched_plan}

remediation_chain-IsOrdered :
    (js : JsText) (mission_id : String) (version : ℕ) (failed : MissionStep) (index : ℕ)
    (cursor : List String) (bs : List RemediationBlueprint) (seen : List String)
    → Within seen cursor
    → IsOrdered seen (remediation_chain js mission_id version failed index cursor bs)
unfolding remediation_chain
remediation_chain-IsOrdered js mission_id version failed index cursor [] seen h = tt
remediation_chain-IsOrdered js mission_id version failed index cursor (b ∷ bs) seen h =
    let id = remediation_id mission_id version failed.id index in
    (
      h,
      remediation_chain-IsOrdered js mission_id version failed (index + 1) (id ∷ []) bs (id ∷ seen)
          (includes-cons_self id seen, tt),
    )

deferred_step-Within :
    (chain : List MissionStep) (original : MissionStep) (seen : List String)
    → Within seen original.depends_on
    → Within (after seen chain) (deferred_step chain original).depends_on
unfolding deferred_step
deferred_step-Within [] original seen h = h
deferred_step-Within (r ∷ rs) original seen h = Within-after seen (r ∷ rs)

id-deferred_step :
    (chain : List MissionStep) (original : MissionStep)
    → (deferred_step chain original).id ≡ original.id
unfolding deferred_step
id-deferred_step [] original = refl
id-deferred_step (r ∷ rs) original = refl

-- The chain and the deferred step fit where the original step stood.
repair-IsOrdered :
    (chain rest : List MissionStep) (original : MissionStep) (seen : List String)
    → IsOrdered seen chain
    → IsOrdered seen (original ∷ rest)
    → IsOrdered seen (chain ++ deferred_step chain original ∷ rest)
repair-IsOrdered chain rest original seen c o =
    IsOrdered-append seen chain (deferred_step chain original ∷ rest) c (
      deferred_step-Within chain original seen o.0,
      rw (id-deferred_step chain original) (
          IsOrdered-Extends (original.id ∷ seen) (original.id ∷ after seen chain) rest
            (Extends-cons original.id seen (after seen chain) (Extends-after seen chain)) o.1),
    )

-- Where the failed step stands in the plan, and that the splice happens there.
pub record Found (steps : List MissionStep) (failed : MissionStep) : Type 0 where
  pub before : List MissionStep
  pub rest : List MissionStep
  pub split : steps ≡ before ++ failed ∷ rest
  pub spliced :
      (replacement : MissionStep → List MissionStep)
      → splice_at failed.id replacement steps ≡ some (before ++ (replacement failed ++ rest))

splice_at_here :
    (id : String) (replacement : MissionStep → List MissionStep) (s : MissionStep)
    (steps : List MissionStep)
    → (s.id == id) ≡ true
    → splice_at id replacement (s ∷ steps) ≡ some (replacement s ++ steps)
unfolding splice_at
splice_at_here id replacement s steps h = rw h

splice_at_later :
    (id : String) (replacement : MissionStep → List MissionStep) (s : MissionStep)
    (steps out : List MissionStep)
    → (s.id == id) ≡ false
    → splice_at id replacement steps ≡ some out
    → splice_at id replacement (s ∷ steps) ≡ some (s ∷ out)
unfolding splice_at
splice_at_later id replacement s steps out h e = rw (h, e)

pub Found-find :
    (failed : MissionStep) (steps : List MissionStep)
    → find (λ s. s.id == failed.id) steps ≡ some failed
    → Found steps failed
Found-find failed [] f = absurd (Option.none-ne-some failed f)
Found-find failed (s ∷ steps) f = elim (Bool-cases (s.id == failed.id)) [
  | inl here ↦
      let same : s ≡ failed = Option.some-injective s failed (rw here at f) in
      record {
        before = [];
        rest = steps;
        split = ap (λ t. t ∷ steps) same;
        spliced = λ replacement.
            splice_at_here failed.id replacement s steps here
            ∙ ap (λ t. some (replacement t ++ steps)) same;
      }
  | inr later ↦
      let found = Found-find failed steps (rw later at f) in
      record {
        before = s ∷ found.before;
        rest = found.rest;
        split = ap (λ t. s ∷ t) found.split;
        spliced = λ replacement.
            splice_at_later failed.id replacement s steps _ later (found.spliced replacement);
      }
]

-- The steps that `apply` puts where the failed step stood.
abbrev pub repaired :
    List MissionStep → MissionStep → List MissionStep → List MissionStep → List MissionStep
repaired before failed rest chain = before ++ ((chain ++ deferred_step chain failed ∷ []) ++ rest)

repaired-IsOrdered :
    (before : List MissionStep) (failed : MissionStep) (rest chain : List MissionStep)
    → IsOrdered (after [] before) chain
    → IsOrdered [] (before ++ failed ∷ rest)
    → IsOrdered [] (repaired before failed rest chain)
repaired-IsOrdered before failed rest chain c o =
    rw (append_assoc chain (deferred_step chain failed ∷ []) rest) (
      IsOrdered-append [] before (chain ++ deferred_step chain failed ∷ rest)
        (IsOrdered-prefix [] before (failed ∷ rest) o)
        (repair-IsOrdered chain rest failed (after [] before) c
          (IsOrdered-suffix [] before (failed ∷ rest) o)))

module _ (js : JsText) (num : Arithmetic) (stamps : Stamps) (mission : MissionRecord)
    (failure : StepExecutionFailureContext) (plan : MissionPlan) where
  abbrev pub chain : List MissionStep
  chain = build_remediation_steps js mission failure (plan_version_of mission + 1)

  -- A replan that is allowed succeeds when the failed step stands in the plan, and gives the plan
  -- in which the chain of repairs and the deferred step stand in its place.
  pub patch_plan_steps :
      (found : Found plan.steps failure.step)
      → ((patch_plan js num stamps mission failure plan).patched ≡ true)
        × ((patch_plan js num stamps mission failure plan).plan.steps
            ≡ repaired found.before failure.step found.rest chain)
  unfolding patch_plan patched_plan
  patch_plan_steps found =
      rw (found.spliced (λ s. chain ++ deferred_step chain s ∷ []), patch_plan) (refl, refl)

  chain-IsOrdered :
      (seen : List String) → Within seen failure.step.depends_on → IsOrdered seen chain
  unfolding build_remediation_steps
  chain-IsOrdered seen h =
      remediation_chain-IsOrdered js mission.objective.id (plan_version_of mission + 1) failure.step
        1 failure.step.depends_on _ seen h

  -- If the failed step stands in an ordered plan, the plan that a replan gives is ordered too.
  pub patch_plan-IsOrdered :
      find (λ s. s.id == failure.step.id) plan.steps ≡ some failure.step
      → IsOrdered [] plan.steps
      → IsOrdered [] (patch_plan js num stamps mission failure plan).plan.steps
  patch_plan-IsOrdered f o =
      let found = Found-find failure.step plan.steps f in
      let whole : IsOrdered [] (found.before ++ failure.step ∷ found.rest) = rw found.split at o in
      let here = IsOrdered-suffix [] found.before (failure.step ∷ found.rest) whole in
      rw (patch_plan_steps found).1 (
        repaired-IsOrdered found.before failure.step found.rest chain
          (chain-IsOrdered (after [] found.before) here.0) whole)

  -- Whether it replans or not, `apply` gives an ordered plan where the mission's plan is ordered
  -- and holds the failed step.
  pub apply-IsOrdered :
      mission.plan ≡ some plan
      → find (λ s. s.id == failure.step.id) plan.steps ≡ some failure.step
      → IsOrdered [] plan.steps
      → IsOrdered [] (apply js num stamps mission failure).plan.steps
  unfolding apply apply_to
  apply-IsOrdered e f o = elim (Bool-cases (can_replan mission failure)) [
    | inl may ↦ rw (e, may, apply, apply_to) (patch_plan-IsOrdered f o)
    | inr may_not ↦ rw (e, may_not, apply, apply_to) o
  ]
