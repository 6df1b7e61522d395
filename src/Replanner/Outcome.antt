-- ===== src/Replanner/Outcome.antt =====
-- The two outcomes of `apply`: a patched plan within the budget, or the plan as it was.
use jean_bot.Replanner.Order.{Found-find, patch_plan_steps, repaired}
use jean_bot.Common.{
  find, string_eq, ◌==◌, ap, ◌∙◌, List, ◌++◌, ◌∷◌, ◌+◌, ◌≤◌, ◌<◌, ◌≡◌, refl, sym, true, false, none,
  some, [], arith, length, Bool-cases, Option-cases, inl, inr, JsText,
}
use jean_bot.Types.{
  Arithmetic, Stamps, Stage, MissionStep, MissionPlan, MissionRecord, MissionReplanPatch,
}
use jean_bot.Steps.{ids}
use jean_bot.Replanner.Plan.{
  StepExecutionFailureContext, AdaptiveReplanResult, build_remediation_steps, can_replan,
  mission_replan_count, step_replan_count, plan_version_of, splice_at, deferred_step, is_stage,
}
use jean_bot.Replanner.Budget.{length-splice_at, length-build_remediation_steps}
use mathlib.Core.Path.{subst}
use jean_bot.Replanner.{apply, apply_to, patch_plan, patched_plan, replan_patch_of}

-- A replan is allowed: the step is no delivery, it was replanned at most once before, and the
-- mission at most seven times.
pub record IsAllowed (mission : MissionRecord) (failure : StepExecutionFailureContext)
    : Type 0 where
  pub not_delivery : is_stage Stage.delivery failure.step.stage ≡ false
  pub step_budget : step_replan_count mission failure.step.id < 2
  pub mission_budget : mission_replan_count mission < 8

-- What a patch says of itself and of the plan.
pub record IsPatched (mission : MissionRecord) (failure : StepExecutionFailureContext)
    (plan : MissionPlan) (result : AdaptiveReplanResult) : Type 0 where
  pub allowed : IsAllowed mission failure
  pub some_repair : 1 ≤ length result.remediation_steps
  pub few_repairs : length result.remediation_steps ≤ 12
  pub grown : length result.plan.steps ≡ length plan.steps + length result.remediation_steps
  pub version : result.plan.version ≡ some (plan_version_of mission + 1)
  pub patch : MissionReplanPatch
  pub given : result.replan_patch ≡ some patch
  pub triggered : patch.triggered_by_step_id ≡ failure.step.id
  pub patch_version : patch.plan_version ≡ plan_version_of mission + 1
  pub inserted : patch.inserted_step_ids ≡ ids result.remediation_steps

IsAllowed-can_replan :
    (mission : MissionRecord) (failure : StepExecutionFailureContext)
    → can_replan mission failure ≡ true
    → IsAllowed mission failure
unfolding can_replan
IsAllowed-can_replan mission failure h = record {
  not_delivery = ground arith;
  step_budget = ground arith;
  mission_budget = ground arith;
}

module _ (js : JsText) (num : Arithmetic) (stamps : Stamps) (mission : MissionRecord)
    (failure : StepExecutionFailureContext) where
  abbrev chain : List MissionStep
  chain = build_remediation_steps js mission failure (plan_version_of mission + 1)

  patch_plan-IsPatched :
      (plan : MissionPlan)
      → IsAllowed mission failure
      → (patch_plan js num stamps mission failure plan).patched ≡ true
      → IsPatched mission failure plan (patch_plan js num stamps mission failure plan)
  unfolding patch_plan patched_plan replan_patch_of
  patch_plan-IsPatched plan allowed h =
      elim (Option-cases
        (splice_at failure.step.id (λ s. chain ++ deferred_step chain s ∷ []) plan.steps)) [
          | inl missed ↦ cc (rw (missed, patch_plan) at h)
          | inr (steps, spliced) ↦
              let (one, twelve) =
                length-build_remediation_steps js num stamps mission failure
                  (plan_version_of mission + 1) in
              rw (spliced, patch_plan)
                (record {
                  allowed = allowed;
                  some_repair = one;
                  few_repairs = twelve;
                  grown = length-splice_at failure.step.id chain plan.steps steps spliced;
                  version = refl;
                  patch =
                      replan_patch_of js num stamps mission failure (plan_version_of mission + 1)
                        chain;
                  given = refl;
                  triggered = refl;
                  patch_version = refl;
                  inserted = refl;
                })
        ]

  patch_plan_kept :
      (plan : MissionPlan)
      → (patch_plan js num stamps mission failure plan).patched ≡ false
      → ((patch_plan js num stamps mission failure plan).plan ≡ plan)
        × ((patch_plan js num stamps mission failure plan).replan_patch ≡ none)
  unfolding patch_plan
  patch_plan_kept plan h =
      elim (Option-cases
        (splice_at failure.step.id (λ s. chain ++ deferred_step chain s ∷ []) plan.steps)) [
          | inl missed ↦ rw (missed, patch_plan) (refl, refl)
          | inr (steps, spliced) ↦ cc (rw (spliced, patch_plan) at h)
        ]

  pub apply_to_may :
      (plan : MissionPlan)
      → can_replan mission failure ≡ true
      → apply_to js num stamps mission failure (some plan)
        ≡ patch_plan js num stamps mission failure plan
  unfolding apply_to
  apply_to_may plan may = rw may

  pub apply-eq-apply_to :
      (plan : MissionPlan)
      → mission.plan ≡ some plan
      → apply js num stamps mission failure ≡ apply_to js num stamps mission failure (some plan)
  unfolding apply
  apply-eq-apply_to plan e = ap (apply_to js num stamps mission failure) e

  apply_to-IsPatched :
      (plan : MissionPlan)
      → (apply_to js num stamps mission failure (some plan)).patched ≡ true
      → IsPatched mission failure plan (apply_to js num stamps mission failure (some plan))
  unfolding apply_to
  apply_to-IsPatched plan h = elim (Bool-cases (can_replan mission failure)) [
    | inl may ↦
        rw (apply_to_may plan may)
          (patch_plan-IsPatched plan (IsAllowed-can_replan mission failure may) (rw may at h))
    | inr may_not ↦ cc (rw may_not at h)
  ]

  apply_to_refused :
      (plan : MissionPlan)
      → (apply_to js num stamps mission failure (some plan)).patched ≡ false
      → ((apply_to js num stamps mission failure (some plan)).plan ≡ plan)
        × ((apply_to js num stamps mission failure (some plan)).replan_patch ≡ none)
  unfolding apply_to
  apply_to_refused plan h = elim (Bool-cases (can_replan mission failure)) [
    | inl may ↦ rw may (patch_plan_kept plan (rw may at h))
    | inr may_not ↦ rw may_not (refl, refl)
  ]

  -- With a plan, a replan that is reported as made was within the budget (no delivery step, fewer
  -- than two replans of the step, fewer than eight of the mission), added between one and twelve
  -- steps, raised the version by one and describes itself in its patch.
  pub apply-IsPatched :
      (plan : MissionPlan)
      → mission.plan ≡ some plan
      → (apply js num stamps mission failure).patched ≡ true
      → IsPatched mission failure plan (apply js num stamps mission failure)
  apply-IsPatched plan e h =
      let same = apply-eq-apply_to plan e in
      subst (IsPatched mission failure plan) (sym same) (apply_to-IsPatched plan (rw same at h))

  -- With a plan, a replan that is reported as refused gives that plan back and no patch.
  pub apply_refused :
      (plan : MissionPlan)
      → mission.plan ≡ some plan
      → (apply js num stamps mission failure).patched ≡ false
      → ((apply js num stamps mission failure).plan ≡ plan)
        × ((apply js num stamps mission failure).replan_patch ≡ none)
  apply_refused plan e h =
      let same = apply-eq-apply_to plan e in rw same (apply_to_refused plan (rw same at h))

  -- A replan within the budget succeeds where the failed step stands in the plan: the new plan is
  -- the old one with the chain of repairs and the deferred step in the place of the failed step,
  -- and every other step as it was.
  pub apply_steps :
      (plan : MissionPlan)
      → mission.plan ≡ some plan
      → find (λ s. s.id == failure.step.id) plan.steps ≡ some failure.step
      → can_replan mission failure ≡ true
      → (before : List MissionStep) × (rest : List MissionStep) × (plan.steps
          ≡ before ++ failure.step ∷ rest)
        × ((apply js num stamps mission failure).patched ≡ true)
        × ((apply js num stamps mission failure).plan.steps
            ≡ repaired before failure.step rest chain)
  apply_steps plan e f may =
      let found = Found-find failure.step plan.steps f in
      let made = patch_plan_steps js num stamps mission failure plan found in
      let same = apply-eq-apply_to plan e ∙ apply_to_may plan may in
      (
        found.before,
        found.rest,
        found.split,
        ap (λ r. r.patched) same ∙ made.0,
        ap (λ r. r.plan.steps) same ∙ made.1,
      )
