-- ===== src/Replanner.antt =====
-- services/agent-orchestrator/src/executor/adaptive-replanner.ts: `AdaptiveReplanner.apply`, which
-- puts repair steps before a step that failed its quality gate.
mod Kinds
mod Blueprints
mod Plan
mod Entries
pub mod Order
pub mod Budget
pub mod Outcome
pub use Kinds.{catalog}
pub use Blueprints.{RemediationBlueprint, remediation_blueprints}
pub use Plan.{
  StepExecutionFailureContext, AdaptiveReplanResult, max_mission_replans, max_step_replans, replans,
}
unfoldable pub use Plan.{
  plan_version_of, step_replan_count, mission_replan_count, decision_entry, build_remediation_steps,
  can_replan, splice_at, deferred_step,
}
unfoldable pub use Entries.{
  apply_severity, assessment_entry, exhausted_entry, missing_entry, unplanned_entry,
  replan_patch_of, replan_entry, escalation_entry, patched_plan,
}
pub use Entries.{no_plan, refused}
use Entries.{escalates}
use jean_bot.Common.{
  ℕ, ◌+◌, ◌*◌, String, Bool, true, false, ◌||◌, Option, none, some, List, [], ◌∷◌, ◌++◌, map,
  if◌then◌else◌, or_default, ◌==◌, string_eq, unique, filter, length, template, join,
  summarize_text, JsText,
}
use jean_bot.Common.Decimal.{decimal}
use jean_bot.Types.{
  Capability, Stage, FailureClass, Severity, Category, Arithmetic, Double, MissionStep, MissionPlan,
  MissionRecord, StepExecutionDiagnostics, MetaValue, MissionDecisionLogEntry, MissionReplanPatch,
  Stamps, capability_eq,
}

module _ (js : JsText) (num : Arithmetic) (stamps : Stamps) (mission : MissionRecord)
    (failure : StepExecutionFailureContext) where
  open failure use {step, attempts, error_message, diagnostics}

  -- With a plan in hand and the budget not spent.
  unfoldable pub patch_plan : MissionPlan → AdaptiveReplanResult
  unfolding assessment_entry missing_entry replan_entry escalation_entry patched_plan
      build_remediation_steps splice_at deferred_step plan_version_of
  patch_plan plan =
      let next_version = plan_version_of mission + 1 in
      let remediation = build_remediation_steps js mission failure next_version in
      let spliced =
        splice_at step.id (λ s. remediation ++ deferred_step remediation s ∷ []) plan.steps in
      elim spliced [
        | none ↦
            refused js num stamps mission failure plan (missing_entry js num stamps mission failure)
        | some steps ↦ record {
          patched = true;
          plan = patched_plan js num stamps mission failure plan next_version remediation steps;
          remediation_steps = remediation;
          decision_entries =
              assessment_entry js num stamps mission failure
              ∷ replan_entry js num stamps mission failure next_version remediation
              ∷ (if escalates diagnostics
                  then escalation_entry js num stamps mission failure ∷ []
                  else []);
          replan_patch =
              some (replan_patch_of js num stamps mission failure next_version remediation);
        }
      ]

  -- `apply`, by the plan that the mission has or has not.
  unfoldable pub apply_to : Option MissionPlan → AdaptiveReplanResult
  unfolding patch_plan can_replan exhausted_entry unplanned_entry
  apply_to none = record {
    patched = false;
    plan = no_plan mission (stamps.iso 0);
    remediation_steps = [];
    decision_entries = unplanned_entry js num stamps mission failure ∷ [];
    replan_patch = none;
  }
  apply_to (some plan) =
      if can_replan mission failure
      then patch_plan plan
      else refused js num stamps mission failure plan
          (exhausted_entry js num stamps mission failure)

  unfoldable pub apply : AdaptiveReplanResult
  unfolding apply_to
  apply = apply_to mission.plan
