-- ===== src/Executor/Settlement.antt =====
-- The loop over the results of a batch: what is kept of an outcome, and applyAdaptiveReplan.
use jean_bot.Common.{
  ℕ, String, Bool, true, ◌||◌, Option, none, some, List, [], ◌∷◌, ◌++◌, if◌then◌else◌, ◌==◌,
  string_eq, length, find, or_default, nat_eq,
}
use jean_bot.Types.{
  StepStatus, MissionStep, MissionRecord, StepExecutionRecord, MissionArtifact, MissionReplanPatch,
  MissionDecisionLogEntry, step_status_eq,
}
use jean_bot.SubAgents.{add_id, drop_id}
use jean_bot.Retries.{Thrown, step_failure, error, value}
use jean_bot.Replanner.{StepExecutionFailureContext, AdaptiveReplanResult, apply}
use jean_bot.Executor.StepRuns.{ExecutorHost, StepOutcome, StepEnd, fulfilled, broke}

-- The variables of `execute`.
pub record Progress : Type 0 where
  pub mission : MissionRecord
  pub remaining : List String
  pub outputs : List StepOutcome
  pub memory_updates : List String
  pub step_reports : List StepExecutionRecord
  pub artifacts : List MissionArtifact

abbrev pub steps_of : MissionRecord → List MissionStep
steps_of mission = elim mission.plan [ none ↦ [] | some plan ↦ plan.steps ]

unfoldable pub sync_remaining : List MissionStep → List String → List String
sync_remaining [] remaining = remaining
sync_remaining (step ∷ steps) remaining = sync_remaining steps (
    if step.status == StepStatus.completed || step.status == StepStatus.skipped
    then drop_id step.id remaining
    else add_id step.id remaining)

unfoldable pub append_decision_entries :
    List MissionDecisionLogEntry → MissionRecord → MissionRecord
append_decision_entries [] mission = mission
append_decision_entries (entry ∷ entries) mission = record mission {
  decision_log = some (or_default mission.decision_log [] ++ entry ∷ entries);
}

unfoldable pub append_replan_patch : Option MissionReplanPatch → MissionRecord → MissionRecord
append_replan_patch none mission = mission
append_replan_patch (some patch) mission =
    let history = or_default mission.replan_history [] ++ patch ∷ [] in
    record mission {
      replan_history = some history;
      plan_version = some patch.plan_version;
      replan_count = some (length history);
    }

-- `applyAdaptiveReplan`: the record, and whether the plan was patched.
unfoldable pub take_replan : AdaptiveReplanResult → MissionRecord → MissionRecord
unfolding append_decision_entries append_replan_patch
take_replan replan mission =
    let told = append_decision_entries replan.decision_entries mission in
    if replan.patched
    then append_replan_patch replan.replan_patch (record told { plan = some replan.plan })
    else told

-- The step of the plan that has the failed step's identifier stands for it.
abbrev pub failure_now : MissionRecord → StepExecutionFailureContext → StepExecutionFailureContext
failure_now mission failure = record failure {
  step = or_default (find (λ s. s.id == failure.step.id) (steps_of mission)) failure.step;
}

-- The variables of the loop over the results of a batch.
pub record Batch : Type 0 where
  pub progress : Progress
  pub replan_applied : Bool
  pub unrecoverable : Option Thrown

abbrev pub take_outcome : StepOutcome → Progress → Progress
take_outcome outcome p = record p {
  remaining = drop_id outcome.step.id p.remaining;
  outputs = p.outputs ++ outcome ∷ [];
  memory_updates = p.memory_updates ++ outcome.memory_text ∷ [];
  step_reports = p.step_reports ++ outcome.report ∷ [];
  artifacts = p.artifacts ++ outcome.artifact ∷ [];
}

-- Where the replan was patched in, the failed step's object is no longer in the plan: what the
-- source writes into it then is not seen.
unfoldable pub take_failure : AdaptiveReplanResult → StepExecutionFailureContext → Batch → Batch
unfolding take_replan
take_failure replan failure b =
    let progress : Progress = record b.progress {
      mission = take_replan replan b.progress.mission;
    } in
    if replan.patched
    then record b { progress = progress; replan_applied = true }
    else record b { progress = progress; unrecoverable = some (step_failure failure) }

unfoldable pub settle_end : ExecutorHost → ℕ → MissionStep × StepEnd → Batch → Batch
unfolding take_failure
settle_end host round (step, fulfilled outcome) b = record b {
  progress = take_outcome outcome b.progress;
}
settle_end host round (step, broke status (step_failure failure)) b =
    take_failure
      (apply host.js host.num (host.stamps round step) b.progress.mission
        (failure_now b.progress.mission failure))
      failure b
settle_end host round (step, broke status (error message)) b = record b {
  unrecoverable = some (error message);
}
settle_end host round (step, broke status (value text)) b = record b {
  unrecoverable = some (value text);
}

unfoldable pub settle_batch : ExecutorHost → ℕ → List (MissionStep × StepEnd) → Batch → Batch
unfolding settle_end
settle_batch host round [] b = b
settle_batch host round (e ∷ ends) b = settle_batch host round ends (settle_end host round e b)
