-- ===== src/Executor.antt =====
-- The batch loop of services/agent-orchestrator/src/executor/mission-executor.ts: execute,
-- executeStep, applyAdaptiveReplan and syncRemainingSteps. Audit events, workspace files and the
-- text of the report are left out; so are the values of a run's `outputs` but for the outcome that
-- they are made from.
mod StepRuns
mod Settlement
mod Weight
mod Replans
mod Settling
pub mod Termination
pub mod Result
pub mod Completed
pub use StepRuns.{
  StepHost, ExecutorHost, StepOutcome, StepEnd, step_objective, left_status, mark_as, fulfilled,
  broke,
}
unfoldable pub use StepRuns.{finish_step, execute_step, run_step, marked}
pub use Settlement.{Progress, steps_of, failure_now, Batch, take_outcome}
unfoldable pub use Settlement.{
  sync_remaining, append_decision_entries, append_replan_patch, take_replan, take_failure,
  settle_end, settle_batch,
}
use jean_bot.Common.{
  ℕ, zero, suc, ◌+◌, String, Bool, true, false, ◌||◌, Option, none, some, List, [], ◌∷◌, ◌++◌, map,
  if◌then◌else◌, ◌==◌, string_eq, length, find, or_default, template, unique, nat_eq, JsText,
}
use jean_bot.Types.{
  StepStatus, MissionStep, MissionPlan, MissionRecord, MissionObjective, PolicyDecision,
  StepExecutionRecord, StepExecutionDiagnostics, MissionArtifact, MissionReplanPatch,
  MissionDecisionLogEntry, Arithmetic, Stamps, step_status_eq, capability_name,
}
use jean_bot.Policy.{evaluate_mission}
use jean_bot.ModelRouter.{ProviderEnvironment}
use jean_bot.SubAgents.{spawn_for_plan, add_id, drop_id}
use jean_bot.Scheduler.{
  SubAgentTemplate, promote_ready_steps, ready_steps, template_for, select_batch,
}
use jean_bot.Retries.{
  Run, Thrown, step_failure, error, value, Settled, accepted, rejected, execute_step_with_retries,
}
use jean_bot.Replanner.{StepExecutionFailureContext, AdaptiveReplanResult, apply}

-- What a round of the loop leaves: the variables for the next one, or what is thrown.
pub data RoundEnd : Type 0 where
  goes : Progress → RoundEnd
  stops : MissionRecord → Thrown → RoundEnd

-- The end of a round: an unrecoverable failure is thrown; after a replan the remaining steps are
-- those of the new plan.
unfoldable pub end_round : Batch → RoundEnd
unfolding sync_remaining
end_round b =
    let p = b.progress in
    let synced = sync_remaining (steps_of p.mission) p.remaining in
    elim b.unrecoverable [
      | some thrown ↦ stops p.mission thrown
      | none ↦ if b.replan_applied then goes (record p { remaining = synced }) else goes p
    ]

abbrev pub with_steps : MissionPlan → List MissionStep → MissionRecord → MissionRecord
with_steps plan steps mission = record mission { plan = some (record plan { steps = steps }) }

-- A batch of ready steps that is run: its steps, with the ends of their runs, and the record.
unfoldable pub run_batch :
    ExecutorHost → ℕ → MissionPlan → List MissionStep → List MissionStep → Progress → RoundEnd
unfolding end_round settle_batch run_step marked spawn_for_plan
run_batch host round plan steps batch p =
    let templates = spawn_for_plan host.env host.name_before plan in
    let ends = map (λ step. (step, run_step host round p.mission templates step)) batch in
    let ran : Progress = record p {
      mission = with_steps plan (map (marked ends) steps) p.mission;
    } in
    end_round (
      settle_batch host round ends
        (record { progress = ran; replan_applied = false; unrecoverable = none }))

-- A round with the plan of the record.
unfoldable pub run_plan : ExecutorHost → ℕ → MissionPlan → Progress → RoundEnd
unfolding run_batch promote_ready_steps sync_remaining ready_steps select_batch spawn_for_plan
run_plan host round plan p =
    let steps = promote_ready_steps plan.steps in
    let synced : Progress = record p {
      mission = with_steps plan steps p.mission;
      remaining = sync_remaining steps p.remaining;
    } in
    let ready = ready_steps steps in
    let batch =
      select_batch ready (spawn_for_plan host.env host.name_before plan) host.max_parallelism in
    if length ready == 0
    then stops synced.mission (
        error (
          template (
            "Mission \"" ∷ p.mission.objective.id
            ∷ "\" cannot make progress because no steps are ready." ∷ [])))
    else run_batch host round plan steps batch synced

abbrev pub no_plan_error : MissionRecord → Thrown
no_plan_error mission =
    error (template ("Mission \"" ∷ mission.objective.id ∷ "\" has no plan." ∷ []))

unfoldable pub run_with : ExecutorHost → ℕ → Progress → Option MissionPlan → RoundEnd
unfolding run_plan
run_with host round p none = stops p.mission (no_plan_error p.mission)
run_with host round p (some plan) = run_plan host round plan p

unfoldable pub run_round : ExecutorHost → ℕ → Progress → RoundEnd
unfolding run_with
run_round host round p = run_with host round p p.mission.plan

pub data Executed : Type 0 where
  completed : Progress → Executed
  raised : MissionRecord → Thrown → Executed
  unfinished : Progress → Executed

-- The loop, within as many rounds as there is fuel.
unfoldable pub execute_rounds : ExecutorHost → ℕ → ℕ → Progress → Executed
unfolding run_round
execute_rounds host zero round p = if length p.remaining == 0 then completed p else unfinished p
execute_rounds host (suc fuel) round p =
    if length p.remaining == 0 then completed p else elim (run_round host round p) [
      | stops mission thrown ↦ raised mission thrown
      | goes q ↦ execute_rounds host fuel (suc round) q
    ]

-- `execute` with a plan, up to the end of the loop.
unfoldable pub execute_plan : ExecutorHost → ℕ → MissionRecord → Option MissionPlan → Executed
unfolding execute_rounds
execute_plan host fuel mission none = raised mission (no_plan_error mission)
execute_plan host fuel mission (some plan) = execute_rounds host fuel 0 (record {
  mission = mission;
  remaining = unique (map (λ s. s.id) plan.steps);
  outputs = [];
  memory_updates = [];
  step_reports = [];
  artifacts = [];
})

unfoldable pub execute : ExecutorHost → ℕ → MissionRecord → Executed
unfolding execute_plan
execute host fuel mission = execute_plan host fuel mission mission.plan
