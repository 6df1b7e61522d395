-- ===== src/Validator.antt =====
-- services/agent-orchestrator/src/validator/mission-validator.ts and recovery/recovery-engine.ts
-- beside it: which results of a mission are accepted, and what stands for a mission that failed.
pub mod Acceptance
use jean_bot.Common.{
  ℕ, String, Bool, true, false, not, ◌&&◌, ◌||◌, Option, none, some, List, [], ◌∷◌, ◌++◌,
  if◌then◌else◌, ltb, ◌==◌, nat_eq, string_eq, length, count, unique, or_default, is_some, JsText,
  template,
}
use jean_bot.Types.{
  Category, StepStatus, MissionStatus, ExecutionMode, Arithmetic, MissionStep, MissionPlan,
  MissionRecord, MissionRunResult, MissionDecisionLogEntry, StepExecutionRecord,
  MissionExecutionMetrics, MissionExecutionState, category_eq, step_status_eq,
}

-- The errors that `validate` throws, in the order of its tests.
pub data ValidationError : Type 0 where
  no_plan incomplete_steps no_summary incomplete_report no_metrics : ValidationError
  inconsistent_metrics inconsistent_replans : ValidationError
  missing_diagnostics missing_decisions : ValidationError

abbrev pub is_incomplete : MissionStep → Bool
is_incomplete step = not (step.status == StepStatus.completed)

abbrev pub replanned_step : Bool → Option String → List String
replanned_step is_replan none = []
replanned_step is_replan (some id) = if is_replan && not (id == "") then id ∷ [] else []

unfoldable pub expected_replanned_ids : List MissionDecisionLogEntry → List String
expected_replanned_ids [] = []
expected_replanned_ids (entry ∷ log) =
    replanned_step (entry.category == Category.replan) entry.step_id ++ expected_replanned_ids log

-- The tests on the reports and the metrics, once both are there.
unfoldable pub validate_reports :
    MissionRecord
    → MissionPlan
    → List StepExecutionRecord
    → MissionExecutionMetrics
    → Option ValidationError
unfolding expected_replanned_ids
validate_reports mission plan reports metrics =
    let log = or_default mission.decision_log [] in
    if not (metrics.total_steps == length plan.steps)
    then some inconsistent_metrics
    else if not (metrics.replanned_steps == length (unique (expected_replanned_ids log)))
    then some inconsistent_replans
    else if ltb 0 (count (λ r. not (is_some r.diagnostics)) reports)
    then some missing_diagnostics
    else if ltb 0 (length (or_default mission.replan_history [])) && length log == 0
    then some missing_decisions
    else none

unfoldable pub validate_metrics :
    MissionRecord
    → MissionPlan
    → List StepExecutionRecord
    → Option MissionExecutionMetrics
    → Option ValidationError
unfolding validate_reports
validate_metrics mission plan reports none = some no_metrics
validate_metrics mission plan reports (some metrics) = validate_reports mission plan reports metrics

unfoldable pub validate_report_count :
    MissionRecord
    → MissionPlan
    → Option (List StepExecutionRecord)
    → Option MissionExecutionMetrics
    → Option ValidationError
unfolding validate_metrics
validate_report_count mission plan none metrics = some incomplete_report
validate_report_count mission plan (some reports) metrics =
    if not (length reports == length plan.steps)
    then some incomplete_report
    else validate_metrics mission plan reports metrics

unfoldable pub validate_plan :
    JsText → MissionRecord → Option MissionPlan → MissionRunResult → Option ValidationError
unfolding validate_report_count
validate_plan js mission none result = some no_plan
validate_plan js mission (some plan) result =
    if ltb 0 (count is_incomplete plan.steps)
    then some incomplete_steps
    else if js.trim result.verification_summary == ""
    then some no_summary
    else validate_report_count mission plan result.step_reports result.metrics

-- `validate`: the error that is thrown, or `none` where it returns true.
unfoldable pub validate : JsText → MissionRecord → MissionRunResult → Option ValidationError
unfolding validate_plan
validate js mission result = validate_plan js mission mission.plan result

abbrev steps_of : Option MissionPlan → List MissionStep
steps_of none = []
steps_of (some plan) = plan.steps

abbrev is_step_completed : MissionStep → Bool
is_step_completed step = step.status == StepStatus.completed

abbrev message_or_unknown : Option String → String
message_or_unknown error = or_default error "Mission failed for an unknown reason."

abbrev mode_of : Option MissionExecutionState → ExecutionMode
mode_of none = ExecutionMode.local
mode_of (some state) = state.execution_mode

-- `recover`, with the message of the error if it is an `Error`; `now` is the host's clock. The
-- nested output stands as its text.
unfoldable pub recover : Arithmetic → MissionRecord → Option String → String → MissionRunResult
recover num mission error now = record {
  mission_id = mission.objective.id;
  status = MissionStatus.failed;
  execution_mode = some (mode_of mission.active_execution);
  verification_summary = message_or_unknown error;
  outputs =
      ("recovery", "{\"suggestion\":\"Review the failing step, then re-plan or reduce scope.\"}")
      ∷ [];
  memory_updates = [];
  step_reports = none;
  artifacts = none;
  metrics = some (record {
    total_steps = length (steps_of mission.plan);
    completed_steps = count is_step_completed (steps_of mission.plan);
    failed_steps = 1;
    retried_steps = 0;
    replanned_steps = length (or_default mission.replan_history []);
    quality_gate_failures = 1;
    escalations =
        count (λ e. e.category == Category.escalation) (or_default mission.decision_log []);
    total_tool_calls = 0;
    total_artifacts = length (or_default mission.artifacts []);
    average_step_score = num.of_nat 0;
    weakest_step_id = none;
    strongest_step_id = none;
  });
  gaps = some (message_or_unknown error ∷ []);
  decision_log = some (or_default mission.decision_log []);
  started_at = now;
  finished_at = now;
}

abbrev message_end : ValidationError → String
message_end ValidationError.no_plan = "\" has no plan."
message_end ValidationError.incomplete_steps = "\" has incomplete steps."
message_end ValidationError.no_summary = "\" did not produce a verification summary."
message_end ValidationError.incomplete_report = "\" did not produce a complete step report."
message_end ValidationError.no_metrics = "\" did not produce execution metrics."
message_end ValidationError.inconsistent_metrics = "\" reported inconsistent execution metrics."
message_end ValidationError.inconsistent_replans = "\" reported inconsistent replan metrics."
message_end ValidationError.missing_diagnostics = "\" has step reports without diagnostics."
message_end ValidationError.missing_decisions = "\" has replans without decision log evidence."

unfoldable pub validation_message : MissionRecord → ValidationError → String
validation_message mission error =
    template ("Mission \"" ∷ mission.objective.id ∷ message_end error ∷ [])
