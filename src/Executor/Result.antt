-- ===== src/Executor/Result.antt =====
-- The end of `execute` behind its loop: the result that it builds, with buildVerificationSummary of
-- executor/execution-intelligence.ts. The files of the decision log and of the report are written by
-- the host, which answers with their paths.
use jean_bot.Common.{
  ℕ, ◌+◌, String, not, ◌&&◌, Option, none, some, List, [], ◌∷◌, ◌++◌, map, if◌then◌else◌, ltb, leb,
  ◌==◌, string_eq, nat_eq, length, find, filter, or_default, template, join, JsText,
}
use jean_bot.Common.Decimal.{decimal}
use jean_bot.Types.{
  ArtifactKind, MissionStatus, ExecutionMode, FailureClass, MissionStep, MissionRecord,
  MissionArtifact, MissionRunResult, MissionExecutionMetrics, StepExecutionRecord,
  StepExecutionDiagnostics, MetaValue, Double, Stamps, failure_class_eq,
}
use jean_bot.Retries.{Thrown, step_failure, error, value, failure_class_name}
use jean_bot.Intelligence.Metrics.{build_mission_metrics, build_mission_gaps}
use jean_bot.Lifecycle.{Execution, finished, raised}
use jean_bot.Executor
use jean_bot.Executor.{ExecutorHost, StepOutcome, Progress, Executed, steps_of, execute}

-- What the host answers behind the loop: `toFixed(2)` of a score, the text of an output, the paths
-- of the files, and the identifiers and times.
pub record ReportHost : Type 0 where
  pub fixed_text : Double → String
  pub output_text : StepOutcome → String
  pub log_path : String
  pub report_path : String
  pub stamps : Stamps

-- `order.get(id) ?? 0`: of equal identifiers the last one counts.
abbrev pub last_index : String → ℕ → List MissionStep → Option ℕ
last_index id n [] = none
last_index id n (step ∷ steps) = elim (last_index id (n + 1) steps) [
  | some later ↦ some later
  | none ↦ if step.id == id then some n else none
]

abbrev pub order_of : List MissionStep → StepExecutionRecord → ℕ
order_of steps report = or_default (last_index report.step_id 0 steps) 0

-- The sort keeps reports of equal order as they come.
unfoldable pub insert_report :
    List MissionStep → StepExecutionRecord → List StepExecutionRecord → List StepExecutionRecord
insert_report steps report [] = report ∷ []
insert_report steps report (r ∷ reports) =
    let behind = r ∷ insert_report steps report reports in
    if leb (order_of steps report) (order_of steps r) then report ∷ r ∷ reports else behind

unfoldable pub ordered_reports :
    List MissionStep → List StepExecutionRecord → List StepExecutionRecord
unfolding insert_report
ordered_reports steps [] = []
ordered_reports steps (report ∷ reports) =
    insert_report steps report (ordered_reports steps reports)

abbrev pub class_of : Option StepExecutionDiagnostics → FailureClass
class_of none = FailureClass.none
class_of (some d) = d.failure_class

abbrev pub note_of : Option StepExecutionRecord → String
note_of none = ""
note_of (some r) =
    if class_of r.diagnostics == FailureClass.none
    then ""
    else template (
        " Weakest step: "
        ∷ r.step_id
        ∷ " ("
        ∷ failure_class_name (class_of r.diagnostics)
        ∷ ")."
        ∷ [])

abbrev pub weakest_report : Option String → List StepExecutionRecord → Option StepExecutionRecord
weakest_report none reports = none
weakest_report (some id) reports = find (λ r. r.step_id == id) reports

abbrev pub counted : String → ℕ → String
counted label n = if ltb 0 n then template (label ∷ ": " ∷ decimal n ∷ "." ∷ []) else ""

unfoldable pub build_verification_summary :
    JsText
    → ReportHost
    → MissionRecord
    → List StepExecutionRecord
    → MissionExecutionMetrics
    → String
build_verification_summary js host mission reports metrics = join " " (
    filter (λ part. not (part == ""))
      (template (
          "Mission \""
          ∷ mission.objective.title
          ∷ "\" completed "
          ∷ decimal metrics.completed_steps
          ∷ "/"
          ∷ decimal metrics.total_steps
          ∷ " planned steps."
          ∷ [])
        ∷ template ("Average step score: " ∷ host.fixed_text metrics.average_step_score ∷ "." ∷ [])
        ∷ template ("Tool calls executed: " ∷ decimal metrics.total_tool_calls ∷ "." ∷ [])
        ∷ (if ltb 0 metrics.retried_steps
            then counted "Retried steps" metrics.retried_steps
            else "No retries were needed.")
        ∷ counted "Adaptive replans" metrics.replanned_steps
        ∷ counted "Escalations" metrics.escalations
        ∷ js.trim (note_of (weakest_report metrics.weakest_step_id reports))
        ∷ []))

-- `persistDecisionLogArtifact`.
unfoldable pub decision_log_artifact : ReportHost → MissionRecord → List MissionArtifact
decision_log_artifact host mission =
    let decisions = length (or_default mission.decision_log []) in
    let replans = length (or_default mission.replan_history []) in
    if decisions == 0 && replans == 0
    then []
    else record {
      id = host.stamps.uuid 0;
      kind = ArtifactKind.log;
      title = "Mission decision log";
      path = host.log_path;
      created_at = host.stamps.iso 0;
      metadata =
          ("missionId", MetaValue.text mission.objective.id)
          ∷ ("decisions", MetaValue.count decisions)
          ∷ ("replans", MetaValue.count replans)
          ∷ [];
    }
      ∷ []

abbrev pub report_artifact : ReportHost → MissionRecord → ℕ → MissionArtifact
report_artifact host mission reports = record {
  id = host.stamps.uuid 1;
  kind = ArtifactKind.report;
  title = "Mission report";
  path = host.report_path;
  created_at = host.stamps.iso 1;
  metadata =
      ("missionId", MetaValue.text mission.objective.id)
      ∷ ("stepCount", MetaValue.count reports)
      ∷ [];
}

unfoldable pub mission_result : ExecutorHost → ReportHost → String → Progress → MissionRunResult
unfolding ordered_reports build_verification_summary decision_log_artifact
mission_result host reporting started_at p =
    let reports = ordered_reports (steps_of p.mission) p.step_reports in
    let artifacts = p.artifacts ++ decision_log_artifact reporting p.mission in
    let all_artifacts = artifacts ++ report_artifact reporting p.mission (length reports) ∷ [] in
    let metrics =
      build_mission_metrics host.num reports artifacts (or_default p.mission.decision_log []) in
    record {
      mission_id = p.mission.objective.id;
      status = MissionStatus.completed;
      execution_mode = some ExecutionMode.local;
      verification_summary = build_verification_summary host.js reporting p.mission reports metrics;
      outputs = map (λ (o : StepOutcome). (o.step.id, reporting.output_text o)) p.outputs;
      memory_updates = p.memory_updates;
      step_reports = some reports;
      artifacts = some all_artifacts;
      metrics = some (record metrics { total_artifacts = length all_artifacts });
      gaps = some (build_mission_gaps reports);
      decision_log = p.mission.decision_log;
      started_at = started_at;
      finished_at = reporting.stamps.iso 2;
    }

abbrev pub error_message_of : Thrown → Option String
error_message_of (step_failure f) = some f.error_message
error_message_of (error message) = some message
error_message_of (value text) = none

-- `execute` as the execution job calls it, with fuel for its loop.
abbrev pub ended : ExecutorHost → ReportHost → String → Executed → Execution
ended host reporting started_at (Executor.completed p) =
    finished p.mission (mission_result host reporting started_at p)
ended host reporting started_at (Executor.raised mission thrown) =
    raised mission (error_message_of thrown)
ended host reporting started_at (Executor.unfinished p) = raised p.mission none

unfoldable pub execute_mission : ExecutorHost → ReportHost → String → ℕ → MissionRecord → Execution
unfolding mission_result
execute_mission host reporting started_at fuel mission =
    ended host reporting started_at (execute host fuel mission)
