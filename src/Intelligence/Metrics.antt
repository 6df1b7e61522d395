-- ===== src/Intelligence/Metrics.antt =====
-- `buildMissionMetrics` and `buildMissionGaps` of
-- services/agent-orchestrator/src/executor/execution-intelligence.ts.
use jean_bot.Common.{
  ℕ, ◌+◌, String, Bool, true, false, not, Option, none, some, List, [], ◌∷◌, ◌++◌, map,
  if◌then◌else◌, ltb, ◌==◌, string_eq, length, count, unique, or_default, template,
}
use jean_bot.Types.{
  Category, FailureClass, StepStatus, Double, Arithmetic, StepExecutionRecord,
  StepExecutionDiagnostics, MissionArtifact, MissionDecisionLogEntry, MissionExecutionMetrics,
  category_eq, failure_class_eq, step_status_eq,
}
use jean_bot.Intelligence.Scores.{round_score}

abbrev pub has_category : Category → MissionDecisionLogEntry → Bool
has_category category entry = entry.category == category

-- An empty identifier is dropped, as one that is missing.
abbrev pub step_id_if : Bool → Option String → List String
step_id_if true (some id) = if id == "" then [] else id ∷ []
step_id_if _ _ = []

-- `filter` and `map` over the log: the steps that were replanned.
unfoldable pub replanned_ids : List MissionDecisionLogEntry → List String
replanned_ids [] = []
replanned_ids (entry ∷ log) =
    step_id_if (has_category Category.replan entry) entry.step_id ++ replanned_ids log

abbrev is_gap : Option StepExecutionDiagnostics → Bool
is_gap none = false
is_gap (some d) = not (d.failure_class == FailureClass.none)

abbrev tool_calls_of : List StepExecutionRecord → ℕ
tool_calls_of [] = 0
tool_calls_of (report ∷ reports) = or_default report.tool_calls 0 + tool_calls_of reports

-- The reports with diagnostics, by step and score.
unfoldable pub scored_reports : List StepExecutionRecord → List (String × Double)
scored_reports [] = []
scored_reports (report ∷ reports) = elim report.diagnostics [
  | none ↦ scored_reports reports
  | some d ↦ (report.step_id, d.overall_score) ∷ scored_reports reports
]

abbrev total_score : Arithmetic → Double → List (String × Double) → Double
total_score num total [] = total
total_score num total (s ∷ scored) = total_score num (num.add total s.1) scored

unfoldable pub average_score : Arithmetic → List (String × Double) → Double
unfolding round_score
average_score num [] = num.of_nat 0
average_score num (s ∷ scored) =
    round_score num
      (num.div (total_score num (num.of_nat 0) (s ∷ scored)) (num.of_nat (length (s ∷ scored))))

-- The `reduce` for the weakest and the strongest step: `better` says that a score replaces another.
unfoldable pub best_from :
    (Double → Double → Bool) → Option (String × Double) → List (String × Double) → Option String
best_from better none [] = none
best_from better (some current) [] = some current.0
best_from better none (s ∷ scored) = best_from better (some s) scored
best_from better (some current) (s ∷ scored) =
    best_from better (some (if better s.1 current.1 then s else current)) scored

unfoldable pub build_mission_metrics :
    Arithmetic
    → List StepExecutionRecord
    → List MissionArtifact
    → List MissionDecisionLogEntry
    → MissionExecutionMetrics
unfolding replanned_ids scored_reports average_score best_from
build_mission_metrics num reports artifacts log = record {
  total_steps = length reports;
  completed_steps = count (λ r. r.status == StepStatus.completed) reports;
  failed_steps = count (λ r. r.status == StepStatus.failed) reports;
  retried_steps = count (λ r. ltb 1 (or_default r.attempts 1)) reports;
  replanned_steps = length (unique (replanned_ids log));
  quality_gate_failures = count (λ r. is_gap r.diagnostics) reports;
  escalations = count (has_category Category.escalation) log;
  total_tool_calls = tool_calls_of reports;
  total_artifacts = length artifacts;
  average_step_score = average_score num (scored_reports reports);
  weakest_step_id = best_from (λ a b. num.lt a b) none (scored_reports reports);
  strongest_step_id = best_from (λ a b. num.lt b a) none (scored_reports reports);
}

abbrev signals_of : Option StepExecutionDiagnostics → List String
signals_of none = []
signals_of (some d) = d.missing_signals

unfoldable pub build_mission_gaps : List StepExecutionRecord → List String
build_mission_gaps [] = []
build_mission_gaps (report ∷ reports) =
    map (λ signal. template (report.step_id ∷ ": " ∷ signal ∷ [])) (signals_of report.diagnostics)
    ++ build_mission_gaps reports
