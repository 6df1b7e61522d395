-- ===== src/Examples/Execution.antt =====
-- Scheduling, assessing and retrying the steps of the plan.
use jean_bot.Common.{
  ℕ, zero, suc, ◌≡◌, ◌≢◌, ◌≤◌, refl, true, not, Option, none, some, List, [], ◌∷◌, map, length,
  count, any, ltb, if◌then◌else◌, ◌==◌, string_eq, All, nat_eq,
}
use jean_bot.Types.{
  Capability, StepStatus, FailureClass, StepExecutionRecord, capability_eq, failure_class_eq,
  step_status_eq, MissionRunResult, MissionStatus,
}
use jean_bot.Validator.{
  incomplete_steps, no_summary, incomplete_report, is_incomplete, validate, recover,
}
use jean_bot.Validator.Acceptance.{
  executor_metrics, report_error, validate-executor_metrics, validate-recover,
}
use jean_bot.Examples.{
  mission, host_text, thousandths, free_pass, build, plan, idle_output, busy_output,
}
use jean_bot.Scheduler.{
  SubAgentTemplate, promoted, promote_ready_steps, ready_steps, select_batch, limit_for,
  at_least_one, retry_limit,
}
use jean_bot.Scheduler.Promotion.{promote_ready_steps-eq-map}
use jean_bot.Scheduler.Progress.{IsSettled, ready_steps-ne-nil}
use jean_bot.Scheduler.Batches.{select_batch_bounds, select_batch-ne-nil}
use jean_bot.Intelligence.{
  RuntimeOutput, coverage_snapshot, evidence_snapshot, has_policy_gap, failed_call, failure_class,
  missing_signals, assess_step,
}
use jean_bot.Intelligence.Classes.{failure_class-priority, length-missing_signals}
use jean_bot.Intelligence.Verdicts.{gate_failed, gate_failed_lem}
use jean_bot.Retries.{
  SubAgentExecutionResult, Run, Thrown, returned, threw, error, AttemptHost, AuditCall, at_failure,
  execute_step_with_retries,
}
use jean_bot.Retries.Paths.{taken}
use jean_bot.Retries.Outcomes.{first_passing, execute_step_with_retries-taken}

promote_ready_steps-eq-map_example :
    promote_ready_steps plan.steps ≡ map (λ s. promoted s plan.steps) plan.steps
promote_ready_steps-eq-map_example = promote_ready_steps-eq-map plan.steps

settled : All IsSettled plan.steps
settled = ((λ e. cc, λ e. cc), ((λ e. cc, λ e. cc), ((λ e. cc, λ e. cc), tt)))

ready_steps-ne-nil_example : ready_steps (promote_ready_steps plan.steps) ≢ []
ready_steps-ne-nil_example =
    ready_steps-ne-nil plan.steps (tt, ((refl, tt), ((refl, tt), tt))) settled refl

abbrev templates : List SubAgentTemplate
templates =
    record {
      id = "t";
      role = "r";
      specialization = Capability.terminal;
      instructions = "";
      max_parallel_tasks = 2;
      timeout_ms = none;
      provider = none;
      model = none;
      tool_ids = none;
      escalation_threshold = none;
    }
    ∷ []

select_batch_bounds_example :
    (length (select_batch plan.steps templates 2) ≤ at_least_one 2)
    × (count (λ s. s.capability == Capability.terminal) (select_batch plan.steps templates 2)
        ≤ limit_for templates Capability.terminal)
select_batch_bounds_example = select_batch_bounds plan.steps templates 2 Capability.terminal

select_batch-ne-nil_example :
    All (λ s. s.assignee ≡ "main-agent") (select_batch plan.steps templates 2)
    × (select_batch plan.steps templates 2 ≢ [])
select_batch-ne-nil_example =
    select_batch-ne-nil (λ s. s.assignee ≡ "main-agent") plan.steps templates 2
      (refl, (refl, (refl, tt))) (λ e. cc)

failure_class-priority_example :
    failure_class build idle_output (coverage_snapshot thousandths build idle_output) free_pass ≡ (
      if has_policy_gap build idle_output free_pass
      then FailureClass.policy
      else if not idle_output.verification_ok
      then FailureClass.verification
      else if any failed_call idle_output.tool_calls
      then FailureClass.tooling
      else if ltb 0 (length (coverage_snapshot thousandths build idle_output).missing_kinds)
      then FailureClass.coverage
      else FailureClass.none)
failure_class-priority_example =
    failure_class-priority build idle_output (coverage_snapshot thousandths build idle_output)
      free_pass

busy_passes :
    failure_class build busy_output (coverage_snapshot thousandths build busy_output) free_pass
    ≡ FailureClass.none
unfolding failure_class coverage_snapshot
busy_passes = refl

length-missing_signals_example :
    length (
      missing_signals host_text build busy_output
        (coverage_snapshot thousandths build busy_output)
        (evidence_snapshot host_text thousandths busy_output)
        free_pass)
    ≤ 1
length-missing_signals_example =
    length-missing_signals host_text thousandths build busy_output free_pass busy_passes

gate_failed_lem_example :
    (gate_failed (assess_step host_text thousandths build idle_output free_pass 1)
      ≡ not (
          (assess_step host_text thousandths build idle_output free_pass 1).failure_class
          == FailureClass.none))
    × (gate_failed (assess_step host_text thousandths build idle_output free_pass 1) ≡ true
        → (assess_step host_text thousandths build idle_output free_pass 1).retryable ≡ true)
gate_failed_lem_example = gate_failed_lem host_text thousandths build idle_output free_pass 1

abbrev pub report : StepExecutionRecord
report = record {
  step_id = "build";
  assignee = "main-agent";
  status = StepStatus.completed;
  started_at = "";
  finished_at = "";
  summary = "";
  verification = "";
  tool_id = none;
  sub_agent_run_id = none;
  attempts = none;
  tool_calls = none;
  diagnostics = none;
}

abbrev pub result_of : RuntimeOutput → SubAgentExecutionResult
result_of output = record { run_id = "r"; output = output; memory_text = ""; step_report = report }

-- The first run throws, the second uses no tool, the third passes.
abbrev runs : ℕ → Run
runs (suc (suc (suc n))) = returned (result_of busy_output)
runs (suc (suc zero)) = returned (result_of idle_output)
runs _ = threw (error "timeout")

-- The audit of the failure of a fourth attempt would throw.
abbrev audit_error : ℕ → AuditCall → Option Thrown
audit_error (suc (suc (suc (suc n)))) at_failure = some (error "audit")
audit_error _ _ = none

abbrev pub attempts : AttemptHost
attempts = record { run = runs; audit_error = audit_error }

-- The audit of the failure of each attempt throws.
abbrev lost_failures : AttemptHost
lost_failures = record {
  run = runs;
  audit_error = λ n call. elim call [ at_failure ↦ some (error "audit") | _ ↦ none ];
}

none_taken :
    taken (execute_step_with_retries host_text thousandths lost_failures build free_pass).1 ≡ none
unfolding execute_step_with_retries
none_taken = refl

execute_step_with_retries-taken_example :
    taken (execute_step_with_retries host_text thousandths attempts build free_pass).1
    ≡ first_passing host_text thousandths attempts build free_pass (retry_limit build) 1
execute_step_with_retries-taken_example =
    execute_step_with_retries-taken host_text thousandths attempts build free_pass

third_taken :
    taken (execute_step_with_retries host_text thousandths attempts build free_pass).1 ≡ some 3
unfolding execute_step_with_retries
third_taken = refl

abbrev finished : MissionRunResult
finished = record {
  mission_id = "m1";
  status = MissionStatus.completed;
  execution_mode = none;
  verification_summary = "done";
  outputs = [];
  memory_updates = [];
  step_reports = some (report ∷ report ∷ report ∷ []);
  artifacts = none;
  metrics =
      some (executor_metrics host_text thousandths mission (report ∷ report ∷ report ∷ []) [] 1);
  gaps = none;
  decision_log = none;
  started_at = "";
  finished_at = "";
}

validate-executor_metrics_example : validate host_text mission finished ≡ (
    if ltb 0 (count is_incomplete plan.steps)
    then some incomplete_steps
    else if finished.verification_summary == ""
    then some no_summary
    else if not (length (report ∷ report ∷ report ∷ []) == length plan.steps)
    then some incomplete_report
    else report_error host_text thousandths mission (report ∷ report ∷ report ∷ []) [] 1)
validate-executor_metrics_example =
    validate-executor_metrics host_text thousandths mission (report ∷ report ∷ report ∷ []) [] 1
      plan finished refl refl refl

validate-recover_example :
    validate host_text mission (recover thousandths mission (some "out of memory") "now") ≢ none
validate-recover_example =
    validate-recover host_text thousandths mission (some "out of memory") "now"

abbrev assessed : StepExecutionRecord
assessed = record report {
  diagnostics = some (assess_step host_text thousandths build busy_output free_pass 1);
}

-- A result for a plan of one step.
abbrev pub executor_result : MissionRunResult
executor_result = record finished {
  step_reports = some (assessed ∷ []);
  metrics = some (executor_metrics host_text thousandths mission (assessed ∷ []) [] 1);
}
