-- ===== src/Retries.antt =====
-- `executeStepWithRetries` of services/agent-orchestrator/src/executor/mission-executor.ts. What a
-- run of the sub-agent gives and what the audit service throws are arguments, one answer for each
-- attempt; the calls of the audit service and the waits are the trace.
pub mod Paths
pub mod Outcomes
use jean_bot.Common.{
  ℕ, zero, suc, ◌+◌, ◌*◌, ◌-◌, String, Bool, true, false, not, ◌&&◌, ◌||◌, Option, none, some, List,
  [], ◌∷◌, ◌++◌, if◌then◌else◌, leb, ltb, ◌==◌, string_eq, template, join, JsText,
}
use jean_bot.Common.Decimal.{decimal}
use jean_bot.Types.{
  FailureClass, Arithmetic, MissionStep, PolicyDecision, StepExecutionDiagnostics,
  StepExecutionRecord,
}
use jean_bot.Scheduler.{retry_limit}
use jean_bot.Intelligence.{RuntimeOutput, assess_step}
use jean_bot.Intelligence.Verdicts.{gate_failed}
use jean_bot.Replanner.{StepExecutionFailureContext}

-- Of the run record only its identifier is here.
pub record SubAgentExecutionResult : Type 0 where
  pub run_id : String
  pub output : RuntimeOutput
  pub memory_text : String
  pub step_report : StepExecutionRecord

-- What JavaScript code throws here: a `StepExecutionFailure`, another `Error` with its message, or
-- a value with its text.
pub data Thrown : Type 0 where
  step_failure : StepExecutionFailureContext → Thrown
  error : String → Thrown
  value : String → Thrown

pub data Run : Type 0 where
  returned : SubAgentExecutionResult → Run
  threw : Thrown → Run

-- The calls of the audit service.
pub data AuditCall : Type 0 where
  at_start at_assessment at_retry at_failure : AuditCall

-- What an attempt gets from the services: the end of its run, and what a call of the audit service
-- throws, if it does.
pub record AttemptHost : Type 0 where
  pub run : ℕ → Run
  pub audit_error : ℕ → AuditCall → Option Thrown

pub data Event : Type 0 where
  started : ℕ → Event
  assessed : ℕ → StepExecutionDiagnostics → Event
  retry_scheduled : ℕ → String → Event
  failed : ℕ → String → Event
  slept : ℕ → Event

pub record StepExecutionAttempt : Type 0 where
  pub result : SubAgentExecutionResult
  pub diagnostics : StepExecutionDiagnostics
  pub attempts : ℕ

pub data Settled : Type 0 where
  accepted : StepExecutionAttempt → Settled
  rejected : StepExecutionFailureContext → Settled
  broke_off : Thrown → Settled

-- `error instanceof Error ? error.message : String(error)`.
abbrev pub message_of : Thrown → String
message_of (step_failure f) = f.error_message
message_of (error message) = message
message_of (value text) = text

abbrev pub capped : ℕ → ℕ → ℕ
capped n most = if leb n most then n else most

abbrev pub failure_class_name : FailureClass → String
failure_class_name FailureClass.none = "none"
failure_class_name FailureClass.tooling = "tooling"
failure_class_name FailureClass.verification = "verification"
failure_class_name FailureClass.coverage = "coverage"
failure_class_name FailureClass.policy = "policy"
failure_class_name FailureClass.runtime = "runtime"

-- `actions.join(" | ") || failureClass`.
abbrev pub retry_reason : StepExecutionDiagnostics → String
retry_reason d =
    let joined = join " | " d.recommended_actions in
    if joined == "" then failure_class_name d.failure_class else joined

unfoldable pub gate_failure :
    MissionStep → ℕ → StepExecutionDiagnostics → StepExecutionFailureContext
unfolding decimal
gate_failure step attempt d = record {
  step = step;
  attempts = attempt;
  error_message = template (
      "Step \""
      ∷ step.id
      ∷ "\" failed the quality gate after "
      ∷ decimal attempt
      ∷ " attempt(s): "
      ∷ join " " d.recommended_actions
      ∷ []);
  diagnostics = some d;
}

-- What is thrown behind the loop, by the last error that was caught.
unfoldable pub give_up : MissionStep → ℕ → Option Thrown → StepExecutionFailureContext
unfolding decimal
give_up step limit (some (step_failure f)) = f
give_up step limit (some (error message)) = record {
  step = step;
  attempts = limit;
  error_message = message;
  diagnostics = none;
}
give_up step limit _ = record {
  step = step;
  attempts = limit;
  error_message =
      template ("Step \"" ∷ step.id ∷ "\" failed after " ∷ decimal limit ∷ " attempt(s)." ∷ []);
  diagnostics = none;
}

abbrev before : List Event → List Event × Settled → List Event × Settled
before events (later, settled) = (events ++ later, settled)

-- What follows a call, where it does not throw.
abbrev pub guarded :
    Option Thrown → (Thrown → List Event × Settled) → List Event × Settled → List Event × Settled
guarded none handler next = next
guarded (some e) handler next = handler e

module _ (js : JsText) (num : Arithmetic) (host : AttemptHost) (step : MissionStep)
    (decision : PolicyDecision) (limit : ℕ) where
  -- The `catch` block: the error is logged, and the loop ends at the limit. What the log throws
  -- leaves the loop. The rest of the loop is passed in.
  unfoldable pub caught : ℕ → Thrown → (Option Thrown → List Event × Settled) → List Event × Settled
  unfolding give_up
  caught attempt e rest = before (failed attempt (message_of e) ∷ []) (
      guarded (host.audit_error attempt at_failure) (λ thrown. ([], broke_off thrown))
        (if leb limit attempt
          then ([], rejected (give_up step limit (some e)))
          else before (slept (capped (150 * attempt) 500) ∷ []) (rest (some e))))

  -- What follows the assessment of a run that returned: a bad result is tried again while an
  -- attempt is left, and thrown (and caught) at the limit.
  unfoldable pub judged :
      ℕ
      → SubAgentExecutionResult
      → StepExecutionDiagnostics
      → Option Thrown
      → (Option Thrown → List Event × Settled)
      → List Event × Settled
  unfolding caught gate_failed gate_failure
  judged attempt result d last rest =
      let again = before (retry_scheduled attempt (retry_reason d) ∷ []) (
        guarded (host.audit_error attempt at_retry) (λ e. caught attempt e rest)
          (before (slept (capped (175 * attempt) 650) ∷ []) (rest last))) in
      let thrown = caught attempt (step_failure (gate_failure step attempt d)) rest in
      let done : List Event × Settled =
        ([], accepted (record { result = result; diagnostics = d; attempts = attempt })) in
      before (assessed attempt d ∷ []) (
        guarded (host.audit_error attempt at_assessment) (λ e. caught attempt e rest)
          (if gate_failed d && d.retryable && ltb attempt limit
            then again
            else if gate_failed d && leb limit attempt
            then thrown
            else done))

  unfoldable pub settle :
      ℕ → Run → Option Thrown → (Option Thrown → List Event × Settled) → List Event × Settled
  unfolding judged assess_step
  settle attempt (returned result) last rest =
      judged attempt result (assess_step js num step result.output decision attempt) last rest
  settle attempt (threw e) last rest = caught attempt e rest

  -- The loop, by the rounds left; `attempt` counts from 1 and `last` is `lastError`.
  unfoldable pub attempt_from : ℕ → ℕ → Option Thrown → List Event × Settled
  unfolding settle caught
  attempt_from zero attempt last = ([], rejected (give_up step limit last))
  attempt_from (suc left) attempt last = before (started attempt ∷ []) (
      guarded (host.audit_error attempt at_start)
        (λ e. caught attempt e (λ last. attempt_from left (attempt + 1) last))
        (settle attempt (host.run attempt) last (λ e. attempt_from left (attempt + 1) e)))

unfoldable pub execute_step_with_retries :
    JsText → Arithmetic → AttemptHost → MissionStep → PolicyDecision → List Event × Settled
unfolding attempt_from retry_limit
execute_step_with_retries js num host step decision =
    let limit = retry_limit step in attempt_from js num host step decision limit limit 1 none
