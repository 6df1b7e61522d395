-- ===== src/Executor/StepRuns.antt =====
-- The run of one step of a batch: executeStep, and the callback that calls it.
use jean_bot.Common.{
  ℕ, String, Bool, Option, none, some, List, [], ◌∷◌, if◌then◌else◌, ◌==◌, string_eq, find,
  template, nat_eq, JsText,
}
use jean_bot.Types.{
  StepStatus, MissionStep, MissionRecord, MissionObjective, StepExecutionRecord,
  StepExecutionDiagnostics, MissionArtifact, Arithmetic, Stamps, step_status_eq, capability_name,
}
use jean_bot.Policy.{evaluate_mission}
use jean_bot.ModelRouter.{ProviderEnvironment}
use jean_bot.Scheduler.{SubAgentTemplate, template_for}
use jean_bot.Retries.{
  AttemptHost, Thrown, step_failure, error, Settled, accepted, rejected, broke_off,
  execute_step_with_retries,
}

-- What the host answers while one step runs: what the policy's audit and `prepareFrame` throw, the
-- runs of the sub-agent with their audit, the artifact, and what writing it and remembering the step throw. What is
-- thrown is never a falsy value, which `execute` would not take for a failure.
pub record StepHost : Type 0 where
  pub started_at : String
  pub prepare_error : Option Thrown
  pub attempts : AttemptHost
  pub artifact : MissionArtifact
  pub record_error : Option Thrown

-- The host of a mission: a step's host depends on the round.
pub record ExecutorHost : Type 0 where
  pub js : JsText
  pub num : Arithmetic
  pub env : ProviderEnvironment
  pub name_before : String → String → Bool
  pub max_parallelism : ℕ
  pub step_host : ℕ → MissionStep → StepHost
  pub stamps : ℕ → MissionStep → Stamps

pub record StepOutcome : Type 0 where
  pub step : MissionStep
  pub report : StepExecutionRecord
  pub artifact : MissionArtifact
  pub memory_text : String
  pub run_id : String
  pub diagnostics : StepExecutionDiagnostics

-- How the run of a step ends: with an outcome, or with what is thrown and the status that the step
-- has then.
pub data StepEnd : Type 0 where
  fulfilled : StepOutcome → StepEnd
  broke : StepStatus → Thrown → StepEnd

abbrev pub step_objective : MissionObjective → MissionStep → MissionObjective
step_objective objective step = record objective {
  title = template (objective.title ∷ " :: " ∷ step.title ∷ []);
  objective = template (objective.objective ∷ "\n" ∷ step.description ∷ []);
}

-- `executeStep` behind the retries.
unfoldable pub finish_step : StepHost → MissionStep → Settled → StepEnd
finish_step host step (rejected failure) = broke step.status (step_failure failure)
finish_step host step (broke_off thrown) = broke step.status thrown
finish_step host step (accepted attempt) = elim host.record_error [
  | some thrown ↦ broke StepStatus.completed thrown
  | none ↦ fulfilled (record {
    step = record step { status = StepStatus.completed };
    report = record attempt.result.step_report {
      started_at = host.started_at;
      attempts = some attempt.attempts;
      diagnostics = some attempt.diagnostics;
    };
    artifact = host.artifact;
    memory_text = attempt.result.memory_text;
    run_id = attempt.result.run_id;
    diagnostics = attempt.diagnostics;
  })
]

unfoldable pub execute_step : JsText → Arithmetic → StepHost → MissionRecord → MissionStep → StepEnd
unfolding finish_step
execute_step js num host mission step =
    let running : MissionStep = record step { status = StepStatus.running } in
    let decision = evaluate_mission js (step_objective mission.objective step) in
    elim host.prepare_error [
      | some thrown ↦ broke StepStatus.running thrown
      | none ↦
          finish_step host running
            (execute_step_with_retries js num host.attempts running decision).1
    ]

-- The callback of the batch.
unfoldable pub run_step :
    ExecutorHost → ℕ → MissionRecord → List SubAgentTemplate → MissionStep → StepEnd
unfolding execute_step template_for
run_step host round mission templates step = elim (template_for step.capability templates) [
  | none ↦ broke step.status (
      error (
        template (
          "Missing sub-agent template for capability \""
          ∷ capability_name step.capability
          ∷ "\"."
          ∷ [])))
  | some t ↦ execute_step host.js host.num (host.step_host round step) mission step
]

abbrev pub left_status : StepEnd → StepStatus
left_status (fulfilled outcome) = StepStatus.completed
left_status (broke status thrown) = status

abbrev pub mark_as : Option (MissionStep × StepEnd) → MissionStep → MissionStep
mark_as none step = step
mark_as (some e) step =
    if step.status == StepStatus.ready then record step { status = left_status e.1 } else step

-- The runs of the batch write the status of their steps, which the plan holds as ready ones.
unfoldable pub marked : List (MissionStep × StepEnd) → MissionStep → MissionStep
marked ends step = mark_as (find (λ e. e.0.id == step.id) ends) step
