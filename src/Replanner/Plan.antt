-- ===== src/Replanner/Plan.antt =====
-- services/agent-orchestrator/src/executor/adaptive-replanner.ts: the repair steps, their place in
-- the plan, and the decisions that are logged.
use jean_bot.Common.{
  ℕ, ◌+◌, String, Bool, true, false, not, ◌||◌, Option, none, some, List, [], ◌∷◌, ◌++◌, map,
  if◌then◌else◌, leb, or_default, ◌==◌, string_eq, count, length, template, JsText,
}
use jean_bot.Common.Decimal.{decimal}
use jean_bot.Types.{
  Stage, StepStatus, FailureClass, Severity, Scope, Category, MissionStep, MissionPlan,
  MissionRecord, StepExecutionDiagnostics, MetaValue, MissionDecisionLogEntry, MissionReplanPatch,
  capability_eq, stage_eq, failure_class_eq,
}
use jean_bot.Replanner.Kinds.{capability_to_tool_kind}
use jean_bot.Replanner.Blueprints.{RemediationBlueprint, remediation_blueprints}

pub record StepExecutionFailureContext : Type 0 where
  pub step : MissionStep
  pub attempts : ℕ
  pub error_message : String
  pub diagnostics : Option StepExecutionDiagnostics

pub record AdaptiveReplanResult : Type 0 where
  pub patched : Bool
  pub plan : MissionPlan
  pub remediation_steps : List MissionStep
  pub decision_entries : List MissionDecisionLogEntry
  pub replan_patch : Option MissionReplanPatch

abbrev pub max_mission_replans : ℕ
max_mission_replans = 8

abbrev pub max_step_replans : ℕ
max_step_replans = 2

abbrev plan_own_version : Option MissionPlan → Option ℕ
plan_own_version none = none
plan_own_version (some p) = p.version

-- `planVersion` of the replanner.
unfoldable pub plan_version_of : MissionRecord → ℕ
plan_version_of mission =
    or_default (plan_own_version mission.plan) (or_default mission.plan_version 1)

abbrev pub replans : MissionRecord → List MissionReplanPatch
replans mission = or_default mission.replan_history []

unfoldable pub step_replan_count : MissionRecord → String → ℕ
step_replan_count mission step_id =
    count (λ patch. patch.triggered_by_step_id == step_id) (replans mission)

unfoldable pub mission_replan_count : MissionRecord → ℕ
mission_replan_count mission = length (replans mission)

abbrev is_failure : Category → Bool
is_failure Category.failure = true
is_failure _ = false

-- `decisionEntry`, with the id and the time that the host gives to it.
unfoldable pub decision_entry :
    MissionRecord
    → StepExecutionFailureContext
    → Category
    → Severity
    → String
    → String
    → List String
    → List (String × MetaValue)
    → String
    → String
    → MissionDecisionLogEntry
unfolding plan_version_of
decision_entry mission failure category severity summary reasoning actions metadata id now =
    record {
      id = id;
      mission_id = mission.objective.id;
      plan_version = plan_version_of mission;
      scope = if is_failure category then Scope.recovery else Scope.step;
      category = category;
      severity = severity;
      step_id = some failure.step.id;
      summary = summary;
      reasoning = reasoning;
      recommended_actions = actions;
      metadata = metadata;
      created_at = now;
    }

unfoldable pub remediation_id : String → ℕ → String → ℕ → String
unfolding decimal
remediation_id mission_id version step_id index =
    template (mission_id ∷ "-replan-v" ∷ decimal version ∷ "-" ∷ step_id ∷ "-" ∷ decimal index ∷ [])

abbrev pub status_for : List String → StepStatus
status_for [] = StepStatus.ready
status_for (_ ∷ _) = StepStatus.pending

unfoldable pub remediation_step :
    JsText → MissionStep → String → List String → RemediationBlueprint → MissionStep
unfolding capability_to_tool_kind
remediation_step js failed id cursor b = record {
  id = id;
  title = b.title;
  description = b.description;
  capability = b.capability;
  stage = some b.stage;
  tool_kind = capability_to_tool_kind b.capability;
  depends_on = cursor;
  verification = template (
      "Confirm that "
      ∷ js.to_lower b.title
      ∷ " produced evidence that unblocks \""
      ∷ failed.title
      ∷ "\"."
      ∷ []);
  assignee = b.assignee;
  status = status_for cursor;
}

-- The loop of `buildRemediationSteps`: each step waits for the one before it; `cursor` is what the
-- next step waits for and `index` the number of the round, from 1 on.
unfoldable pub remediation_chain :
    JsText
    → String
    → ℕ
    → MissionStep
    → ℕ
    → List String
    → List RemediationBlueprint
    → List MissionStep
unfolding remediation_step remediation_id
remediation_chain js mission_id version failed index cursor [] = []
remediation_chain js mission_id version failed index cursor (b ∷ bs) =
    let id = remediation_id mission_id version failed.id index in
    remediation_step js failed id cursor b
    ∷ remediation_chain js mission_id version failed (index + 1) (id ∷ []) bs

unfoldable pub build_remediation_steps :
    JsText → MissionRecord → StepExecutionFailureContext → ℕ → List MissionStep
unfolding remediation_blueprints remediation_chain
build_remediation_steps js mission failure next_version =
    remediation_chain js mission.objective.id next_version failure.step 1 failure.step.depends_on
      (remediation_blueprints js failure.step failure.diagnostics failure.error_message)

abbrev pub is_stage : Stage → Option Stage → Bool
is_stage stage none = false
is_stage stage (some s) = s == stage

abbrev calls_for_repair : Option StepExecutionDiagnostics → Bool
calls_for_repair none = false
calls_for_repair (some d) =
    d.retryable
    || d.failure_class == FailureClass.policy
    || d.failure_class == FailureClass.verification

abbrev has_plan : Option MissionPlan → Bool
has_plan none = false
has_plan (some p) = true

-- `canReplan`; a text has a positive length when it is not empty.
unfoldable pub can_replan : MissionRecord → StepExecutionFailureContext → Bool
unfolding step_replan_count mission_replan_count
can_replan mission failure =
    if not (has_plan mission.plan)
    then false
    else if is_stage Stage.delivery failure.step.stage
    then false
    else if leb max_step_replans (step_replan_count mission failure.step.id)
    then false
    else if leb max_mission_replans (mission_replan_count mission)
    then false
    else calls_for_repair failure.diagnostics || not (failure.error_message == "")

-- `findIndex` and `splice`: the first step with the identifier gives way to a list; `none` where
-- no step has it.
unfoldable pub splice_at :
    String → (MissionStep → List MissionStep) → List MissionStep → Option (List MissionStep)
splice_at id replacement [] = none
splice_at id replacement (s ∷ steps) =
    let later = splice_at id replacement steps in
    if s.id == id
    then some (replacement s ++ steps)
    else elim later [ none ↦ none | some spliced ↦ some (s ∷ spliced) ]

-- The failed step behind its repairs.
unfoldable pub deferred_step : List MissionStep → MissionStep → MissionStep
deferred_step [] original = record original { status = status_for original.depends_on }
deferred_step (r ∷ rs) original = record original {
  depends_on = map (λ s. s.id) (r ∷ rs);
  status = StepStatus.pending;
}
