-- ===== src/Replanner/Blueprints.antt =====
-- services/agent-orchestrator/src/executor/adaptive-replanner.ts: which repair work a failed step
-- calls for.
use jean_bot.Common.{
  String, Bool, true, ◌&&◌, ◌||◌, Option, none, some, List, [], ◌∷◌, ◌++◌, map, ◌≡◌, ◌↔◌, arith,
  if◌then◌else◌, Eq, ◌==◌, string_eq, unique, template, summarize_text, JsText,
}
use jean_bot.Types.{
  Capability, ToolKind, Stage, FailureClass, MissionStep, StepExecutionDiagnostics, tool_kind_eq,
  capability_eq, stage_eq, tool_kind_name,
}
use jean_bot.Replanner.Kinds.{parse_missing_kinds, capability_from_missing_kind}

pub record RemediationBlueprint : Type 0 where
  pub title : String
  pub description : String
  pub capability : Capability
  pub stage : Stage
  pub assignee : String

-- `unique` over the blueprints' JSON texts: two texts are equal when all fields are.
unfoldable pub blueprint_beq : RemediationBlueprint → RemediationBlueprint → Bool
blueprint_beq a b =
    a.title == b.title
    && a.description == b.description
    && a.capability == b.capability
    && a.stage == b.stage
    && a.assignee == b.assignee

pub blueprint_beq_iff : (a b : RemediationBlueprint) → (blueprint_beq a b ≡ true) ↔ (a ≡ b)
unfolding blueprint_beq
blueprint_beq_iff a b = ground (
  arith,
  string_eq.beq_iff a.title b.title,
  string_eq.beq_iff a.description b.description,
  capability_eq.beq_iff a.capability b.capability,
  stage_eq.beq_iff a.stage b.stage,
  string_eq.beq_iff a.assignee b.assignee,
)

instance abbrev pub blueprint_eq : Eq RemediationBlueprint
blueprint_eq = record { beq = blueprint_beq; beq_iff = blueprint_beq_iff }

-- The blueprint for one kind of evidence that is missing.
unfoldable pub evidence_blueprint : JsText → MissionStep → String → ToolKind → RemediationBlueprint
unfolding capability_from_missing_kind
evidence_blueprint js step error_message kind =
    let capability = capability_from_missing_kind kind in
    let guarded = capability == Capability.security in
    record {
      title = template ("Collect " ∷ tool_kind_name kind ∷ " evidence for " ∷ step.title ∷ []);
      description = template (
          "Gather explicit "
          ∷ tool_kind_name kind
          ∷ " evidence before retrying \""
          ∷ step.title
          ∷ "\". Prior failure: "
          ∷ summarize_text js error_message 160
          ∷ []);
      capability = capability;
      stage = if guarded then Stage.analysis else Stage.execution;
      assignee = if guarded then "safety-agent" else "repair-agent";
    }

abbrev coverage_capability : List ToolKind → MissionStep → Capability
coverage_capability [] step = step.capability
coverage_capability (kind ∷ _) step = capability_from_missing_kind kind

-- The switch over the class of the failure.
unfoldable pub class_blueprints :
    MissionStep → List ToolKind → FailureClass → List RemediationBlueprint
class_blueprints step missing FailureClass.coverage =
    record {
      title = template ("Backfill missing coverage for " ∷ step.title ∷ []);
      description = template (
          "Force the missing tool families and evidence required for \"" ∷ step.title
          ∷ "\" before another attempt." ∷ []);
      capability = coverage_capability missing step;
      stage = Stage.execution;
      assignee = "repair-agent";
    }
    ∷ []
class_blueprints step missing FailureClass.tooling =
    record {
      title = template ("Stabilize tooling for " ∷ step.title ∷ []);
      description = template (
          "Inspect tool failures, reduce scope, and produce a clean execution path for \""
          ∷ step.title ∷ "\"." ∷ []);
      capability =
          if step.capability == Capability.software_development
            || step.capability == Capability.filesystem
          then Capability.terminal
          else step.capability;
      stage = Stage.analysis;
      assignee = "repair-agent";
    }
    ∷ []
class_blueprints step missing FailureClass.verification =
    record {
      title = template ("Verify and explain " ∷ step.title ∷ []);
      description = template (
          "Run an explicit verification pass with stronger evidence requirements for \""
          ∷ step.title ∷ "\"." ∷ []);
      capability = Capability.reasoning;
      stage = Stage.verification;
      assignee = "verifier-agent";
    }
    ∷ []
class_blueprints step missing FailureClass.policy =
    record {
      title = template ("Collect policy evidence for " ∷ step.title ∷ []);
      description = template (
          "Produce explicit policy or approval evidence before \"" ∷ step.title
          ∷ "\" can continue safely." ∷ []);
      capability = Capability.security;
      stage = Stage.analysis;
      assignee = "safety-agent";
    }
    ∷ []
class_blueprints step missing FailureClass.runtime =
    record {
      title = template ("Repair runtime context for " ∷ step.title ∷ []);
      description = template (
          "Refresh context, reduce ambiguity, and prepare a narrower retry for \"" ∷ step.title
          ∷ "\"." ∷ []);
      capability = Capability.memory;
      stage = Stage.analysis;
      assignee = "repair-agent";
    }
    ∷ []
class_blueprints step missing FailureClass.none = []

unfoldable pub escalation_blueprint : MissionStep → RemediationBlueprint
escalation_blueprint step = record {
  title = template ("Escalate review for " ∷ step.title ∷ []);
  description = template (
      "Route \"" ∷ step.title
      ∷ "\" through a stronger specialist review before retrying the original task." ∷ []);
  capability =
      if step.capability == Capability.security
      then Capability.security
      else Capability.orchestration;
  stage = Stage.analysis;
  assignee = "escalation-agent";
}

unfoldable pub fallback_blueprint : MissionStep → RemediationBlueprint
fallback_blueprint step = record {
  title = template ("Repair path for " ∷ step.title ∷ []);
  description = template (
      "Generate a narrower recovery path for \"" ∷ step.title
      ∷ "\" because the current execution did not meet the quality bar." ∷ []);
  capability = step.capability;
  stage = Stage.analysis;
  assignee = "repair-agent";
}

-- What the diagnostics add: nothing, where there are none.
unfoldable pub diagnosed_blueprints :
    MissionStep → List ToolKind → Option StepExecutionDiagnostics → List RemediationBlueprint
unfolding class_blueprints escalation_blueprint
diagnosed_blueprints step missing none = []
diagnosed_blueprints step missing (some d) =
    class_blueprints step missing d.failure_class
    ++ (if d.escalation_required then escalation_blueprint step ∷ [] else [])

abbrev pub or_fallback : MissionStep → List RemediationBlueprint → List RemediationBlueprint
or_fallback step [] = fallback_blueprint step ∷ []
or_fallback step (b ∷ bs) = b ∷ bs

unfoldable pub remediation_blueprints :
    JsText → MissionStep → Option StepExecutionDiagnostics → String → List RemediationBlueprint
unfolding parse_missing_kinds evidence_blueprint diagnosed_blueprints blueprint_beq
remediation_blueprints js step diagnostics error_message =
    let missing = parse_missing_kinds js diagnostics in
    let blueprints =
      map (evidence_blueprint js step error_message) missing
      ++ diagnosed_blueprints step missing diagnostics in
    unique (or_fallback step blueprints)
