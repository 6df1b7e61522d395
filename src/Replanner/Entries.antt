-- ===== src/Replanner/Entries.antt =====
-- services/agent-orchestrator/src/executor/adaptive-replanner.ts: what `apply` writes into the
-- decision log, its patch, and the plan that it patches.
use jean_bot.Common.{
  ℕ, ◌+◌, ◌*◌, String, Bool, false, ◌||◌, Option, none, some, List, [], ◌∷◌, ◌++◌, map,
  if◌then◌else◌, ◌==◌, string_eq, unique, filter, length, template, join, summarize_text, JsText,
}
use jean_bot.Common.Decimal.{decimal}
use jean_bot.Types.{
  Capability, Stage, FailureClass, Severity, Category, Arithmetic, Double, MissionStep, MissionPlan,
  MissionRecord, StepExecutionDiagnostics, MetaValue, MissionDecisionLogEntry, MissionReplanPatch,
  Stamps, capability_eq,
}
use jean_bot.Replanner.Plan.{
  StepExecutionFailureContext, AdaptiveReplanResult, is_stage, step_replan_count,
  mission_replan_count, decision_entry,
}

abbrev pub escalates : Option StepExecutionDiagnostics → Bool
escalates none = false
escalates (some d) = d.escalation_required

abbrev actions_of : Option StepExecutionDiagnostics → List String
actions_of none = []
actions_of (some d) = d.recommended_actions

abbrev or_text : String → String → String
or_text text other = if text == "" then other else text

abbrev class_of : Option StepExecutionDiagnostics → FailureClass
class_of none = FailureClass.runtime
class_of (some d) = d.failure_class

abbrev score_of : Arithmetic → Option StepExecutionDiagnostics → Double
score_of num none = num.of_nat 0
score_of num (some d) = d.overall_score

abbrev inspect_actions : Option StepExecutionDiagnostics → List String
inspect_actions none = "Inspect the failing step before continuing." ∷ []
inspect_actions (some d) = d.recommended_actions

-- The plan that stands in the answer where the mission has none.
abbrev pub no_plan : MissionRecord → String → MissionPlan
no_plan mission now = record {
  id = template ("plan-" ∷ mission.objective.id ∷ []);
  mission_id = mission.objective.id;
  version = none;
  summary = "No plan available.";
  steps = [];
  estimated_duration_minutes = 0;
  estimated_cost_cents = 0;
  checkpoints = [];
  alternatives = [];
  generated_at = now;
}

module _ (js : JsText) (num : Arithmetic) (stamps : Stamps) (mission : MissionRecord)
    (failure : StepExecutionFailureContext) where
  open failure use {step, attempts, error_message, diagnostics}

  unfoldable pub apply_severity : Severity
  apply_severity =
      if escalates diagnostics || is_stage Stage.verification step.stage
      then Severity.critical
      else Severity.warning

  unfoldable pub assessment_entry : MissionDecisionLogEntry
  unfolding decision_entry apply_severity decimal
  assessment_entry =
      decision_entry mission failure Category.assessment apply_severity
        (template (
          "Step \""
          ∷ step.title
          ∷ "\" failed its quality gate after "
          ∷ decimal attempts
          ∷ " attempt(s)."
          ∷ []))
        (summarize_text js (or_text (join " " (actions_of diagnostics)) error_message) 240)
        (inspect_actions diagnostics)
        (("attempts", MetaValue.count attempts)
          ∷ ("failureClass", MetaValue.word (class_of diagnostics))
          ∷ ("overallScore", MetaValue.score (score_of num diagnostics))
          ∷ [])
        (stamps.uuid 0) (stamps.iso 0)

  -- The plan stays, and the log says why.
  abbrev pub refused : MissionPlan → MissionDecisionLogEntry → AdaptiveReplanResult
  refused plan entry = record {
    patched = false;
    plan = plan;
    remediation_steps = [];
    decision_entries = assessment_entry ∷ entry ∷ [];
    replan_patch = none;
  }

  unfoldable pub exhausted_entry : MissionDecisionLogEntry
  unfolding decision_entry mission_replan_count step_replan_count
  exhausted_entry =
      decision_entry mission failure Category.failure Severity.critical
        (template ("Replan budget exhausted for \"" ∷ step.title ∷ "\"." ∷ []))
        "The step exceeded the allowed number of repair attempts or is in a non-repairable stage."
        ("Escalate to manual review or narrow the mission scope." ∷ [])
        (("missionReplans", MetaValue.count (mission_replan_count mission))
          ∷ ("stepReplans", MetaValue.count (step_replan_count mission step.id))
          ∷ [])
        (stamps.uuid 1) (stamps.iso 1)

  unfoldable pub missing_entry : MissionDecisionLogEntry
  unfolding decision_entry
  missing_entry =
      decision_entry mission failure Category.failure Severity.critical
        (template ("Failed step \"" ∷ step.id ∷ "\" could not be found in the active plan." ∷ []))
        "The plan changed while the executor was attempting to patch it."
        ("Reload mission state before retrying the replan." ∷ []) [] (stamps.uuid 1) (stamps.iso 1)

  unfoldable pub unplanned_entry : MissionDecisionLogEntry
  unfolding decision_entry
  unplanned_entry =
      decision_entry mission failure Category.failure Severity.critical
        (template (
          "Mission \"" ∷ mission.objective.title ∷ "\" cannot be replanned because no plan exists."
          ∷ []))
        "The executor raised a failure before a plan could be mutated."
        ("Re-run planning before execution." ∷ []) [] (stamps.uuid 0) (stamps.iso 1)

  unfoldable pub replan_patch_of : ℕ → List MissionStep → MissionReplanPatch
  unfolding decimal
  replan_patch_of next_version remediation = record {
    id = stamps.uuid 1;
    mission_id = mission.objective.id;
    plan_version = next_version;
    triggered_by_step_id = step.id;
    summary = template (
        "Inserted "
        ∷ decimal (length remediation)
        ∷ " remediation step(s) before retrying \""
        ∷ step.title
        ∷ "\"."
        ∷ []);
    reason = error_message;
    inserted_step_ids = map (λ s. s.id) remediation;
    deferred_step_ids = step.id ∷ [];
    created_at = stamps.iso 2;
  }

  unfoldable pub replan_entry : ℕ → List MissionStep → MissionDecisionLogEntry
  unfolding decision_entry apply_severity replan_patch_of decimal
  replan_entry next_version remediation =
      let patch = replan_patch_of next_version remediation in
      decision_entry mission failure Category.replan apply_severity
        (template (
          "Adaptive replan v"
          ∷ decimal next_version
          ∷ " inserted repair work before \""
          ∷ step.title
          ∷ "\"."
          ∷ []))
        (summarize_text js patch.summary 220) (map (λ s. s.title) remediation)
        (("insertedStepIds", MetaValue.texts patch.inserted_step_ids)
          ∷ ("planVersion", MetaValue.count next_version)
          ∷ [])
        (stamps.uuid 2) (stamps.iso 3)

  unfoldable pub escalation_entry : MissionDecisionLogEntry
  unfolding decision_entry
  escalation_entry =
      decision_entry mission failure Category.escalation Severity.critical
        (template ("Escalation required for \"" ∷ step.title ∷ "\"." ∷ []))
        "The diagnostics show the step is too weak for its risk class without a stronger review path."
        ("Route the retry through the escalation step before accepting the result." ∷ [])
        (("failureClass", MetaValue.word (class_of diagnostics))
          ∷ ("overallScore", MetaValue.score (score_of num diagnostics))
          ∷ [])
        (stamps.uuid 3) (stamps.iso 4)

  -- The plan with its steps spliced and its version, summary, estimates and lists brought up.
  unfoldable pub patched_plan : MissionPlan → ℕ → List MissionStep → List MissionStep → MissionPlan
  unfolding decimal
  patched_plan plan next_version remediation steps = record plan {
    version = some next_version;
    steps = steps;
    summary = template (
        plan.summary ∷ " Replanned around \"" ∷ step.title
        ∷ "\" after execution diagnostics exposed gaps." ∷ []);
    estimated_duration_minutes = plan.estimated_duration_minutes + length remediation * 5;
    alternatives = unique (
        plan.alternatives
        ++ template (
            "Adaptive replan inserted "
            ∷ decimal (length remediation)
            ∷ " remediation step(s) for \""
            ∷ step.title
            ∷ "\"."
            ∷ [])
          ∷ []);
    checkpoints = unique (
        plan.checkpoints
        ++ map (λ s. s.id)
            (filter
              (λ s. s.capability == Capability.filesystem || s.capability == Capability.security)
              remediation));
    generated_at = stamps.iso 1;
  }
