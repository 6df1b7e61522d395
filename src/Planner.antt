-- ===== src/Planner.antt =====
-- services/agent-orchestrator/src/planner/mission-planner.ts: the plan that a mission starts with.
pub mod Cost
mod Fields
pub mod Order
pub mod Shape
pub mod Coverage
pub mod Start
pub use Fields.{title_for_capability, capability_to_tool_kind}
use jean_bot.Common.{
  ℕ, ◌+◌, ◌*◌, String, Bool, ◌&&◌, ◌||◌, Option, none, some, List, [], ◌∷◌, ◌++◌, map,
  if◌then◌else◌, ltb, ◌==◌, length, filter, includes, unique, template, contains, JsText,
}
use jean_bot.Common.Decimal.{decimal}
use jean_bot.Types.{
  Capability, ToolKind, RiskLevel, StepStatus, Stage, MissionObjective, MissionStep, MissionPlan,
  PolicyDecision, capability_name, capability_eq, risk_level_eq,
}
use Cost.{estimate_plan_cost}

unfoldable pub step_id : String → ℕ → String
unfolding decimal
step_id mission_id index = template (mission_id ∷ "-step-" ∷ decimal index ∷ [])

abbrev pub status_for : List String → StepStatus
status_for [] = StepStatus.ready
status_for (_ ∷ _) = StepStatus.pending

unfoldable pub create_step : String → ℕ → Capability → List String → Stage → MissionStep
unfolding title_for_capability capability_to_tool_kind
create_step mission_id index capability depends_on stage = record {
  id = step_id mission_id index;
  title = title_for_capability capability;
  description = template (
      "JeanBot should execute capability \""
      ∷ capability_name capability
      ∷ "\" for the mission."
      ∷ []);
  capability = capability;
  stage = some stage;
  tool_kind = capability_to_tool_kind capability;
  depends_on = depends_on;
  verification =
      template (
        "Confirm the " ∷ capability_name capability ∷ " work advanced the mission objective." ∷ []);
  assignee = "main-agent";
  status = status_for depends_on;
}

-- The step that the planner writes out before risky work.
unfoldable pub safety_checkpoint : String → ℕ → String → MissionStep
safety_checkpoint mission_id index planning_id = record {
  id = step_id mission_id index;
  title = "Create safety checkpoint";
  description = "Create a checkpoint before risky execution phases.";
  capability = Capability.filesystem;
  stage = some Stage.preflight;
  tool_kind = some ToolKind.filesystem;
  depends_on = planning_id ∷ [];
  verification = "A checkpoint file exists for the mission.";
  assignee = "main-agent";
  status = StepStatus.pending;
}

-- The capabilities that the fixed steps cover already.
abbrev pub is_covered : Capability → Bool
is_covered Capability.filesystem = Bool.true
is_covered Capability.memory = Bool.true
is_covered Capability.planning = Bool.true
is_covered Capability.security = Bool.true
is_covered _ = Bool.false

-- The loop over the capabilities, with `index` as the code's counter.
unfoldable pub execution_steps : String → String → ℕ → List Capability → List MissionStep
unfolding create_step
execution_steps mission_id barrier index [] = []
execution_steps mission_id barrier index (c ∷ cs) =
    let skipped = execution_steps mission_id barrier index cs in
    let taken =
      create_step mission_id index c (barrier ∷ []) Stage.execution
      ∷ execution_steps mission_id barrier (index + 1) cs in
    if is_covered c then skipped else taken

-- The four steps that open every plan.
unfoldable pub opening_steps : String → List MissionStep
unfolding create_step
opening_steps id =
    create_step id 1 Capability.filesystem [] Stage.preflight
    ∷ create_step id 2 Capability.memory (step_id id 1 ∷ []) Stage.preflight
    ∷ create_step id 3 Capability.security (step_id id 2 ∷ []) Stage.analysis
    ∷ create_step id 4 Capability.planning (step_id id 3 ∷ []) Stage.analysis
    ∷ []

unfoldable pub needs_checkpoint : MissionObjective → PolicyDecision → Bool
needs_checkpoint objective decision =
    decision.approval_required
    || objective.risk == RiskLevel.high
    || objective.risk == RiskLevel.critical

-- What the later steps wait for: the execution steps, or the barrier if there is none.
abbrev pub waits_for : String → List String → List String
waits_for barrier [] = barrier ∷ []
waits_for barrier (i ∷ is) = i ∷ is

-- The three steps that close every plan.
unfoldable pub closing_steps : String → ℕ → List String → List MissionStep
unfolding create_step
closing_steps id index awaited =
    create_step id index Capability.orchestration awaited Stage.verification
    ∷ create_step id (index + 1) Capability.reasoning (step_id id index ∷ []) Stage.verification
    ∷ create_step id (index + 2) Capability.writing (step_id id (index + 1) ∷ []) Stage.delivery
    ∷ []

unfoldable pub needs_coordination : List Capability → Bool
needs_coordination caps = ltb 2 (length caps) || includes caps Capability.subagents

-- All that follows the barrier; `index` is the first free number.
unfoldable pub working_steps : String → String → ℕ → List Capability → List MissionStep
unfolding execution_steps closing_steps needs_coordination create_step
working_steps id barrier index caps =
    let work = execution_steps id barrier index caps in
    let ids = map (λ s. s.id) work in
    let next = index + length work in
    let coordination =
      create_step id next Capability.project_management (waits_for barrier ids) Stage.execution in
    let coordinated =
      work ++ (coordination ∷ closing_steps id (next + 1) (ids ++ (coordination.id ∷ []))) in
    let plain = work ++ closing_steps id next (waits_for barrier ids) in
    if needs_coordination caps then coordinated else plain

unfoldable pub plan_steps : MissionObjective → PolicyDecision → List MissionStep
unfolding working_steps opening_steps needs_checkpoint safety_checkpoint
plan_steps objective decision =
    let caps = unique objective.required_capabilities in
    let id = objective.id in
    let careful =
      opening_steps id
      ++ (safety_checkpoint id 5 (step_id id 4) ∷ working_steps id (step_id id 5) 6 caps) in
    let direct = opening_steps id ++ working_steps id (step_id id 4) 5 caps in
    if needs_checkpoint objective decision then careful else direct

-- `MissionPlanner.createPlan`; `now` is the host's clock.
unfoldable pub create_plan : JsText → String → MissionObjective → PolicyDecision → MissionPlan
unfolding plan_steps
create_plan js now objective decision =
    let steps = plan_steps objective decision in
    record {
      id = template ("plan-" ∷ objective.id ∷ []);
      mission_id = objective.id;
      version = none;
      summary = template (
          "JeanBot will preflight the workspace, review risk, decompose the mission, execute the required capabilities, verify the output, and deliver a structured report for \""
          ∷ objective.title ∷ "\"." ∷ []);
      steps = steps;
      estimated_duration_minutes = length steps * 7;
      estimated_cost_cents = estimate_plan_cost steps;
      checkpoints =
          map (λ s. s.id) (filter (λ s. contains (js.to_lower s.title) "checkpoint") steps);
      alternatives =
          "Reduce scope to a backend-only milestone if a capability is blocked."
          ∷ "Escalate approval-gated work instead of attempting unsafe automation."
          ∷ "Swap real integrations for synthetic or local adapters during development." ∷ [];
      generated_at = now;
    }
