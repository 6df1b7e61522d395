-- ===== src/Lifecycle/Planning.antt =====
-- Creating, planning and approving a mission.
use jean_bot.Common.{
  ℕ, ◌+◌, ◌-◌, String, Bool, not, ◌&&◌, Option, none, some, List, [], ◌∷◌, ◌++◌, map, if◌then◌else◌,
  ◌==◌, string_eq, length, any, all, includes, or_default, template, JsText,
}
use jean_bot.Common.Decimal.{decimal}
use jean_bot.Types.{
  MissionStatus, ApprovalStatus, ArtifactKind, MetaValue, ApprovalRecord, MissionRecord,
  MissionObjective, MissionPlan, MissionStep, MissionArtifact, PolicyDecision, Stamps,
  risk_level_name, approval_status_eq, mission_status_eq,
}
use jean_bot.Steps.{ids}
use jean_bot.Scheduler.{SubAgentTemplate}
use jean_bot.Policy.{evaluate_mission}
use jean_bot.Planner.{create_plan}
use jean_bot.ModelRouter.{ProviderEnvironment}
use jean_bot.SubAgents.{spawn_for_plan, assign_step}
use jean_bot.Lifecycle.Store.{
  MissionStateStore, Outcome, returned, threw, save, get, append_transition, save_approval, approve,
  create_transition, with_transition, transition_mission,
}

-- What the orchestrator asks of its host when it plans: the strings, the environment, the order
-- of names of `localeCompare`, and whether `missionPlanSchema.parse` accepts a plan.
pub record PlanningHost : Type 0 where
  pub js : JsText
  pub env : ProviderEnvironment
  pub name_before : String → String → Bool
  pub schema_accepts : MissionPlan → Bool

-- `validateMissionPlan`: the plan, or `none` where it throws.
unfoldable pub validate_mission_plan : (MissionPlan → Bool) → MissionPlan → Option MissionPlan
validate_mission_plan schema_accepts plan =
    if schema_accepts plan
      && all (λ step. all (λ d. includes (ids plan.steps) d) step.depends_on) plan.steps
    then some plan
    else none

abbrev pub assigned_step : MissionStep → MissionStep
assigned_step step = record step { assignee = assign_step step }

-- `MissionDispatcher.assign`.
unfoldable pub assign : PlanningHost → MissionPlan → MissionPlan × List SubAgentTemplate
unfolding spawn_for_plan
assign host plan = (
  record plan { steps = map assigned_step plan.steps },
  spawn_for_plan host.env host.name_before plan,
)

abbrev pub tenant_or : Option String → Option String → Option String
tenant_or none own = own
tenant_or (some tenant) own = some tenant

-- `createMission`, on an objective that `validateMissionInput` returned; `tenant` is that of the
-- request's authentication.
unfoldable pub create_mission : Stamps → MissionObjective → Option String → MissionStateStore
create_mission stamps objective tenant =
    let mission : MissionRecord = record {
      objective = record objective { tenant_id = tenant_or tenant objective.tenant_id };
      plan = none;
      result = none;
      active_execution = none;
      status = MissionStatus.draft;
      artifacts = none;
      approvals = none;
      plan_version = some 0;
      replan_count = some 0;
      decision_log = none;
      replan_history = none;
      transitions = some [];
      last_updated_at = stamps.iso 0;
    } in
    record { cached = mission; persisted = mission; log = [] }

unfoldable pub create_approval : Stamps → MissionRecord → String → List String → ApprovalRecord
create_approval stamps mission reason required_actions = record {
  id = stamps.uuid 2;
  mission_id = mission.objective.id;
  tenant_id = mission.objective.tenant_id;
  workspace_id = mission.objective.workspace_id;
  status = ApprovalStatus.pending;
  reason = reason;
  required_actions = required_actions;
  created_at = stamps.iso 2;
  updated_at = stamps.iso 3;
  approved_by = none;
}

abbrev pub plan_artifact : Stamps → MissionPlan → ℕ → PolicyDecision → MissionArtifact
plan_artifact stamps plan version decision = record {
  id = stamps.uuid 1;
  kind = ArtifactKind.plan;
  title = template ("Mission plan v" ∷ decimal version ∷ []);
  path = template ("memory://plans/" ∷ plan.id ∷ "/v" ∷ decimal version ∷ []);
  created_at = stamps.iso 1;
  metadata =
      ("steps", MetaValue.count (length plan.steps))
      ∷ ("risk", MetaValue.text (risk_level_name decision.risk))
      ∷ [];
}

abbrev pub planned_status : PolicyDecision → MissionStatus
planned_status decision =
    if decision.approval_required then MissionStatus.awaiting_approval else MissionStatus.planned

abbrev pub planned_reason : PolicyDecision → String
planned_reason decision =
    if decision.approval_required
    then "Plan created and approval is required."
    else "Plan created successfully."

-- The store with the approval that the decision asks for, and the approvals of the record.
unfoldable pub approvals_for :
    Stamps → PolicyDecision → MissionStateStore → MissionStateStore × List ApprovalRecord
unfolding create_approval save_approval
approvals_for stamps decision store =
    let mission = store.persisted in
    let approvals = or_default mission.approvals [] in
    let approval = create_approval stamps mission decision.reason decision.blocked_actions in
    if decision.approval_required
    then (save_approval approval store, approvals ++ approval ∷ [])
    else (store, approvals)

-- The record that planning saves, without the transition.
unfoldable pub planned_record :
    Stamps → MissionPlan → ℕ → PolicyDecision → List ApprovalRecord → MissionRecord → MissionRecord
planned_record stamps plan version decision approvals mission = record mission {
  plan = some plan;
  approvals = some approvals;
  artifacts =
      some (or_default mission.artifacts [] ++ plan_artifact stamps plan version decision ∷ []);
  status = planned_status decision;
  plan_version = some version;
  replan_count = some (version - 1);
  last_updated_at = stamps.iso 4;
}

-- `processPlanningJob` behind `validateMissionPlan`.
unfoldable pub plan_accepted :
    PlanningHost → Stamps → PolicyDecision → MissionPlan → MissionStateStore → MissionStateStore
unfolding assign approvals_for planned_record create_transition save append_transition
plan_accepted host stamps decision plan store =
    let mission = store.persisted in
    let version = or_default mission.plan_version 0 + 1 in
    let assigned = assign host (record plan { version = some version }) in
    let asked = approvals_for stamps decision store in
    let updated = planned_record stamps assigned.0 version decision asked.1 mission in
    let transition =
      create_transition stamps mission.objective.id MissionStatus.queued_for_planning
        (planned_status decision) (planned_reason decision) "agent-orchestrator" in
    append_transition transition (save (with_transition transition updated) (save updated asked.0))

abbrev pub plan_validated :
    PlanningHost → Stamps → PolicyDecision → Option MissionPlan → MissionStateStore → Outcome
plan_validated host stamps decision none store = threw store
plan_validated host stamps decision (some plan) store =
    returned (plan_accepted host stamps decision plan store)

unfoldable pub process_planning_job : PlanningHost → Stamps → MissionStateStore → Outcome
unfolding get validate_mission_plan
process_planning_job host stamps store =
    let mission = store.persisted in
    let decision = evaluate_mission host.js mission.objective in
    plan_validated host stamps decision
      (validate_mission_plan host.schema_accepts
        (create_plan host.js (stamps.iso 0) mission.objective decision))
      (get store)

-- `planMission`; with a queue in redis, a worker runs the planning job later. Each call takes
-- stamps of its own.
unfoldable pub plan_mission : PlanningHost → (ℕ → Stamps) → Bool → MissionStateStore → Outcome
unfolding transition_mission process_planning_job
plan_mission host stamps is_local store =
    let queued =
      transition_mission (stamps 0) MissionStatus.queued_for_planning "Mission queued for planning."
        "agent-orchestrator" store in
    if is_local then process_planning_job host (stamps 1) queued else returned queued

abbrev pub is_pending : ApprovalRecord → Bool
is_pending approval = approval.status == ApprovalStatus.pending

abbrev pub has_pending : MissionRecord → Bool
has_pending mission = any is_pending (or_default mission.approvals [])

unfoldable pub release_approved : Stamps → String → MissionStateStore → MissionStateStore
unfolding transition_mission get
release_approved stamps approver_id store =
    if not (has_pending store.persisted)
      && store.persisted.status == MissionStatus.awaiting_approval
    then transition_mission stamps MissionStatus.planned "All required approvals have been granted."
        approver_id store
    else get store

unfoldable pub after_approve :
    Stamps → String → MissionStateStore → Option MissionStateStore → Outcome
unfolding release_approved
after_approve stamps approver_id store none = threw store
after_approve stamps approver_id store (some changed) =
    returned (release_approved stamps approver_id changed)

unfoldable pub approve_mission : (ℕ → Stamps) → String → String → MissionStateStore → Outcome
unfolding approve after_approve
approve_mission stamps approval_id approver_id store =
    after_approve (stamps 1) approver_id store (approve (stamps 0) approval_id approver_id store)
