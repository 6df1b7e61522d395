-- ===== src/Lifecycle.antt =====
-- services/agent-orchestrator/src/index.ts and mission-state/store.ts, with validateMissionPlan of
-- packages/validators/src/index.ts: what the orchestrator does to the record of one mission. Every
-- operation reads the mission first, and throws without a change where there is none: the store
-- holds a mission that is there.
mod Store
mod Planning
mod Running
pub mod Coherence
pub mod PlanningSteps
pub mod Reaching
pub mod Endings
pub mod Approvals
pub mod Holding
pub mod Planned
pub use Store.{
  MissionStateStore, Outcome, store_of, and_then, replace_all, approval_of, with_transition,
  returned, threw,
}
unfoldable pub use Store.{
  save, get, append_transition, update_result, save_approval, approved, replace_first,
  approve_found, approve_if_found, approve, create_transition, transition_mission,
  set_mission_status,
}
pub use Planning.{
  PlanningHost, assigned_step, tenant_or, plan_artifact, planned_status, planned_reason,
  plan_validated, is_pending, has_pending,
}
unfoldable pub use Planning.{
  validate_mission_plan, assign, create_mission, create_approval, approvals_for, planned_record,
  plan_accepted, process_planning_job, plan_mission, release_approved, after_approve,
  approve_mission,
}
pub use Running.{Execution, ExecutionHost, needs_plan, finished, raised}
unfoldable pub use Running.{
  complete, fail_mission, after_remember, after_validate, after_execute, process_execution_job,
  run_planned, run_mission,
}
