-- ===== src/Leases.antt =====
-- services/agent-orchestrator/src/index.ts: the leases of the steps that a distributed run hands to
-- workers. Each function is what one `patch` of the store does to the execution state and to the
-- steps of the plan, once there is an execution state. The queue in redis and the waiting are left
-- out.
mod Records
mod Batches
mod Workers
pub mod Attempts
mod Queueing
pub mod Reaching
pub use Records.{
  ExecutionContext, StepExecutionJob, RunState, max_attempts, queue_timeout_ms, active_timeout_ms,
  first_or, lease_of, lease_status_name, finished_lease, active_lease, without_failure, push_event,
}
unfoldable pub use Records.{
  create_active_execution, create_step_execution_job, create_lease, create_worker_event,
  replace_lease, update_leases, set_step_status,
}
pub use Batches.{tell, lease_for, is_active, timeout_reason, Reconciliation, expiry_message}
unfoldable pub use Batches.{
  start_distributed_execution, lease_step, queue_step, queue_distributed_batch, is_lease_stale,
  lease_missing, exhaust_lease, renew_lease, reconcile_lease, reconcile_step, reconcile_steps,
  reconcile_distributed_batch_leases,
}
pub use Workers.{job_id_of, set_output, attempts_of, diagnostics_of, failure_record}
unfoldable pub use Workers.{
  ensure_lease, ensure_step_lease, start_step, record_outcome, finalize_step_success,
  finalize_step_failure, settle_step, ignore_job, take_job, process_step_execution_job,
}
