-- ===== src/Leases/Reaching.antt =====
-- What the orchestrator and the workers make of the leases of a run.
use jean_bot.Common.{
  ◌≤◌, String, not, ◌&&◌, ◌≡◌, refl, Option, none, some, List, ◌==◌, string_eq, includes, if-cases,
  arith,
}
use jean_bot.Types.{
  StepExecutionLeaseRecord, MissionExecutionState, MissionStatus, MissionStep, Stamps,
  mission_status_eq,
}
use jean_bot.Executor.{StepOutcome, StepEnd, fulfilled, broke}
use jean_bot.Leases.Records.{
  ExecutionContext, StepExecutionJob, RunState, create_active_execution, create_lease, lease_of,
}
use jean_bot.Leases.Batches.{
  start_distributed_execution, queue_distributed_batch, Reconciliation,
  reconcile_distributed_batch_leases,
}
use jean_bot.Leases.Workers.{
  ensure_lease, ensure_step_lease, start_step, record_outcome, finalize_step_success,
  finalize_step_failure, settle_step, ignore_job, take_job, process_step_execution_job,
}
use jean_bot.Leases.Attempts.{AreLeased, update_leases-AreLeased}
use jean_bot.Leases.Queueing.{
  leases_of, queue_distributed_batch-AreLeased, reconcile_steps-AreLeased, append-AreLeased,
}

ensure_lease-AreLeased :
    (stamps : Stamps) (job : StepExecutionJob) (o : Option StepExecutionLeaseRecord)
    (e : MissionExecutionState)
    → job.attempt ≤ 3
    → lease_of job.step_id e.step_leases ≡ o
    → AreLeased e.step_leases
    → AreLeased (ensure_lease stamps job o e).step_leases
unfolding ensure_lease create_lease
ensure_lease-AreLeased stamps job (some lease) e few there h = h
ensure_lease-AreLeased stamps job none e few missing h =
    append-AreLeased _ e.step_leases missing (ground arith, ground (arith, few)) h

start_step-AreLeased :
    (stamps : Stamps) (worker_id : String) (job : StepExecutionJob) (s : RunState)
    → job.attempt ≤ 3
    → AreLeased (leases_of s)
    → AreLeased (leases_of (start_step stamps worker_id job s))
unfolding start_step ensure_step_lease
start_step-AreLeased stamps worker_id job s few h =
    update_leases-AreLeased job.step_id _ (λ l. refl) (λ l. refl) _
      (ensure_lease-AreLeased stamps job (lease_of job.step_id (leases_of s)) s.execution few refl
        h)

take_job-AreLeased :
    (stamps : Stamps) (worker_id : String) (job : StepExecutionJob)
    (o : Option StepExecutionLeaseRecord) (s : RunState)
    → job.attempt ≤ 3
    → AreLeased (leases_of s)
    → AreLeased (leases_of (take_job stamps worker_id job o s))
unfolding take_job ignore_job
take_job-AreLeased stamps worker_id job none s few h =
    start_step-AreLeased stamps worker_id job s few h
take_job-AreLeased stamps worker_id job (some lease) s few h =
    if-cases (λ t. AreLeased (leases_of t))
      (not (job.lease_id == "") && not (lease.id == job.lease_id)) (λ stale. h)
      (λ current. start_step-AreLeased stamps worker_id job s few h)

process_step_execution_job-AreLeased :
    (stamps : Stamps) (worker_id : String) (status : MissionStatus) (job : StepExecutionJob)
    (s : RunState)
    → job.attempt ≤ 3
    → AreLeased (leases_of s)
    → AreLeased (leases_of (process_step_execution_job stamps worker_id status job s))
unfolding process_step_execution_job
process_step_execution_job-AreLeased stamps worker_id status job s few h =
    if-cases (λ t. AreLeased (leases_of t)) (not (status == MissionStatus.running)) (λ idle. h)
      (λ runs.
        if-cases (λ t. AreLeased (leases_of t))
          (includes s.execution.completed_step_ids job.step_id) (λ old. h)
          (λ open_step.
            take_job-AreLeased stamps worker_id job (lease_of job.step_id (leases_of s)) s few h))

settle_step-AreLeased :
    (stamps : Stamps) (output_text : StepOutcome → String) (worker_id : String)
    (job : StepExecutionJob) (e : StepEnd) (s : RunState)
    → AreLeased (leases_of s)
    → AreLeased (leases_of (settle_step stamps output_text worker_id job e s))
unfolding settle_step record_outcome finalize_step_success finalize_step_failure
settle_step-AreLeased stamps output_text worker_id job (fulfilled outcome) s h =
    update_leases-AreLeased job.step_id _ (λ l. refl) (λ l. refl) (leases_of s) h
settle_step-AreLeased stamps output_text worker_id job (broke status thrown) s h =
    update_leases-AreLeased job.step_id _ (λ l. refl) (λ l. refl) (leases_of s) h

-- What the orchestrator and any number of workers make of a run, in whatever order their patches
-- come. A worker settles whatever job it has, also one whose lease was replaced meanwhile.
pub data Reach : RunState → Type 0 where
  started :
      (stamps : Stamps) (mission_id : String) (context : ExecutionContext)
      (steps : List MissionStep)
      → Reach (start_distributed_execution stamps mission_id context steps)
  queued :
      {s : RunState} (stamps : MissionStep → Stamps) (mission_id workspace_root : String)
      (batch : List MissionStep)
      → Reach s
      → Reach (queue_distributed_batch stamps mission_id workspace_root batch s)
  reconciled :
      {s : RunState} (r : Reconciliation) (ids : List String)
      → Reach s
      → Reach (reconcile_distributed_batch_leases r ids s)
  took :
      {s : RunState} (stamps : Stamps) (worker_id : String) (status : MissionStatus)
      (job : StepExecutionJob)
      → job.attempt ≤ 3
      → Reach s
      → Reach (process_step_execution_job stamps worker_id status job s)
  settled :
      {s : RunState} (stamps : Stamps) (output_text : StepOutcome → String) (worker_id : String)
      (job : StepExecutionJob) (e : StepEnd)
      → Reach s
      → Reach (settle_step stamps output_text worker_id job e s)

-- However the patches of the orchestrator and of the workers follow each other, where no worker
-- takes a job of a fourth attempt, each step has at most one lease, and the attempts of the leases
-- are between one and three.
pub Reach-AreLeased : {s : RunState} → Reach s → AreLeased s.execution.step_leases
unfolding start_distributed_execution create_active_execution reconcile_distributed_batch_leases
Reach-AreLeased (started stamps mission_id context steps) = record {
  single = λ id. omega arith;
  budget = tt;
}
Reach-AreLeased (queued {s} stamps mission_id workspace_root batch before) =
    queue_distributed_batch-AreLeased stamps mission_id workspace_root batch s
      (Reach-AreLeased before)
Reach-AreLeased (reconciled {s} r ids before) =
    reconcile_steps-AreLeased r _ ids s (Reach-AreLeased before)
Reach-AreLeased (took {s} stamps worker_id status job few before) =
    process_step_execution_job-AreLeased stamps worker_id status job s few (Reach-AreLeased before)
Reach-AreLeased (settled {s} stamps output_text worker_id job e before) =
    settle_step-AreLeased stamps output_text worker_id job e s (Reach-AreLeased before)
