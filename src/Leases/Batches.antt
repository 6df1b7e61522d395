-- ===== src/Leases/Batches.antt =====
-- Queueing a batch of steps, and the reconciliation of its leases.
use jean_bot.Common.{
  ℕ, ◌+◌, ◌-◌, String, Bool, true, false, not, Option, none, some, List, [], ◌∷◌, ◌++◌, map,
  if◌then◌else◌, leb, ◌==◌, string_eq, find, includes, or_default, template,
}
use jean_bot.Common.Decimal.{decimal}
use jean_bot.Types.{
  StepStatus, LeaseStatus, StepExecutionLeaseRecord, WorkerEventKind, MissionStep, MetaValue,
  Stamps, capability_name,
}
use jean_bot.SubAgents.{add_id, drop_id}
use jean_bot.Leases.Records.{
  ExecutionContext, StepExecutionJob, RunState, max_attempts, queue_timeout_ms, active_timeout_ms,
  create_active_execution, create_step_execution_job, create_lease, create_worker_event, lease_of,
  replace_lease, finished_lease, update_leases, set_step_status, without_failure, push_event,
  lease_status_name,
}

-- `startDistributedExecution`.
unfoldable pub start_distributed_execution :
    Stamps → String → ExecutionContext → List MissionStep → RunState
unfolding create_active_execution create_worker_event
start_distributed_execution stamps mission_id context steps = record {
  execution =
      push_event
        (create_worker_event stamps mission_id WorkerEventKind.mission_enqueued
          "Mission execution entered distributed worker mode."
          (("workspaceRoot", MetaValue.text context.workspace_root)
            ∷ ("sessionId", MetaValue.text context.session_id)
            ∷ [])
          none none)
        (create_active_execution stamps context);
  steps = steps;
}

-- The step runs, is queued and has a lease of its own.
unfoldable pub lease_step : StepExecutionLeaseRecord → RunState → RunState
unfolding replace_lease set_step_status
lease_step lease s = record {
  execution = record s.execution {
    queued_step_ids = add_id lease.step_id s.execution.queued_step_ids;
    step_leases = replace_lease lease s.execution.step_leases;
  };
  steps = set_step_status lease.step_id StepStatus.running s.steps;
}

abbrev pub tell :
    Stamps
    → String
    → WorkerEventKind
    → String
    → List (String × MetaValue)
    → Option String
    → Option String
    → RunState
    → RunState
tell stamps mission_id kind message metadata step_id job_id s = record s {
  execution =
      push_event (create_worker_event stamps mission_id kind message metadata step_id job_id)
        s.execution;
}

abbrev pub lease_for : Stamps → StepExecutionJob → StepExecutionLeaseRecord
lease_for stamps job =
    create_lease stamps job.mission_id job.step_id job.id job.attempt job.lease_id

-- One step of `queueDistributedBatch`.
unfoldable pub queue_step : Stamps → String → String → MissionStep → RunState → RunState
unfolding create_step_execution_job create_lease lease_step create_worker_event
queue_step stamps mission_id workspace_root step s =
    let job = create_step_execution_job stamps mission_id step.id workspace_root 1 in
    tell stamps mission_id WorkerEventKind.step_enqueued
      (template ("Queued distributed execution for step \"" ∷ step.title ∷ "\"." ∷ []))
      (("stepTitle", MetaValue.text step.title)
        ∷ ("capability", MetaValue.text (capability_name step.capability))
        ∷ [])
      (some step.id) (some job.id) (lease_step (lease_for stamps job) s)

-- `queueDistributedBatch`; each step has stamps of its own.
unfoldable pub queue_distributed_batch :
    (MissionStep → Stamps) → String → String → List MissionStep → RunState → RunState
unfolding queue_step
queue_distributed_batch stamps mission_id workspace_root [] s = s
queue_distributed_batch stamps mission_id workspace_root (step ∷ batch) s =
    queue_distributed_batch stamps mission_id workspace_root batch
      (queue_step (stamps step) mission_id workspace_root step s)

abbrev pub is_active : StepExecutionLeaseRecord → Bool
is_active lease = elim lease.status [ LeaseStatus.active ↦ true | _ ↦ false ]

-- `isLeaseStale`; `time_of` reads an ISO time in milliseconds.
unfoldable pub is_lease_stale : (String → ℕ) → ℕ → StepExecutionLeaseRecord → Bool
is_lease_stale time_of now lease =
    let reference =
      if is_active lease then or_default lease.started_at lease.queued_at else lease.queued_at in
    let threshold = if is_active lease then active_timeout_ms else queue_timeout_ms in
    leb threshold (now - time_of reference)

abbrev pub timeout_reason : StepExecutionLeaseRecord → String
timeout_reason lease = if is_active lease then "active-timeout" else "queue-timeout"

-- What the reconciliation reads of the host.
pub record Reconciliation : Type 0 where
  pub mission_id : String
  pub workspace_root : String
  pub time_of : String → ℕ
  pub now : ℕ
  pub now_iso : String
  pub stamps : String → Stamps

-- A step without a lease gets one, and a job.
unfoldable pub lease_missing : Reconciliation → MissionStep → RunState → RunState
unfolding create_step_execution_job create_lease lease_step create_worker_event
lease_missing r step s =
    let stamps = r.stamps step.id in
    let job = create_step_execution_job stamps r.mission_id step.id r.workspace_root 1 in
    tell stamps r.mission_id WorkerEventKind.step_requeued
      (template
        ("Requeued distributed step \"" ∷ step.title ∷ "\" because its lease was missing." ∷ []))
      (("reason", MetaValue.text "lease-missing")
        ∷ ("nextAttempt", MetaValue.count job.attempt)
        ∷ [])
      (some step.id) (some job.id) (lease_step (lease_for stamps job) s)

abbrev pub expiry_message : StepExecutionLeaseRecord → String
expiry_message lease = template (
    "Distributed step lease expired after "
    ∷ decimal lease.attempt
    ∷ " attempts ("
    ∷ timeout_reason lease
    ∷ ")."
    ∷ [])

-- A stale lease at the last attempt: the step fails.
unfoldable pub exhaust_lease :
    Reconciliation → MissionStep → StepExecutionLeaseRecord → RunState → RunState
unfolding set_step_status update_leases create_worker_event
exhaust_lease r step lease s =
    tell (r.stamps step.id) r.mission_id WorkerEventKind.step_failed
      (template ("Distributed step \"" ∷ step.title ∷ "\" exhausted lease retries." ∷ []))
      (("reason", MetaValue.text (timeout_reason lease))
        ∷ ("attempts", MetaValue.count lease.attempt)
        ∷ [])
      (some step.id) (some lease.job_id)
      (record {
        execution = record s.execution {
          queued_step_ids = drop_id step.id s.execution.queued_step_ids;
          failed_steps =
              without_failure step.id s.execution.failed_steps
              ++ record {
                step_id = step.id;
                attempts = lease.attempt;
                error_message = expiry_message lease;
                diagnostics = none;
                created_at = r.now_iso;
              }
                ∷ [];
          step_leases =
              update_leases step.id
                (λ l.
                  finished_lease LeaseStatus.failed l.worker_id r.now_iso
                    (some (expiry_message lease)) l)
                s.execution.step_leases;
        };
        steps = set_step_status step.id StepStatus.failed s.steps;
      })

-- A stale lease before the last attempt: the next attempt gets a lease and a job.
unfoldable pub renew_lease :
    Reconciliation → MissionStep → StepExecutionLeaseRecord → RunState → RunState
unfolding create_step_execution_job create_lease lease_step create_worker_event
renew_lease r step lease s =
    let stamps = r.stamps step.id in
    let job =
      create_step_execution_job stamps r.mission_id step.id r.workspace_root (lease.attempt + 1) in
    let leased =
      lease_step (create_lease stamps r.mission_id step.id job.id (lease.attempt + 1) job.lease_id)
        s in
    tell stamps r.mission_id WorkerEventKind.step_requeued
      (template
        ("Requeued distributed step \"" ∷ step.title ∷ "\" after stale lease detection." ∷ []))
      (("reason", MetaValue.text (timeout_reason lease))
        ∷ ("previousLeaseId", MetaValue.text lease.id)
        ∷ ("previousStatus", MetaValue.text (lease_status_name lease.status))
        ∷ ("previousAttempt", MetaValue.count lease.attempt)
        ∷ ("nextAttempt", MetaValue.count (lease.attempt + 1))
        ∷ [])
      (some step.id) (some job.id)
      (record leased {
        execution = record leased.execution {
          failed_steps = without_failure step.id leased.execution.failed_steps;
        };
      })

unfoldable pub reconcile_lease :
    Reconciliation → MissionStep → Option StepExecutionLeaseRecord → RunState → RunState
unfolding lease_missing exhaust_lease renew_lease is_lease_stale
reconcile_lease r step none s = lease_missing r step s
reconcile_lease r step (some lease) s =
    if not (is_lease_stale r.time_of r.now lease)
    then s
    else if leb max_attempts lease.attempt
    then exhaust_lease r step lease s
    else renew_lease r step lease s

unfoldable pub reconcile_step : Reconciliation → Option MissionStep → RunState → RunState
unfolding reconcile_lease
reconcile_step r none s = s
reconcile_step r (some step) s = reconcile_lease r step (lease_of step.id s.execution.step_leases) s

-- The loop of `reconcileDistributedBatchLeases`; `settled` are the steps that were completed or
-- failed before it.
unfoldable pub reconcile_steps : Reconciliation → List String → List String → RunState → RunState
unfolding reconcile_step
reconcile_steps r settled [] s = s
reconcile_steps r settled (id ∷ ids) s =
    reconcile_steps r settled ids
      (if includes settled id then s else reconcile_step r (find (λ step. step.id == id) s.steps) s)

unfoldable pub reconcile_distributed_batch_leases :
    Reconciliation → List String → RunState → RunState
unfolding reconcile_steps
reconcile_distributed_batch_leases r ids s =
    reconcile_steps r
      (s.execution.completed_step_ids ++ map (λ f. f.step_id) s.execution.failed_steps) ids s
