-- ===== src/Leases/Records.antt =====
-- The records of a distributed run, and the updates of its lists.
use jean_bot.Common.{
  ℕ, String, not, Option, none, some, List, [], ◌∷◌, ◌++◌, map, if◌then◌else◌, leb, ◌==◌, string_eq,
  filter, find,
}
use jean_bot.Types.{
  StepStatus, ExecutionMode, LeaseStatus, StepExecutionLeaseRecord, WorkerEventKind,
  MissionWorkerEvent, MissionExecutionFailureRecord, MissionExecutionState, MissionStep, MetaValue,
  Stamps,
}

-- What of an `ExecutionContext` goes into the state.
pub record ExecutionContext : Type 0 where
  pub session_id : String
  pub workspace_root : String
  pub execution_mode : ExecutionMode

-- A job of the queue for one step; its `attempts` are one fewer than its `attempt`.
pub record StepExecutionJob : Type 0 where
  pub id : String
  pub mission_id : String
  pub step_id : String
  pub workspace_root : String
  pub lease_id : String
  pub attempt : ℕ
  pub created_at : String

-- The execution state of a mission and the steps of its plan.
pub record RunState : Type 0 where
  pub execution : MissionExecutionState
  pub steps : List MissionStep

abbrev pub max_attempts : ℕ
max_attempts = 3

abbrev pub queue_timeout_ms : ℕ
queue_timeout_ms = 15000

abbrev pub active_timeout_ms : ℕ
active_timeout_ms = 120000

-- `Math.max(1, attempt)`.
abbrev pub first_or : ℕ → ℕ
first_or attempt = if leb 1 attempt then attempt else 1

unfoldable pub create_active_execution : Stamps → ExecutionContext → MissionExecutionState
create_active_execution stamps context = record {
  session_id = context.session_id;
  workspace_root = context.workspace_root;
  execution_mode = context.execution_mode;
  started_at = stamps.iso 0;
  outputs = [];
  memory_updates = [];
  step_reports = [];
  artifacts = [];
  queued_step_ids = [];
  completed_step_ids = [];
  failed_steps = [];
  step_leases = [];
  worker_events = [];
}

unfoldable pub create_step_execution_job : Stamps → String → String → String → ℕ → StepExecutionJob
create_step_execution_job stamps mission_id step_id workspace_root attempt = record {
  id = stamps.uuid 1;
  mission_id = mission_id;
  step_id = step_id;
  workspace_root = workspace_root;
  lease_id = stamps.uuid 0;
  attempt = first_or attempt;
  created_at = stamps.iso 0;
}

unfoldable pub create_lease :
    Stamps → String → String → String → ℕ → String → StepExecutionLeaseRecord
create_lease stamps mission_id step_id job_id attempt lease_id = record {
  id = lease_id;
  mission_id = mission_id;
  step_id = step_id;
  job_id = job_id;
  status = LeaseStatus.queued;
  attempt = attempt;
  queued_at = stamps.iso 1;
  started_at = none;
  finished_at = none;
  worker_id = none;
  error = none;
}

unfoldable pub create_worker_event :
    Stamps
    → String
    → WorkerEventKind
    → String
    → List (String × MetaValue)
    → Option String
    → Option String
    → MissionWorkerEvent
create_worker_event stamps mission_id kind message metadata step_id job_id = record {
  id = stamps.uuid 2;
  mission_id = mission_id;
  step_id = step_id;
  job_id = job_id;
  kind = kind;
  message = message;
  metadata = metadata;
  created_at = stamps.iso 2;
}

-- `leases.find((lease) => lease.stepId === stepId)`.
abbrev pub lease_of : String → List StepExecutionLeaseRecord → Option StepExecutionLeaseRecord
lease_of step_id leases = find (λ l. l.step_id == step_id) leases

-- The leases without those of the step, and the new lease behind them.
unfoldable pub replace_lease :
    StepExecutionLeaseRecord → List StepExecutionLeaseRecord → List StepExecutionLeaseRecord
replace_lease lease leases = filter (λ l. not (l.step_id == lease.step_id)) leases ++ lease ∷ []

abbrev pub lease_status_name : LeaseStatus → String
lease_status_name LeaseStatus.queued = "queued"
lease_status_name LeaseStatus.active = "active"
lease_status_name LeaseStatus.completed = "completed"
lease_status_name LeaseStatus.failed = "failed"

-- What a worker or the reconciliation writes into a lease.
abbrev pub finished_lease :
    LeaseStatus
    → Option String
    → String
    → Option String
    → StepExecutionLeaseRecord
    → StepExecutionLeaseRecord
finished_lease status worker_id now error lease = record lease {
  status = status;
  worker_id = worker_id;
  finished_at = some now;
  error = error;
}

abbrev pub active_lease : String → String → StepExecutionLeaseRecord → StepExecutionLeaseRecord
active_lease worker_id now lease = record lease {
  status = LeaseStatus.active;
  started_at = some now;
  worker_id = some worker_id;
}

unfoldable pub update_leases :
    String
    → (StepExecutionLeaseRecord → StepExecutionLeaseRecord)
    → List StepExecutionLeaseRecord
    → List StepExecutionLeaseRecord
update_leases step_id change leases =
    map (λ (l : StepExecutionLeaseRecord). if l.step_id == step_id then change l else l) leases

-- The first step with the identifier gets the status.
unfoldable pub set_step_status : String → StepStatus → List MissionStep → List MissionStep
set_step_status step_id status [] = []
set_step_status step_id status (step ∷ steps) =
    let later = step ∷ set_step_status step_id status steps in
    if step.id == step_id then record step { status = status } ∷ steps else later

abbrev pub without_failure :
    String → List MissionExecutionFailureRecord → List MissionExecutionFailureRecord
without_failure step_id failures = filter (λ f. not (f.step_id == step_id)) failures

abbrev pub push_event : MissionWorkerEvent → MissionExecutionState → MissionExecutionState
push_event event e = record e { worker_events = e.worker_events ++ event ∷ [] }
