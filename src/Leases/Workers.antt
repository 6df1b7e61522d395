-- ===== src/Leases/Workers.antt =====
-- What a worker does to the execution state: it starts a step, records its outcome, and settles it.
use jean_bot.Common.{
  ℕ, String, not, ◌&&◌, Option, none, some, List, [], ◌∷◌, ◌++◌, if◌then◌else◌, ◌==◌, string_eq,
  filter, includes, template,
}
use jean_bot.Types.{
  StepStatus, MissionStatus, LeaseStatus, StepExecutionLeaseRecord, WorkerEventKind,
  MissionExecutionFailureRecord, MissionExecutionState, MetaValue, Stamps, StepExecutionDiagnostics,
  mission_status_eq,
}
use jean_bot.SubAgents.{add_id, drop_id}
use jean_bot.Retries.{Thrown, step_failure, message_of}
use jean_bot.Executor.{StepOutcome, StepEnd, fulfilled, broke}
use jean_bot.Leases.Records.{
  StepExecutionJob, RunState, first_or, create_lease, create_worker_event, lease_of, finished_lease,
  active_lease, update_leases, set_step_status, without_failure,
}
use jean_bot.Leases.Batches.{tell}

-- `ensureStepLease`, by the lease that the step has, with the job that the worker has.
unfoldable pub ensure_lease :
    Stamps
    → StepExecutionJob
    → Option StepExecutionLeaseRecord
    → MissionExecutionState
    → MissionExecutionState
unfolding create_lease
ensure_lease stamps job (some lease) e = e
ensure_lease stamps job none e = record e {
  step_leases =
      e.step_leases
      ++ create_lease stamps job.mission_id job.step_id job.id (first_or job.attempt) job.lease_id
        ∷ [];
}

unfoldable pub ensure_step_lease :
    Stamps → StepExecutionJob → MissionExecutionState → MissionExecutionState
unfolding ensure_lease
ensure_step_lease stamps job e = ensure_lease stamps job (lease_of job.step_id e.step_leases) e

abbrev pub job_id_of : String → MissionExecutionState → Option String
job_id_of step_id e = elim (lease_of step_id e.step_leases) [ none ↦ none | some l ↦ some l.job_id ]

-- The first patch of `commitStepOutcome`.
unfoldable pub start_step : Stamps → String → StepExecutionJob → RunState → RunState
unfolding ensure_step_lease update_leases create_worker_event
start_step stamps worker_id job s =
    let ensured = ensure_step_lease stamps job s.execution in
    tell stamps job.mission_id WorkerEventKind.step_started
      (template ("Distributed worker started step \"" ∷ job.step_id ∷ "\"." ∷ []))
      (("workerId", MetaValue.text worker_id) ∷ []) (some job.step_id)
      (job_id_of job.step_id ensured)
      (record s {
        execution = record ensured {
          step_leases =
              update_leases job.step_id (active_lease worker_id (stamps.iso 0)) ensured.step_leases;
        };
      })

abbrev pub set_output : String → String → List (String × String) → List (String × String)
set_output key text [] = (key, text) ∷ []
set_output key text (o ∷ outputs) =
    let later = o ∷ set_output key text outputs in
    if o.0 == key then (key, text) ∷ outputs else later

-- The second patch: the outcome; `output_text` is the text of what is kept of its output.
unfoldable pub record_outcome : (StepOutcome → String) → StepOutcome → RunState → RunState
unfolding set_step_status
record_outcome output_text outcome s = record {
  execution = record s.execution {
    outputs = set_output outcome.step.id (output_text outcome) s.execution.outputs;
    memory_updates = s.execution.memory_updates ++ outcome.memory_text ∷ [];
    step_reports =
        filter (λ r. not (r.step_id == outcome.step.id)) s.execution.step_reports
        ++ outcome.report ∷ [];
    artifacts =
        filter (λ a. not (a.id == outcome.artifact.id)) s.execution.artifacts
        ++ outcome.artifact ∷ [];
  };
  steps = set_step_status outcome.step.id outcome.step.status s.steps;
}

unfoldable pub finalize_step_success : Stamps → String → String → String → RunState → RunState
unfolding update_leases create_worker_event
finalize_step_success stamps mission_id step_id worker_id s =
    tell stamps mission_id WorkerEventKind.step_completed
      (template ("Step \"" ∷ step_id ∷ "\" completed on a distributed worker." ∷ [])) []
      (some step_id) (job_id_of step_id s.execution)
      (record s {
        execution = record s.execution {
          queued_step_ids = drop_id step_id s.execution.queued_step_ids;
          completed_step_ids = add_id step_id s.execution.completed_step_ids;
          failed_steps = without_failure step_id s.execution.failed_steps;
          step_leases =
              update_leases step_id
                (λ l.
                  finished_lease LeaseStatus.completed (some worker_id) (stamps.iso 0) l.error l)
                s.execution.step_leases;
        };
      })

unfoldable pub finalize_step_failure :
    Stamps → String → MissionExecutionFailureRecord → String → RunState → RunState
unfolding update_leases create_worker_event set_step_status
finalize_step_failure stamps mission_id failure worker_id s =
    tell stamps mission_id WorkerEventKind.step_failed
      (template ("Step \"" ∷ failure.step_id ∷ "\" failed on a distributed worker." ∷ []))
      (("error", MetaValue.text failure.error_message) ∷ []) (some failure.step_id)
      (job_id_of failure.step_id s.execution)
      (record {
        execution = record s.execution {
          queued_step_ids = drop_id failure.step_id s.execution.queued_step_ids;
          failed_steps = without_failure failure.step_id s.execution.failed_steps ++ failure ∷ [];
          step_leases =
              update_leases failure.step_id
                (λ l.
                  finished_lease LeaseStatus.failed (some worker_id) (stamps.iso 0)
                    (some failure.error_message) l)
                s.execution.step_leases;
        };
        steps = set_step_status failure.step_id StepStatus.failed s.steps;
      })

abbrev pub attempts_of : Thrown → ℕ
attempts_of (step_failure f) = f.attempts
attempts_of _ = 1

abbrev pub diagnostics_of : Thrown → Option StepExecutionDiagnostics
diagnostics_of (step_failure f) = f.diagnostics
diagnostics_of _ = none

abbrev pub failure_record : Stamps → String → Thrown → MissionExecutionFailureRecord
failure_record stamps step_id thrown = record {
  step_id = step_id;
  attempts = attempts_of thrown;
  error_message = message_of thrown;
  diagnostics = diagnostics_of thrown;
  created_at = stamps.iso 3;
}

-- The rest of `commitStepOutcome`, by what `executeQueuedStep` made of the step.
unfoldable pub settle_step :
    Stamps → (StepOutcome → String) → String → StepExecutionJob → StepEnd → RunState → RunState
unfolding record_outcome finalize_step_success finalize_step_failure
settle_step stamps output_text worker_id job (fulfilled outcome) s =
    finalize_step_success stamps job.mission_id job.step_id worker_id
      (record_outcome output_text outcome s)
settle_step stamps output_text worker_id job (broke status thrown) s =
    finalize_step_failure stamps job.mission_id (failure_record stamps job.step_id thrown) worker_id
      s

-- A job whose lease was replaced is noted and ignored.
unfoldable pub ignore_job :
    Stamps → StepExecutionJob → StepExecutionLeaseRecord → RunState → RunState
unfolding create_worker_event
ignore_job stamps job lease s =
    tell stamps job.mission_id WorkerEventKind.step_ignored
      (template ("Ignored stale distributed step job for \"" ∷ job.step_id ∷ "\"." ∷ []))
      (("expectedLeaseId", MetaValue.text lease.id)
        ∷ ("receivedLeaseId", MetaValue.text job.lease_id)
        ∷ [])
      (some job.step_id) (some job.id) s

-- `processStepExecutionJob` up to the run of the step, by the status of the mission and the lease
-- of the step; other workers may change the state before `settle_step`.
unfoldable pub take_job :
    Stamps → String → StepExecutionJob → Option StepExecutionLeaseRecord → RunState → RunState
unfolding start_step ignore_job
take_job stamps worker_id job none s = start_step stamps worker_id job s
take_job stamps worker_id job (some lease) s =
    if not (job.lease_id == "") && not (lease.id == job.lease_id)
    then ignore_job stamps job lease s
    else start_step stamps worker_id job s

unfoldable pub process_step_execution_job :
    Stamps → String → MissionStatus → StepExecutionJob → RunState → RunState
unfolding take_job
process_step_execution_job stamps worker_id status job s =
    if not (status == MissionStatus.running)
    then s
    else if includes s.execution.completed_step_ids job.step_id
    then s
    else take_job stamps worker_id job (lease_of job.step_id s.execution.step_leases) s
