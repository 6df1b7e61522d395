-- ===== src/Types/Distributed.antt =====
-- What a distributed run of a mission records: leases, worker events, failures and transitions.
use Prim.Native.Nat.{ℕ}
use Prim.Native.String.{String}
use mathlib.Core.Option.{Option}
use mathlib.Core.List.{List}
use jean_bot.Types.Statuses.{MissionStatus, ExecutionMode}
use jean_bot.Types.Records.{
  StepExecutionDiagnostics, StepExecutionRecord, MetaValue, MissionArtifact,
}

pub data LeaseStatus : Type 0 where
  queued active completed failed : LeaseStatus

-- The kind of the queue is always `mission.step.execute`, and is left out.
pub record StepExecutionLeaseRecord : Type 0 where
  pub id : String
  pub mission_id : String
  pub step_id : String
  pub job_id : String
  pub status : LeaseStatus
  pub attempt : ℕ
  pub queued_at : String
  pub started_at : Option String
  pub finished_at : Option String
  pub worker_id : Option String
  pub error : Option String

pub data WorkerEventKind : Type 0 where
  mission_enqueued step_enqueued step_started step_requeued step_ignored : WorkerEventKind
  step_completed step_failed batch_replanned execution_finalized : WorkerEventKind

pub record MissionWorkerEvent : Type 0 where
  pub id : String
  pub mission_id : String
  pub step_id : Option String
  pub job_id : Option String
  pub kind : WorkerEventKind
  pub message : String
  pub metadata : List (String × MetaValue)
  pub created_at : String

pub record MissionExecutionFailureRecord : Type 0 where
  pub step_id : String
  pub attempts : ℕ
  pub error_message : String
  pub diagnostics : Option StepExecutionDiagnostics
  pub created_at : String

-- The outputs hold JSON values of any shape: each stands as its text.
pub record MissionExecutionState : Type 0 where
  pub session_id : String
  pub workspace_root : String
  pub execution_mode : ExecutionMode
  pub started_at : String
  pub outputs : List (String × String)
  pub memory_updates : List String
  pub step_reports : List StepExecutionRecord
  pub artifacts : List MissionArtifact
  pub queued_step_ids : List String
  pub completed_step_ids : List String
  pub failed_steps : List MissionExecutionFailureRecord
  pub step_leases : List StepExecutionLeaseRecord
  pub worker_events : List MissionWorkerEvent

pub record MissionStateTransition : Type 0 where
  pub id : String
  pub mission_id : String
  pub from : MissionStatus
  pub to : MissionStatus
  pub reason : String
  pub actor : String
  pub created_at : String
