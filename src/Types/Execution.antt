-- ===== src/Types/Execution.antt =====
-- The record of a mission.
use Prim.Native.Nat.{ℕ}
use Prim.Native.String.{String}
use mathlib.Core.Option.{Option}
use mathlib.Core.List.{List}
use jean_bot.Types.Statuses.{MissionStatus}
use jean_bot.Types.Mission.{MissionObjective, MissionPlan}
use jean_bot.Types.Records.{
  MissionDecisionLogEntry, MissionReplanPatch, MissionArtifact, ApprovalRecord, MissionRunResult,
}
use jean_bot.Types.Distributed.{MissionExecutionState, MissionStateTransition}

pub record MissionRecord : Type 0 where
  pub objective : MissionObjective
  pub plan : Option MissionPlan
  pub result : Option MissionRunResult
  pub active_execution : Option MissionExecutionState
  pub status : MissionStatus
  pub artifacts : Option (List MissionArtifact)
  pub approvals : Option (List ApprovalRecord)
  pub plan_version : Option ℕ
  pub replan_count : Option ℕ
  pub decision_log : Option (List MissionDecisionLogEntry)
  pub replan_history : Option (List MissionReplanPatch)
  pub transitions : Option (List MissionStateTransition)
  pub last_updated_at : String
