-- ===== src/Types/Records.antt =====
-- What the execution of a mission records: diagnostics, reports, decisions, replans and results.
use Prim.Native.Nat.{ℕ}
use Prim.Native.String.{String}
use mathlib.Core.Bool.{Bool}
use mathlib.Core.Option.{Option}
use mathlib.Core.List.{List}
use jean_bot.Types.Statuses.{MissionStatus, StepStatus, ApprovalStatus, ExecutionMode}
use jean_bot.Types.Outcomes.{FailureClass, Severity, Scope, Category, ArtifactKind}
use jean_bot.Types.Numbers.{Double}

pub record StepExecutionDiagnostics : Type 0 where
  pub failure_class : FailureClass
  pub evidence_score : Double
  pub coverage_score : Double
  pub verification_score : Double
  pub overall_score : Double
  pub retryable : Bool
  pub escalation_required : Bool
  pub missing_signals : List String
  pub strengths : List String
  pub recommended_actions : List String

pub record StepExecutionRecord : Type 0 where
  pub step_id : String
  pub assignee : String
  pub status : StepStatus
  pub started_at : String
  pub finished_at : String
  pub summary : String
  pub verification : String
  pub tool_id : Option String
  pub sub_agent_run_id : Option String
  pub attempts : Option ℕ
  pub tool_calls : Option ℕ
  pub diagnostics : Option StepExecutionDiagnostics

-- The values that stand in the `metadata` of a decision.
pub data MetaValue : Type 0 where
  count : ℕ → MetaValue
  score : Double → MetaValue
  word : FailureClass → MetaValue
  texts : List String → MetaValue
  text : String → MetaValue
  truth : Bool → MetaValue

pub record MissionDecisionLogEntry : Type 0 where
  pub id : String
  pub mission_id : String
  pub plan_version : ℕ
  pub scope : Scope
  pub category : Category
  pub severity : Severity
  pub step_id : Option String
  pub summary : String
  pub reasoning : String
  pub recommended_actions : List String
  pub metadata : List (String × MetaValue)
  pub created_at : String

pub record MissionReplanPatch : Type 0 where
  pub id : String
  pub mission_id : String
  pub plan_version : ℕ
  pub triggered_by_step_id : String
  pub summary : String
  pub reason : String
  pub inserted_step_ids : List String
  pub deferred_step_ids : List String
  pub created_at : String

pub record MissionExecutionMetrics : Type 0 where
  pub total_steps : ℕ
  pub completed_steps : ℕ
  pub failed_steps : ℕ
  pub retried_steps : ℕ
  pub replanned_steps : ℕ
  pub quality_gate_failures : ℕ
  pub escalations : ℕ
  pub total_tool_calls : ℕ
  pub total_artifacts : ℕ
  pub average_step_score : Double
  pub weakest_step_id : Option String
  pub strongest_step_id : Option String

pub record MissionArtifact : Type 0 where
  pub id : String
  pub kind : ArtifactKind
  pub title : String
  pub path : String
  pub created_at : String
  pub metadata : List (String × MetaValue)

pub record ApprovalRecord : Type 0 where
  pub id : String
  pub mission_id : String
  pub tenant_id : Option String
  pub workspace_id : String
  pub status : ApprovalStatus
  pub reason : String
  pub required_actions : List String
  pub created_at : String
  pub updated_at : String
  pub approved_by : Option String

-- The outputs hold JSON values of any shape: each stands as its text.
pub record MissionRunResult : Type 0 where
  pub mission_id : String
  pub status : MissionStatus
  pub execution_mode : Option ExecutionMode
  pub verification_summary : String
  pub outputs : List (String × String)
  pub memory_updates : List String
  pub step_reports : Option (List StepExecutionRecord)
  pub artifacts : Option (List MissionArtifact)
  pub metrics : Option MissionExecutionMetrics
  pub gaps : Option (List String)
  pub decision_log : Option (List MissionDecisionLogEntry)
  pub started_at : String
  pub finished_at : String
