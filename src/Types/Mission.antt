-- ===== src/Types/Mission.antt =====
-- Objectives, plans, steps and policy decisions.
use Prim.Native.Nat.{ℕ}
use Prim.Native.String.{String}
use mathlib.Core.Bool.{Bool}
use mathlib.Core.Option.{Option}
use mathlib.Core.List.{List}
use jean_bot.Types.Capabilities.{Capability}
use jean_bot.Types.Kinds.{ToolKind, RiskLevel}
use jean_bot.Types.Statuses.{StepStatus, Stage}

pub record MissionObjective : Type 0 where
  pub id : String
  pub tenant_id : Option String
  pub workspace_id : String
  pub user_id : String
  pub title : String
  pub objective : String
  pub context : String
  pub constraints : List String
  pub desired_outcome : Option String
  pub required_capabilities : List Capability
  pub risk : RiskLevel
  pub created_at : String

pub record MissionStep : Type 0 where
  pub id : String
  pub title : String
  pub description : String
  pub capability : Capability
  pub stage : Option Stage
  pub tool_kind : Option ToolKind
  pub depends_on : List String
  pub verification : String
  pub assignee : String
  pub status : StepStatus

-- The estimated cost is in cents.
pub record MissionPlan : Type 0 where
  pub id : String
  pub mission_id : String
  pub version : Option ℕ
  pub summary : String
  pub steps : List MissionStep
  pub estimated_duration_minutes : ℕ
  pub estimated_cost_cents : ℕ
  pub checkpoints : List String
  pub alternatives : List String
  pub generated_at : String

pub record PolicyRuleHit : Type 0 where
  pub id : String
  pub severity : RiskLevel
  pub message : String
  pub matched_text : String

pub record PolicyDecision : Type 0 where
  pub allowed : Bool
  pub reason : String
  pub approval_required : Bool
  pub risk : RiskLevel
  pub rule_hits : List PolicyRuleHit
  pub blocked_actions : List String
