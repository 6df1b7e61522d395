-- ===== src/Types/Kinds.antt =====
-- packages/types/src/index.ts: tool kinds and risk levels, with their equality.
use jean_bot.Common.{ℕ, String, zero, suc, ◌≡◌, refl, ◌↔◌, true, Eq, nat_beq}
use jean_bot.Types.Codes.{codes_beq_iff}

pub data ToolKind : Type 0 where
  filesystem terminal browser search memory communication automation : ToolKind
  knowledge policy audit : ToolKind

abbrev tool_kind_code : ToolKind → ℕ
tool_kind_code ToolKind.filesystem = 0
tool_kind_code ToolKind.terminal = 1
tool_kind_code ToolKind.browser = 2
tool_kind_code ToolKind.search = 3
tool_kind_code ToolKind.memory = 4
tool_kind_code ToolKind.communication = 5
tool_kind_code ToolKind.automation = 6
tool_kind_code ToolKind.knowledge = 7
tool_kind_code ToolKind.policy = 8
tool_kind_code ToolKind.audit = 9

abbrev tool_kind_at : ℕ → ToolKind
tool_kind_at zero = ToolKind.filesystem
tool_kind_at (suc zero) = ToolKind.terminal
tool_kind_at (suc (suc zero)) = ToolKind.browser
tool_kind_at (suc (suc (suc zero))) = ToolKind.search
tool_kind_at (suc (suc (suc (suc zero)))) = ToolKind.memory
tool_kind_at (suc (suc (suc (suc (suc zero))))) = ToolKind.communication
tool_kind_at (suc (suc (suc (suc (suc (suc zero)))))) = ToolKind.automation
tool_kind_at (suc (suc (suc (suc (suc (suc (suc zero))))))) = ToolKind.knowledge
tool_kind_at (suc (suc (suc (suc (suc (suc (suc (suc zero)))))))) = ToolKind.policy
tool_kind_at _ = ToolKind.audit

tool_kind_at-code : (a : ToolKind) → tool_kind_at (tool_kind_code a) ≡ a
tool_kind_at-code ToolKind.filesystem = refl
tool_kind_at-code ToolKind.terminal = refl
tool_kind_at-code ToolKind.browser = refl
tool_kind_at-code ToolKind.search = refl
tool_kind_at-code ToolKind.memory = refl
tool_kind_at-code ToolKind.communication = refl
tool_kind_at-code ToolKind.automation = refl
tool_kind_at-code ToolKind.knowledge = refl
tool_kind_at-code ToolKind.policy = refl
tool_kind_at-code ToolKind.audit = refl

pub tool_kind_beq_iff :
    (a b : ToolKind) → (nat_beq (tool_kind_code a) (tool_kind_code b) ≡ true) ↔ (a ≡ b)
tool_kind_beq_iff = codes_beq_iff tool_kind_code tool_kind_at tool_kind_at-code

instance abbrev pub tool_kind_eq : Eq ToolKind
tool_kind_eq = record {
  beq = λ a b. nat_beq (tool_kind_code a) (tool_kind_code b);
  beq_iff = tool_kind_beq_iff;
}

abbrev pub tool_kind_name : ToolKind → String
tool_kind_name ToolKind.filesystem = "filesystem"
tool_kind_name ToolKind.terminal = "terminal"
tool_kind_name ToolKind.browser = "browser"
tool_kind_name ToolKind.search = "search"
tool_kind_name ToolKind.memory = "memory"
tool_kind_name ToolKind.communication = "communication"
tool_kind_name ToolKind.automation = "automation"
tool_kind_name ToolKind.knowledge = "knowledge"
tool_kind_name ToolKind.policy = "policy"
tool_kind_name ToolKind.audit = "audit"

pub data RiskLevel : Type 0 where
  low medium high critical : RiskLevel

abbrev pub risk_level_name : RiskLevel → String
risk_level_name RiskLevel.low = "low"
risk_level_name RiskLevel.medium = "medium"
risk_level_name RiskLevel.high = "high"
risk_level_name RiskLevel.critical = "critical"

abbrev risk_level_code : RiskLevel → ℕ
risk_level_code RiskLevel.low = 0
risk_level_code RiskLevel.medium = 1
risk_level_code RiskLevel.high = 2
risk_level_code RiskLevel.critical = 3

abbrev risk_level_at : ℕ → RiskLevel
risk_level_at zero = RiskLevel.low
risk_level_at (suc zero) = RiskLevel.medium
risk_level_at (suc (suc zero)) = RiskLevel.high
risk_level_at _ = RiskLevel.critical

risk_level_at-code : (a : RiskLevel) → risk_level_at (risk_level_code a) ≡ a
risk_level_at-code RiskLevel.low = refl
risk_level_at-code RiskLevel.medium = refl
risk_level_at-code RiskLevel.high = refl
risk_level_at-code RiskLevel.critical = refl

pub risk_level_beq_iff :
    (a b : RiskLevel) → (nat_beq (risk_level_code a) (risk_level_code b) ≡ true) ↔ (a ≡ b)
risk_level_beq_iff = codes_beq_iff risk_level_code risk_level_at risk_level_at-code

instance abbrev pub risk_level_eq : Eq RiskLevel
risk_level_eq = record {
  beq = λ a b. nat_beq (risk_level_code a) (risk_level_code b);
  beq_iff = risk_level_beq_iff;
}
