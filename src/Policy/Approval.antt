-- ===== src/Policy/Approval.antt =====
-- What a decision without approval says.
use jean_bot.Common.{◌≤◌, ◌≡◌, ap, false, List, [], ◌∷◌, arith, includes, unique, JsText, string_eq}
use jean_bot.Types.{
  Capability, RiskLevel, MissionObjective, PolicyRuleHit, capability_eq, risk_level_eq,
}
use jean_bot.Policy.{
  severity_index, needs_approval, blocked_by, rule_hits, mission_text, mission_risk,
  evaluate_mission,
}

none-needed :
    (risk : RiskLevel) (hits : List PolicyRuleHit) (required : List Capability)
    → needs_approval risk hits required ≡ false
    → (severity_index risk ≤ 1)
      × (hits ≡ [])
      × (includes required Capability.finance ≡ false)
      × (includes required Capability.communication ≡ false)
none-needed RiskLevel.critical hits required h = ground arith
none-needed RiskLevel.high hits required h = ground arith
none-needed RiskLevel.medium [] required h = ground arith
none-needed RiskLevel.low [] required h = ground arith
none-needed RiskLevel.medium (hit ∷ hits) required h = ground arith
none-needed RiskLevel.low (hit ∷ hits) required h = ground arith

-- A mission that is allowed to proceed automatically runs with a low or medium risk, hits no rule,
-- has no blocked action, and requires neither the finance nor the communication capability.
pub evaluate_mission-automatic :
    (js : JsText) (objective : MissionObjective)
    → (evaluate_mission js objective).approval_required ≡ false
    → (severity_index (evaluate_mission js objective).risk ≤ 1)
      × ((evaluate_mission js objective).rule_hits ≡ [])
      × ((evaluate_mission js objective).blocked_actions ≡ [])
      × (includes objective.required_capabilities Capability.finance ≡ false)
      × (includes objective.required_capabilities Capability.communication ≡ false)
unfolding evaluate_mission blocked_by
evaluate_mission-automatic js objective h =
    let hits = rule_hits (mission_text js objective) objective in
    let p = none-needed (mission_risk js objective) hits objective.required_capabilities h in
    (p.0, p.1, ap (λ l. unique (blocked_by l)) p.1, p.2, p.3)
