-- ===== src/Policy/Risk.antt =====
-- The risk that a mission runs with, against the rules that it hits.
use jean_bot.Common.{◌≤◌, ◌≡◌, refl, List, [], ◌∷◌, arith, if◌then◌else◌, ltb, All, JsText}
use jean_bot.Types.{RiskLevel, MissionObjective, PolicyRuleHit, risk_level_eq}
use jean_bot.Policy.{
  severity_index, highest_severity, mission_risk, mission_text, rule_hits, risk_from_text,
  evaluate_mission,
}

-- A severity that is no higher than the risk.
abbrev pub AtMost : RiskLevel → PolicyRuleHit → Type 0
AtMost risk hit = severity_index hit.severity ≤ severity_index risk

higher-le :
    (a b : RiskLevel)
    → severity_index a ≤ severity_index (if ltb (severity_index a) (severity_index b) then b else a)
higher-le a b = ground arith

higher-le-right :
    (a b : RiskLevel)
    → severity_index b ≤ severity_index (if ltb (severity_index a) (severity_index b) then b else a)
higher-le-right a b = ground arith

highest_severity-le :
    (highest : RiskLevel) (hits : List PolicyRuleHit)
    → (severity_index highest ≤ severity_index (highest_severity highest hits))
      × All (AtMost (highest_severity highest hits)) hits
unfolding highest_severity
highest_severity-le highest [] = (omega arith, tt)
highest_severity-le highest (hit ∷ hits) =
    let most =
      if ltb (severity_index highest) (severity_index hit.severity)
      then hit.severity
      else highest in
    let rest = highest_severity-le most hits in
    (
      omega (arith, higher-le highest hit.severity, rest.0),
      (omega (arith, higher-le-right highest hit.severity, rest.0), rest.1),
    )

risk-of-low :
    (js : JsText) (objective : MissionObjective)
    → objective.risk ≡ RiskLevel.low
    → mission_risk js objective
      ≡ highest_severity
          (risk_from_text js (mission_text js objective))
          (rule_hits (mission_text js objective) objective)
unfolding mission_risk
risk-of-low js objective low = rw low refl

-- A mission whose own risk is low runs with a risk no lower than that of its text and no lower than
-- the severity of any rule that it hits.
pub evaluate_mission-risk :
    (js : JsText) (objective : MissionObjective)
    → objective.risk ≡ RiskLevel.low
    → (severity_index (risk_from_text js (mission_text js objective))
        ≤ severity_index (evaluate_mission js objective).risk)
      × All (AtMost (evaluate_mission js objective).risk) (evaluate_mission js objective).rule_hits
unfolding evaluate_mission
evaluate_mission-risk js objective low = rw (risk-of-low js objective low) (
    highest_severity-le (risk_from_text js (mission_text js objective))
      (rule_hits (mission_text js objective) objective))
