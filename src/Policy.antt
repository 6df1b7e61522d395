-- ===== src/Policy.antt =====
-- services/policy-service/src/index.ts, with `riskFromText` of packages/security/src/index.ts: which
-- missions and tool actions need an approval, and with what risk they run.
pub mod Approval
pub mod Risk
use jean_bot.Common.{
  ℕ, String, Bool, true, false, ◌&&◌, ◌||◌, List, [], ◌∷◌, ◌++◌, if◌then◌else◌, ltb, leb, ◌==◌,
  string_eq, length, any, find, filter, includes, unique, or_default, template, join, contains, map,
  Option, none, some, JsText,
}
use jean_bot.Types.{
  Capability, RiskLevel, ToolKind, MissionObjective, PolicyRuleHit, PolicyDecision, capability_eq,
  risk_level_eq,
}

abbrev critical_terms : List String
critical_terms =
    "delete" ∷ "transfer" ∷ "purchase" ∷ "payment" ∷ "production" ∷ "invoice" ∷ "email send" ∷ []

abbrev high_terms : List String
high_terms = "deploy" ∷ "publish" ∷ "backup" ∷ "restore" ∷ "credentials" ∷ []

unfoldable pub risk_from_text : JsText → String → RiskLevel
risk_from_text js text =
    let normalized = js.to_lower text in
    if any (λ term. contains normalized term) critical_terms
    then RiskLevel.critical
    else if any (λ term. contains normalized term) high_terms
    then RiskLevel.high
    else if contains normalized "monitor" || contains normalized "analyze"
    then RiskLevel.medium
    else RiskLevel.low

pub record MissionRule : Type 0 where
  pub id : String
  pub severity : RiskLevel
  pub message : String
  pub test : String → MissionObjective → Bool
  pub blocked_actions : Option (List String)

abbrev financial_action : MissionRule
financial_action = record {
  id = "financial-action";
  severity = RiskLevel.critical;
  message = "Financial language detected. Approval is mandatory.";
  test = λ input objective.
      contains input "payment"
      || contains input "invoice"
      || contains input "purchase"
      || includes objective.required_capabilities Capability.finance;
  blocked_actions = some ("send-payment" ∷ "purchase" ∷ []);
}

abbrev external_communication : MissionRule
external_communication = record {
  id = "external-communication";
  severity = RiskLevel.high;
  message = "External communication detected. Human review is recommended.";
  test = λ input objective.
      contains input "email"
      || contains input "slack"
      || contains input "telegram"
      || includes objective.required_capabilities Capability.communication;
  blocked_actions = some ("send-email" ∷ "post-message" ∷ []);
}

abbrev production_change : MissionRule
production_change = record {
  id = "production-change";
  severity = RiskLevel.high;
  message = "Production-impacting change detected. Checkpoint and approval required.";
  test = λ input objective.
      contains input "production"
      || contains input "deploy"
      || contains input "delete"
      || contains input "restore";
  blocked_actions = some ("production-deploy" ∷ "data-delete" ∷ []);
}

abbrev sensitive_data : MissionRule
sensitive_data = record {
  id = "sensitive-data";
  severity = RiskLevel.high;
  message = "Sensitive data or credentials may be involved.";
  test = λ input objective.
      contains input "credential"
      || contains input "secret"
      || contains input "token"
      || contains input "pii";
  blocked_actions = some ("expose-secrets" ∷ []);
}

unfoldable pub mission_rules : List MissionRule
mission_rules = financial_action ∷ external_communication ∷ production_change ∷ sensitive_data ∷ []

-- `["low", "medium", "high", "critical"].indexOf(level)`.
abbrev pub severity_index : RiskLevel → ℕ
severity_index RiskLevel.low = 0
severity_index RiskLevel.medium = 1
severity_index RiskLevel.high = 2
severity_index RiskLevel.critical = 3

unfoldable pub mission_text : JsText → MissionObjective → String
mission_text js objective = js.to_lower (
    template (
      objective.title
      ∷ "\n"
      ∷ objective.objective
      ∷ "\n"
      ∷ objective.context
      ∷ "\n"
      ∷ join "\n" objective.constraints
      ∷ []))

abbrev hit_of : MissionObjective → MissionRule → PolicyRuleHit
hit_of objective rule = record {
  id = rule.id;
  severity = rule.severity;
  message = rule.message;
  matched_text = objective.objective;
}

unfoldable pub rule_hits : String → MissionObjective → List PolicyRuleHit
unfolding mission_rules
rule_hits input objective =
    map (hit_of objective) (filter (λ rule. rule.test input objective) mission_rules)

-- The `reduce` over the hits.
unfoldable pub highest_severity : RiskLevel → List PolicyRuleHit → RiskLevel
highest_severity highest [] = highest
highest_severity highest (hit ∷ hits) =
    highest_severity
      (if ltb (severity_index highest) (severity_index hit.severity) then hit.severity else highest)
      hits

abbrev actions_of : Option MissionRule → List String
actions_of (some rule) = or_default rule.blocked_actions []
actions_of none = []

-- `ruleHits.flatMap(…)`.
unfoldable pub blocked_by : List PolicyRuleHit → List String
unfolding mission_rules
blocked_by [] = []
blocked_by (hit ∷ hits) =
    actions_of (find (λ candidate. candidate.id == hit.id) mission_rules) ++ blocked_by hits

unfoldable pub mission_risk : JsText → MissionObjective → RiskLevel
unfolding mission_text rule_hits risk_from_text highest_severity
mission_risk js objective =
    let input = mission_text js objective in
    if objective.risk == RiskLevel.low
    then highest_severity (risk_from_text js input) (rule_hits input objective)
    else objective.risk

abbrev pub needs_approval : RiskLevel → List PolicyRuleHit → List Capability → Bool
needs_approval risk hits required =
    risk == RiskLevel.critical
    || risk == RiskLevel.high
    || ltb 0 (length hits)
    || includes required Capability.finance
    || includes required Capability.communication

unfoldable pub evaluate_mission : JsText → MissionObjective → PolicyDecision
unfolding mission_text rule_hits mission_risk blocked_by
evaluate_mission js objective =
    let hits = rule_hits (mission_text js objective) objective in
    let risk = mission_risk js objective in
    let approval = needs_approval risk hits objective.required_capabilities in
    record {
      allowed = true;
      reason =
          if approval
          then "Mission can proceed but requires approval gates for risky actions."
          else "Mission is allowed to proceed automatically.";
      approval_required = approval;
      risk = risk;
      rule_hits = hits;
      blocked_actions = unique (blocked_by hits);
    }

pub record ToolDescriptor : Type 0 where
  pub id : String
  pub name : String
  pub kind : ToolKind
  pub description : String
  pub permissions : List String
  pub requires_approval : Bool
  pub supported_actions : Option (List String)
  pub capability_hints : Option (List Capability)
  pub tags : Option (List String)
  pub risk : Option RiskLevel

unfoldable pub evaluate_tool : JsText → ToolDescriptor → String → PolicyDecision
evaluate_tool js tool action =
    let normalized = js.to_lower action in
    let approval =
      tool.requires_approval
      || contains normalized "delete"
      || contains normalized "deploy"
      || contains normalized "send" in
    record {
      allowed = true;
      reason = if approval then "Tool execution requires approval." else "Tool execution allowed.";
      approval_required = approval;
      risk = if approval then RiskLevel.high else RiskLevel.low;
      rule_hits =
          if approval
          then record {
            id = "tool-approval";
            severity = RiskLevel.high;
            message =
                template
                  ("Tool " ∷ tool.id ∷ " requires elevated review for action " ∷ action ∷ "." ∷ []);
            matched_text = action;
          }
            ∷ []
          else [];
      blocked_actions = [];
    }
