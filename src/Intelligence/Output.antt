-- ===== src/Intelligence/Output.antt =====
-- What the runtime returns of a step, and the tools that it used.
use Prim.Native.Char.{code}
use Prim.Native.String.{String}
use text.Mathlib.Text.{starts_with}
use jean_bot.Common.{
  ℕ, Bool, true, false, ◌&&◌, Option, none, some, List, [], ◌∷◌, if◌then◌else◌, ◌==◌, nat_eq,
  string_eq, any,
}
use jean_bot.Types.{Capability, ToolKind, MissionStep, PolicyDecision}

pub record ToolCall : Type 0 where
  pub id : String
  pub tool_id : String
  pub action : String
  pub started_at : String
  pub finished_at : String
  pub ok : Bool
  pub message : String
  pub payload_preview : String

-- The part of `RuntimeExecutionResult` that the assessment reads; of the provider's responses only
-- their number counts.
pub record RuntimeOutput : Type 0 where
  pub final_text : String
  pub tool_calls : List ToolCall
  pub provider_responses : ℕ
  pub verification_ok : Bool
  pub sanitized : String
  pub reason : String

-- `toolId.split(".")[0]`: the characters before the first full stop.
unfoldable pub prefix_of : String → String
prefix_of String.[] = ""
prefix_of (String.◌∷◌ c s) =
    let rest = String.◌∷◌ c (prefix_of s) in if code c == b'.' then "" else rest

-- The switch over the prefix.
unfoldable pub kind_of_prefix : String → Option ToolKind
kind_of_prefix word =
    if word == "filesystem"
    then some ToolKind.filesystem
    else if word == "terminal"
    then some ToolKind.terminal
    else if word == "browser"
    then some ToolKind.browser
    else if word == "memory"
    then some ToolKind.memory
    else if word == "communication"
    then some ToolKind.communication
    else if word == "automation"
    then some ToolKind.automation
    else if word == "policy"
    then some ToolKind.policy
    else if word == "audit"
    then some ToolKind.audit
    else if word == "knowledge"
    then some ToolKind.knowledge
    else if word == "search"
    then some ToolKind.search
    else none

-- `toolKindsFromOutput`, over the calls; only membership in the result is used.
unfoldable pub seen_kinds : List ToolCall → List ToolKind
unfolding prefix_of kind_of_prefix
seen_kinds [] = []
seen_kinds (c ∷ calls) = elim (kind_of_prefix (prefix_of c.tool_id)) [
  | none ↦ seen_kinds calls
  | some kind ↦ kind ∷ seen_kinds calls
]

unfoldable pub expected_kinds_of : Capability → List ToolKind
expected_kinds_of Capability.filesystem = ToolKind.filesystem ∷ []
expected_kinds_of Capability.terminal = ToolKind.terminal ∷ []
expected_kinds_of Capability.browser = ToolKind.browser ∷ []
expected_kinds_of Capability.research = ToolKind.browser ∷ ToolKind.search ∷ []
expected_kinds_of Capability.memory = ToolKind.memory ∷ []
expected_kinds_of Capability.communication = ToolKind.communication ∷ []
expected_kinds_of Capability.automation = ToolKind.automation ∷ []
expected_kinds_of Capability.heartbeat = ToolKind.automation ∷ []
expected_kinds_of Capability.software_development = ToolKind.terminal ∷ ToolKind.filesystem ∷ []
expected_kinds_of Capability.data_analysis = ToolKind.terminal ∷ ToolKind.memory ∷ []
expected_kinds_of Capability.planning = ToolKind.memory ∷ ToolKind.filesystem ∷ []
expected_kinds_of Capability.orchestration = ToolKind.memory ∷ ToolKind.filesystem ∷ []
expected_kinds_of Capability.security = ToolKind.policy ∷ ToolKind.audit ∷ []
expected_kinds_of _ = []

unfoldable pub is_sensitive : Capability → Bool
is_sensitive Capability.security = true
is_sensitive Capability.finance = true
is_sensitive Capability.communication = true
is_sensitive _ = false

unfoldable pub requires_explicit_policy_evidence : MissionStep → PolicyDecision → Bool
unfolding is_sensitive
requires_explicit_policy_evidence step decision =
    decision.approval_required && is_sensitive step.capability

unfoldable pub has_policy_call : RuntimeOutput → Bool
has_policy_call output = any (λ c. starts_with c.tool_id "policy.") output.tool_calls
