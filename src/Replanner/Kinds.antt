-- ===== src/Replanner/Kinds.antt =====
-- services/agent-orchestrator/src/executor/adaptive-replanner.ts: tool kinds, the capabilities that
-- stand for them, and their reading out of the missing signals.
use jean_bot.Common.{
  String, Option, none, some, List, [], ◌∷◌, ◌++◌, string_eq, unique, filter, contains, JsText,
}
use jean_bot.Types.{
  Capability, ToolKind, StepExecutionDiagnostics, tool_kind_eq, capability_eq, stage_eq,
  tool_kind_name,
}

unfoldable pub capability_to_tool_kind : Capability → Option ToolKind
capability_to_tool_kind Capability.filesystem = some ToolKind.filesystem
capability_to_tool_kind Capability.terminal = some ToolKind.terminal
capability_to_tool_kind Capability.browser = some ToolKind.browser
capability_to_tool_kind Capability.research = some ToolKind.search
capability_to_tool_kind Capability.memory = some ToolKind.memory
capability_to_tool_kind Capability.communication = some ToolKind.communication
capability_to_tool_kind Capability.automation = some ToolKind.automation
capability_to_tool_kind Capability.heartbeat = some ToolKind.automation
capability_to_tool_kind Capability.security = some ToolKind.policy
capability_to_tool_kind Capability.reasoning = some ToolKind.memory
capability_to_tool_kind Capability.orchestration = some ToolKind.audit
capability_to_tool_kind Capability.software_development = some ToolKind.filesystem
capability_to_tool_kind Capability.data_analysis = some ToolKind.terminal
capability_to_tool_kind _ = none

abbrev pub catalog : List ToolKind
catalog =
    ToolKind.filesystem ∷ ToolKind.terminal ∷ ToolKind.browser ∷ ToolKind.search ∷ ToolKind.memory
    ∷ ToolKind.communication ∷ ToolKind.automation ∷ ToolKind.knowledge ∷ ToolKind.policy
    ∷ ToolKind.audit ∷ []

-- The two loops of `parseMissingKinds` over the signals.
unfoldable pub kinds_in : JsText → List String → List ToolKind
kinds_in js [] = []
kinds_in js (signal ∷ signals) =
    let lowered = js.to_lower signal in
    filter (λ kind. contains lowered (tool_kind_name kind)) catalog ++ kinds_in js signals

unfoldable pub parse_missing_kinds : JsText → Option StepExecutionDiagnostics → List ToolKind
unfolding kinds_in
parse_missing_kinds js none = []
parse_missing_kinds js (some d) = unique (kinds_in js d.missing_signals)

-- The `default` of the switch is never reached: every kind has a case.
unfoldable pub capability_from_missing_kind : ToolKind → Capability
capability_from_missing_kind ToolKind.filesystem = Capability.filesystem
capability_from_missing_kind ToolKind.terminal = Capability.terminal
capability_from_missing_kind ToolKind.browser = Capability.browser
capability_from_missing_kind ToolKind.search = Capability.research
capability_from_missing_kind ToolKind.knowledge = Capability.research
capability_from_missing_kind ToolKind.communication = Capability.communication
capability_from_missing_kind ToolKind.automation = Capability.automation
capability_from_missing_kind ToolKind.memory = Capability.memory
capability_from_missing_kind ToolKind.policy = Capability.security
capability_from_missing_kind ToolKind.audit = Capability.security
