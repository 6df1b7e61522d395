-- ===== src/Planner/Fields.antt =====
-- The tables of mission-planner.ts: titles and tool kinds by capability.
use jean_bot.Common.{String, Option, none, some}
use jean_bot.Types.{Capability, ToolKind}

unfoldable pub capability_to_tool_kind : Capability → Option ToolKind
capability_to_tool_kind Capability.filesystem = some ToolKind.filesystem
capability_to_tool_kind Capability.terminal = some ToolKind.terminal
capability_to_tool_kind Capability.browser = some ToolKind.browser
capability_to_tool_kind Capability.research = some ToolKind.search
capability_to_tool_kind Capability.communication = some ToolKind.communication
capability_to_tool_kind Capability.heartbeat = some ToolKind.automation
capability_to_tool_kind _ = none

unfoldable pub title_for_capability : Capability → String
title_for_capability Capability.reasoning = "Clarify mission constraints"
title_for_capability Capability.planning = "Decompose objective into steps"
title_for_capability Capability.terminal = "Run terminal-assisted implementation tasks"
title_for_capability Capability.browser = "Gather browser context"
title_for_capability Capability.filesystem = "Inspect workspace files"
title_for_capability Capability.memory = "Load and update memory context"
title_for_capability Capability.research = "Research supporting evidence"
title_for_capability Capability.subagents = "Parallelize specialist execution"
title_for_capability Capability.communication = "Draft or send communications"
title_for_capability Capability.skills = "Load relevant skill integrations"
title_for_capability Capability.software_development = "Implement core system changes"
title_for_capability Capability.data_analysis = "Analyze data and derive findings"
title_for_capability Capability.writing = "Produce mission documentation"
title_for_capability Capability.automation = "Design recurring or triggered workflows"
title_for_capability Capability.project_management = "Track status and coordination"
title_for_capability Capability.heartbeat = "Define proactive monitoring"
title_for_capability Capability.security = "Run policy and risk review"
title_for_capability Capability.learning = "Store durable lessons"
title_for_capability Capability.multimodality = "Handle non-text artifacts"
title_for_capability Capability.finance = "Handle finance-sensitive workflows"
title_for_capability Capability.orchestration = "Synthesize final mission result"
