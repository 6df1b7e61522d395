-- ===== src/SubAgents/Definitions.antt =====
-- The templates of services/subagent-service/src/index.ts: the first ten.
use jean_bot.Common.{ℕ, String, List, [], ◌∷◌}
use jean_bot.Types.{RiskLevel}

pub record TemplateDefinition : Type 0 where
  pub role : String
  pub instructions : String
  pub tool_ids : List String
  pub provider : String
  pub model : String
  pub timeout_ms : ℕ
  pub max_parallel_tasks : ℕ
  pub escalation_threshold : RiskLevel

abbrev pub reasoning_template : TemplateDefinition
reasoning_template = record {
  role = "strategist";
  instructions =
      "Resolve ambiguity, verify whether the current mission state is coherent, and only advance when the reasoning chain is defensible.";
  tool_ids =
      "memory.recall" ∷ "memory.summary" ∷ "audit.list" ∷ "policy.evaluate" ∷ "knowledge.summary"
      ∷ [];
  provider = "anthropic";
  model = "claude-haiku-4-5";
  timeout_ms = 90000;
  max_parallel_tasks = 2;
  escalation_threshold = RiskLevel.high;
}

abbrev pub planning_template : TemplateDefinition
planning_template = record {
  role = "planner";
  instructions =
      "Turn the mission objective into a concrete sequence of verifiable actions, dependencies, and fallback branches.";
  tool_ids =
      "memory.recall" ∷ "memory.summary" ∷ "audit.list" ∷ "policy.evaluate" ∷ "knowledge.query"
      ∷ "knowledge.summary" ∷ "filesystem.workspace.context.update" ∷ [];
  provider = "anthropic";
  model = "claude-sonnet-4-6";
  timeout_ms = 120000;
  max_parallel_tasks = 2;
  escalation_threshold = RiskLevel.high;
}

abbrev pub terminal_template : TemplateDefinition
terminal_template = record {
  role = "terminal-operator";
  instructions =
      "Use shell access conservatively, keep cwd scoped to the mission workspace, and prefer diagnostic commands before mutation.";
  tool_ids =
      "terminal.command.run" ∷ "terminal.command.output" ∷ "terminal.command.list"
      ∷ "filesystem.workspace.scan" ∷ "filesystem.checkpoint.create" ∷ "audit.list" ∷ [];
  provider = "anthropic";
  model = "claude-sonnet-4-6";
  timeout_ms = 180000;
  max_parallel_tasks = 2;
  escalation_threshold = RiskLevel.high;
}

abbrev pub browser_template : TemplateDefinition
browser_template = record {
  role = "browser-operator";
  instructions =
      "Navigate deliberately, capture only what supports the mission, and keep a minimal browser footprint.";
  tool_ids =
      "browser.session.navigate" ∷ "browser.session.extract" ∷ "browser.session.capture"
      ∷ "browser.session.events" ∷ "search.query" ∷ "audit.list" ∷ [];
  provider = "anthropic";
  model = "claude-sonnet-4-6";
  timeout_ms = 150000;
  max_parallel_tasks = 2;
  escalation_threshold = RiskLevel.medium;
}

abbrev pub filesystem_template : TemplateDefinition
filesystem_template = record {
  role = "file-operator";
  instructions =
      "Inspect files, validate current workspace state, and insist on checkpoints before risky modifications or deletions.";
  tool_ids =
      "filesystem.workspace.scan" ∷ "filesystem.checkpoint.create"
      ∷ "filesystem.workspace.context.update" ∷ "filesystem.artifact.write" ∷ "filesystem.jean.read"
      ∷ "audit.list" ∷ [];
  provider = "anthropic";
  model = "claude-haiku-4-5";
  timeout_ms = 90000;
  max_parallel_tasks = 3;
  escalation_threshold = RiskLevel.high;
}

abbrev pub memory_template : TemplateDefinition
memory_template = record {
  role = "memory-curator";
  instructions =
      "Load relevant workspace memory, avoid duplicates, and convert noisy history into durable summaries.";
  tool_ids =
      "memory.recall" ∷ "memory.summary" ∷ "memory.remember" ∷ "knowledge.query"
      ∷ "knowledge.summary" ∷ [];
  provider = "openai";
  model = "gpt-4.1-mini";
  timeout_ms = 90000;
  max_parallel_tasks = 2;
  escalation_threshold = RiskLevel.medium;
}

abbrev pub research_template : TemplateDefinition
research_template = record {
  role = "researcher";
  instructions =
      "Collect evidence, distinguish primary signals from noise, and summarize findings with explicit caveats.";
  tool_ids =
      "search.query" ∷ "browser.session.navigate" ∷ "browser.session.extract"
      ∷ "browser.session.capture" ∷ "knowledge.query" ∷ "knowledge.summary" ∷ [];
  provider = "anthropic";
  model = "claude-sonnet-4-6";
  timeout_ms = 180000;
  max_parallel_tasks = 3;
  escalation_threshold = RiskLevel.medium;
}

abbrev pub subagents_template : TemplateDefinition
subagents_template = record {
  role = "coordinator";
  instructions =
      "Distribute safe parallel work, consolidate outputs, and surface contradictions before execution continues.";
  tool_ids =
      "audit.list" ∷ "memory.recall" ∷ "memory.summary" ∷ "policy.evaluate"
      ∷ "filesystem.workspace.context.update" ∷ [];
  provider = "anthropic";
  model = "claude-sonnet-4-6";
  timeout_ms = 120000;
  max_parallel_tasks = 1;
  escalation_threshold = RiskLevel.high;
}

abbrev pub communication_template : TemplateDefinition
communication_template = record {
  role = "communicator";
  instructions =
      "Draft external communication carefully, keep the tone professional, and never bypass approval gates for sending.";
  tool_ids =
      "communication.message.draft" ∷ "communication.message.send" ∷ "communication.message.list"
      ∷ "policy.evaluate" ∷ [];
  provider = "anthropic";
  model = "claude-haiku-4-5";
  timeout_ms = 90000;
  max_parallel_tasks = 1;
  escalation_threshold = RiskLevel.high;
}

abbrev pub skills_template : TemplateDefinition
skills_template = record {
  role = "skill-integrator";
  instructions =
      "Use the smallest safe integration surface, document required configuration, and avoid loading unnecessary skills.";
  tool_ids = "knowledge.query" ∷ "knowledge.summary" ∷ "memory.recall" ∷ "memory.summary" ∷ [];
  provider = "anthropic";
  model = "claude-haiku-4-5";
  timeout_ms = 120000;
  max_parallel_tasks = 1;
  escalation_threshold = RiskLevel.medium;
}

abbrev pub software_development_template : TemplateDefinition
software_development_template = record {
  role = "coder";
  instructions =
      "Implement high-signal backend changes, validate with tests where possible, and call out residual risk explicitly.";
  tool_ids =
      "filesystem.workspace.scan" ∷ "filesystem.checkpoint.create" ∷ "filesystem.artifact.write"
      ∷ "terminal.command.run" ∷ "terminal.command.output" ∷ "memory.recall" ∷ "memory.summary"
      ∷ "knowledge.query" ∷ "knowledge.summary" ∷ [];
  provider = "anthropic";
  model = "claude-sonnet-4-6";
  timeout_ms = 240000;
  max_parallel_tasks = 2;
  escalation_threshold = RiskLevel.high;
}
