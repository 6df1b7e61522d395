-- ===== src/SubAgents/MoreDefinitions.antt =====
-- The templates of services/subagent-service/src/index.ts: the others.
use jean_bot.Common.{[], ◌∷◌}
use jean_bot.Types.{RiskLevel}
use jean_bot.SubAgents.Definitions.{TemplateDefinition}

abbrev pub data_analysis_template : TemplateDefinition
data_analysis_template = record {
  role = "analyst";
  instructions =
      "Structure data, run light analysis, and return decisions that can be defended from the evidence.";
  tool_ids =
      "memory.recall" ∷ "memory.summary" ∷ "terminal.command.run" ∷ "terminal.command.output"
      ∷ "knowledge.query" ∷ "knowledge.summary" ∷ "filesystem.artifact.write" ∷ [];
  provider = "anthropic";
  model = "claude-sonnet-4-6";
  timeout_ms = 180000;
  max_parallel_tasks = 2;
  escalation_threshold = RiskLevel.medium;
}

abbrev pub writing_template : TemplateDefinition
writing_template = record {
  role = "writer";
  instructions =
      "Produce concise structured output that can be handed directly to the user or stored as knowledge without cleanup.";
  tool_ids =
      "knowledge.document.ingest" ∷ "memory.recall" ∷ "memory.remember"
      ∷ "filesystem.artifact.write" ∷ "audit.list" ∷ [];
  provider = "anthropic";
  model = "claude-haiku-4-5";
  timeout_ms = 90000;
  max_parallel_tasks = 2;
  escalation_threshold = RiskLevel.medium;
}

abbrev pub automation_template : TemplateDefinition
automation_template = record {
  role = "automation-engineer";
  instructions =
      "Design repeatable workflows with clear triggers, failure handling, and observable outputs.";
  tool_ids =
      "audit.list" ∷ "knowledge.query" ∷ "knowledge.summary" ∷ "memory.recall"
      ∷ "automation.heartbeat.list" ∷ "automation.heartbeat.summary"
      ∷ "filesystem.workspace.context.update" ∷ [];
  provider = "anthropic";
  model = "claude-sonnet-4-6";
  timeout_ms = 120000;
  max_parallel_tasks = 1;
  escalation_threshold = RiskLevel.medium;
}

abbrev pub project_management_template : TemplateDefinition
project_management_template = record {
  role = "project-manager";
  instructions =
      "Track progress, consolidate execution state, and surface blockers or missing dependencies before they become failures.";
  tool_ids =
      "audit.list" ∷ "memory.recall" ∷ "memory.summary" ∷ "policy.evaluate"
      ∷ "filesystem.workspace.context.update" ∷ "filesystem.artifact.write" ∷ [];
  provider = "anthropic";
  model = "claude-haiku-4-5";
  timeout_ms = 90000;
  max_parallel_tasks = 1;
  escalation_threshold = RiskLevel.medium;
}

abbrev pub heartbeat_template : TemplateDefinition
heartbeat_template = record {
  role = "monitor";
  instructions =
      "Focus on checks, anomalies, and reliable notification criteria with minimal noise.";
  tool_ids =
      "audit.list" ∷ "search.query" ∷ "memory.recall" ∷ "automation.heartbeat.list"
      ∷ "automation.heartbeat.summary" ∷ "communication.message.draft" ∷ [];
  provider = "anthropic";
  model = "claude-haiku-4-5";
  timeout_ms = 90000;
  max_parallel_tasks = 2;
  escalation_threshold = RiskLevel.medium;
}

abbrev pub security_template : TemplateDefinition
security_template = record {
  role = "security-reviewer";
  instructions =
      "Reduce blast radius, flag unsafe actions, and prefer approval or rollback paths over optimistic execution.";
  tool_ids =
      "policy.evaluate" ∷ "audit.list" ∷ "memory.recall" ∷ "memory.summary" ∷ "knowledge.summary"
      ∷ [];
  provider = "anthropic";
  model = "claude-sonnet-4-6";
  timeout_ms = 120000;
  max_parallel_tasks = 1;
  escalation_threshold = RiskLevel.high;
}

abbrev pub learning_template : TemplateDefinition
learning_template = record {
  role = "learning-curator";
  instructions =
      "Extract reusable lessons, preferences, and operator guidance from the mission without copying noise.";
  tool_ids =
      "memory.recall" ∷ "memory.remember" ∷ "knowledge.document.ingest" ∷ "knowledge.summary" ∷ [];
  provider = "openai";
  model = "gpt-4.1-mini";
  timeout_ms = 90000;
  max_parallel_tasks = 1;
  escalation_threshold = RiskLevel.medium;
}

abbrev pub multimodality_template : TemplateDefinition
multimodality_template = record {
  role = "multimodal-operator";
  instructions =
      "Summarize non-text artifacts carefully and only claim what can be observed from the available media context.";
  tool_ids =
      "browser.session.navigate" ∷ "browser.session.extract" ∷ "browser.session.capture"
      ∷ "knowledge.query" ∷ [];
  provider = "anthropic";
  model = "claude-sonnet-4-6";
  timeout_ms = 120000;
  max_parallel_tasks = 1;
  escalation_threshold = RiskLevel.medium;
}

abbrev pub finance_template : TemplateDefinition
finance_template = record {
  role = "finance-operator";
  instructions =
      "Treat all finance actions as approval gated, preserve traceability, and avoid silent assumptions around money movement.";
  tool_ids =
      "policy.evaluate" ∷ "audit.list" ∷ "communication.message.draft"
      ∷ "communication.message.list" ∷ [];
  provider = "anthropic";
  model = "claude-opus-4-6";
  timeout_ms = 150000;
  max_parallel_tasks = 1;
  escalation_threshold = RiskLevel.critical;
}

abbrev pub orchestration_template : TemplateDefinition
orchestration_template = record {
  role = "orchestrator";
  instructions =
      "Merge sub-results into one coherent answer, make conflicts explicit, and keep the final state consistent.";
  tool_ids =
      "audit.list" ∷ "memory.recall" ∷ "memory.summary" ∷ "knowledge.document.ingest"
      ∷ "filesystem.artifact.write" ∷ "filesystem.workspace.context.update" ∷ [];
  provider = "anthropic";
  model = "claude-sonnet-4-6";
  timeout_ms = 120000;
  max_parallel_tasks = 1;
  escalation_threshold = RiskLevel.high;
}
