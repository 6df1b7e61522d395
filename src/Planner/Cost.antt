-- ===== src/Planner/Cost.antt =====
-- services/agent-orchestrator/src/cost-control/cost-estimator.ts. The prices have two decimals and
-- the sum is rounded to two, so the model counts cents.
use jean_bot.Common.{ℕ, ◌+◌, List, [], ◌∷◌}
use jean_bot.Types.{Capability, MissionStep}

unfoldable pub cost_by_capability : Capability → ℕ
cost_by_capability Capability.reasoning = 2
cost_by_capability Capability.planning = 3
cost_by_capability Capability.terminal = 2
cost_by_capability Capability.browser = 2
cost_by_capability Capability.filesystem = 1
cost_by_capability Capability.memory = 1
cost_by_capability Capability.research = 2
cost_by_capability Capability.subagents = 3
cost_by_capability Capability.communication = 1
cost_by_capability Capability.skills = 2
cost_by_capability Capability.software_development = 4
cost_by_capability Capability.data_analysis = 3
cost_by_capability Capability.writing = 2
cost_by_capability Capability.automation = 2
cost_by_capability Capability.project_management = 1
cost_by_capability Capability.heartbeat = 1
cost_by_capability Capability.security = 3
cost_by_capability Capability.learning = 1
cost_by_capability Capability.multimodality = 3
cost_by_capability Capability.finance = 5
cost_by_capability Capability.orchestration = 3

unfoldable pub estimate_plan_cost : List MissionStep → ℕ
unfolding cost_by_capability
estimate_plan_cost [] = 0
estimate_plan_cost (s ∷ steps) = cost_by_capability s.capability + estimate_plan_cost steps
