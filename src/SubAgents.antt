-- ===== src/SubAgents.antt =====
-- services/subagent-service/src/index.ts: which templates a plan gets, and how many runs may be
-- active at once. The runs' own records are kept in files, and are left out.
mod Definitions
mod MoreDefinitions
pub mod Spawning
pub mod Capacity
pub use Definitions.{TemplateDefinition}
use Definitions.{
  reasoning_template, planning_template, terminal_template, browser_template, filesystem_template,
  memory_template, research_template, subagents_template, communication_template, skills_template,
  software_development_template,
}
use MoreDefinitions.{
  data_analysis_template, writing_template, automation_template, project_management_template,
  heartbeat_template, security_template, learning_template, multimodality_template,
  finance_template, orchestration_template,
}
use jean_bot.Common.{
  ℕ, ◌+◌, ◌/◌, ◌*◌, String, Bool, true, false, not, ◌&&◌, ◌||◌, Option, none, some, List, [], ◌∷◌,
  ◌++◌, map, if◌then◌else◌, ltb, leb, ◌==◌, nat_eq, string_eq, length, filter, includes, or_default,
  template,
}
use jean_bot.Types.{Capability, MissionStep, MissionPlan, capability_eq, capability_name}
use jean_bot.Scheduler.{SubAgentTemplate}
use jean_bot.ModelRouter.{ProviderEnvironment, ModelSelection, apply_provider_preference}

abbrev pub template_definition : Capability → TemplateDefinition
template_definition Capability.reasoning = reasoning_template
template_definition Capability.planning = planning_template
template_definition Capability.terminal = terminal_template
template_definition Capability.browser = browser_template
template_definition Capability.filesystem = filesystem_template
template_definition Capability.memory = memory_template
template_definition Capability.research = research_template
template_definition Capability.subagents = subagents_template
template_definition Capability.communication = communication_template
template_definition Capability.skills = skills_template
template_definition Capability.software_development = software_development_template
template_definition Capability.data_analysis = data_analysis_template
template_definition Capability.writing = writing_template
template_definition Capability.automation = automation_template
template_definition Capability.project_management = project_management_template
template_definition Capability.heartbeat = heartbeat_template
template_definition Capability.security = security_template
template_definition Capability.learning = learning_template
template_definition Capability.multimodality = multimodality_template
template_definition Capability.finance = finance_template
template_definition Capability.orchestration = orchestration_template

abbrev pub at_most : ℕ → ℕ → ℕ
at_most most n = if leb n most then n else most

abbrev pub at_least : ℕ → ℕ → ℕ
at_least least n = if leb least n then n else least

-- `Math.max(1, Math.min(4, Math.max(maxParallelTasks, Math.ceil(stepCount / 2))))`.
unfoldable pub parallel_tasks : ℕ → ℕ → ℕ
parallel_tasks own step_count = at_least 1 (at_most 4 (at_least own ((step_count + 1) / 2)))

unfoldable pub template_for_capability : ProviderEnvironment → Capability → ℕ → SubAgentTemplate
unfolding parallel_tasks apply_provider_preference
template_for_capability env capability step_count =
    let definition = template_definition capability in
    let selection = apply_provider_preference env (record {
      provider = definition.provider;
      model = definition.model;
      reason =
          template
            ("Default template route for the " ∷ capability_name capability ∷ " capability." ∷ []);
    }) in
    record {
      id = template ("subagent-" ∷ capability_name capability ∷ []);
      role = definition.role;
      specialization = capability;
      instructions = definition.instructions;
      max_parallel_tasks = parallel_tasks definition.max_parallel_tasks step_count;
      timeout_ms = some definition.timeout_ms;
      provider = some selection.provider;
      model = some selection.model;
      tool_ids = some definition.tool_ids;
      escalation_threshold = some definition.escalation_threshold;
    }

-- The map of counts, in the order in which its keys were put in.
unfoldable pub count_in : Capability → List (Capability × ℕ) → List (Capability × ℕ)
count_in capability [] = (capability, 1) ∷ []
count_in capability (entry ∷ entries) =
    let later = entry ∷ count_in capability entries in
    if entry.0 == capability then (entry.0, entry.1 + 1) ∷ entries else later

unfoldable pub capability_counts : List (Capability × ℕ) → List MissionStep → List (Capability × ℕ)
unfolding count_in
capability_counts counts [] = counts
capability_counts counts (step ∷ steps) = capability_counts (count_in step.capability counts) steps

-- The comparison of the sort, with `localeCompare` of two names as a test.
unfoldable pub comes_before : (String → String → Bool) → Capability × ℕ → Capability × ℕ → Bool
comes_before name_before left right =
    ltb right.1 left.1
    || left.1 == right.1 && name_before (capability_name left.0) (capability_name right.0)

unfoldable pub insert_count :
    (String → String → Bool) → Capability × ℕ → List (Capability × ℕ) → List (Capability × ℕ)
unfolding comes_before
insert_count name_before entry [] = entry ∷ []
insert_count name_before entry (other ∷ others) =
    let behind = other ∷ insert_count name_before entry others in
    if comes_before name_before entry other then entry ∷ other ∷ others else behind

unfoldable pub sort_counts :
    (String → String → Bool) → List (Capability × ℕ) → List (Capability × ℕ)
unfolding insert_count
sort_counts name_before [] = []
sort_counts name_before (entry ∷ entries) =
    insert_count name_before entry (sort_counts name_before entries)

unfoldable pub spawn_for_plan :
    ProviderEnvironment → (String → String → Bool) → MissionPlan → List SubAgentTemplate
unfolding sort_counts capability_counts template_for_capability
spawn_for_plan env name_before plan =
    map (λ entry. template_for_capability env entry.0 entry.1)
      (sort_counts name_before (capability_counts [] plan.steps))

unfoldable pub assign_step : MissionStep → String
assign_step step = (template_definition step.capability).role

unfoldable pub normalize_timeout : SubAgentTemplate → ℕ
normalize_timeout t = at_most (15 * 60000) (at_least 5000 (or_default t.timeout_ms 120000))

unfoldable pub capability_key : String → Capability → String
capability_key workspace_id capability =
    template (workspace_id ∷ ":" ∷ capability_name capability ∷ [])

pub record CapacityTicket : Type 0 where
  pub workspace_id : String
  pub capability : Capability
  pub run_id : String

-- The two maps of sets: a key without a set is one with the empty set.
pub record ActiveRuns : Type 0 where
  pub by_workspace : String → List String
  pub by_capability : String → List String

-- `set.add(id)`, and `set.delete(id)`.
abbrev pub add_id : String → List String → List String
add_id id ids = if includes ids id then ids else ids ++ id ∷ []

abbrev pub drop_id : String → List String → List String
drop_id id ids = filter (λ i. not (i == id)) ids

abbrev pub change :
    String → (List String → List String) → (String → List String) → String → List String
change key f sets other = if other == key then f (sets other) else sets other

unfoldable pub claim_run : CapacityTicket → ActiveRuns → ActiveRuns
unfolding capability_key
claim_run ticket active = record {
  by_workspace = change ticket.workspace_id (add_id ticket.run_id) active.by_workspace;
  by_capability =
      change (capability_key ticket.workspace_id ticket.capability) (add_id ticket.run_id)
        active.by_capability;
}

unfoldable pub release_run : CapacityTicket → ActiveRuns → ActiveRuns
unfolding capability_key
release_run ticket active = record {
  by_workspace = change ticket.workspace_id (drop_id ticket.run_id) active.by_workspace;
  by_capability =
      change (capability_key ticket.workspace_id ticket.capability) (drop_id ticket.run_id)
        active.by_capability;
}

unfoldable pub has_capacity : ActiveRuns → String → Capability → SubAgentTemplate → ℕ → Bool
unfolding capability_key
has_capacity active workspace_id capability t max_parallelism =
    ltb (length (active.by_workspace workspace_id)) (at_least 1 max_parallelism)
    && ltb (length (active.by_capability (capability_key workspace_id capability)))
        (at_least 1 t.max_parallel_tasks)

-- One look of `waitForCapacity`: the run is claimed when there is room.
unfoldable pub try_claim : CapacityTicket → SubAgentTemplate → ℕ → ActiveRuns → Option ActiveRuns
unfolding has_capacity claim_run
try_claim ticket t max_parallelism active =
    if has_capacity active ticket.workspace_id ticket.capability t max_parallelism
    then some (claim_run ticket active)
    else none
