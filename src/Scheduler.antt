-- ===== src/Scheduler.antt =====
-- The scheduling part of services/agent-orchestrator/src/executor/mission-executor.ts: which steps
-- are ready, which of them run together, and how often a step is tried.
pub mod Promotion
pub mod Progress
pub mod Batches
use jean_bot.Common.{
  ℕ, ◌+◌, String, Bool, true, false, not, ◌&&◌, ◌||◌, Option, none, some, List, [], ◌∷◌, ◌++◌,
  if◌then◌else◌, leb, ◌==◌, string_eq, length, find, filter, all,
}
use jean_bot.Types.{
  Capability, RiskLevel, StepStatus, Stage, MissionStep, capability_eq, step_status_eq, stage_eq,
}

pub record SubAgentTemplate : Type 0 where
  pub id : String
  pub role : String
  pub specialization : Capability
  pub instructions : String
  pub max_parallel_tasks : ℕ
  pub timeout_ms : Option ℕ
  pub provider : Option String
  pub model : Option String
  pub tool_ids : Option (List String)
  pub escalation_threshold : Option RiskLevel

abbrev pub is_completed : Option MissionStep → Bool
is_completed none = false
is_completed (some s) = s.status == StepStatus.completed

-- `isReady` of the executor; the dependencies are looked up among `steps`.
unfoldable pub is_ready : MissionStep → List MissionStep → Bool
is_ready step steps =
    let barred =
      step.status == StepStatus.completed
      || step.status == StepStatus.running
      || step.status == StepStatus.skipped in
    let met =
      all (λ dependency. is_completed (find (λ candidate. candidate.id == dependency) steps))
        step.depends_on in
    if barred then false else met

-- What one round of the loop of `promoteReadySteps` makes of a step.
unfoldable pub promoted : MissionStep → List MissionStep → MissionStep
unfolding is_ready
promoted step steps =
    if is_ready step steps
    then record step { status = StepStatus.ready }
    else if step.status == StepStatus.ready
    then record step { status = StepStatus.pending }
    else step

-- The loop: it writes into the array that it reads, so `done` holds the steps already written.
unfoldable pub promote_from : List MissionStep → List MissionStep → List MissionStep
unfolding promoted
promote_from done [] = done
promote_from done (step ∷ rest) =
    promote_from (done ++ promoted step (done ++ step ∷ rest) ∷ []) rest

unfoldable pub promote_ready_steps : List MissionStep → List MissionStep
unfolding promote_from
promote_ready_steps steps = promote_from [] steps

abbrev pub has_status : StepStatus → MissionStep → Bool
has_status status step = step.status == status

unfoldable pub ready_steps : List MissionStep → List MissionStep
ready_steps steps = filter (has_status StepStatus.ready) steps

-- `new Map(templates.map(…)).get(capability)`: of equal keys the last one counts.
unfoldable pub template_for : Capability → List SubAgentTemplate → Option SubAgentTemplate
template_for capability [] = none
template_for capability (t ∷ ts) = elim (template_for capability ts) [
  | some later ↦ some later
  | none ↦ if t.specialization == capability then some t else none
]

abbrev pub at_least_one : ℕ → ℕ
at_least_one n = if leb 1 n then n else 1

-- `Math.max(1, template?.maxParallelTasks ?? 1)`.
unfoldable pub limit_for : List SubAgentTemplate → Capability → ℕ
unfolding template_for
limit_for templates capability = elim (template_for capability templates) [
  | none ↦ 1
  | some t ↦ at_least_one t.max_parallel_tasks
]

-- The map `perCapability`, as a function.
abbrev pub bump : (Capability → ℕ) → Capability → Capability → ℕ
bump counts capability c = if c == capability then counts c + 1 else counts c

-- The loop of `selectBatch`: `taken` is the length of the batch so far.
unfoldable pub select_from :
    (Capability → ℕ) → ℕ → (Capability → ℕ) → ℕ → List MissionStep → List MissionStep
select_from limits max_batch counts taken [] = []
select_from limits max_batch counts taken (step ∷ rest) =
    let skipped = select_from limits max_batch counts taken rest in
    let chosen =
      step ∷ select_from limits max_batch (bump counts step.capability) (taken + 1) rest in
    if leb max_batch taken
    then []
    else if leb (limits step.capability) (counts step.capability)
    then skipped
    else chosen

unfoldable pub select_batch : List MissionStep → List SubAgentTemplate → ℕ → List MissionStep
unfolding select_from limit_for
select_batch ready templates max_parallelism =
    select_from (limit_for templates) (at_least_one max_parallelism) (λ c. 0) 0 ready

unfoldable pub is_thorough : Capability → Bool
is_thorough Capability.software_development = true
is_thorough Capability.terminal = true
is_thorough Capability.browser = true
is_thorough Capability.research = true
is_thorough _ = false

abbrev is_preflight : Option Stage → Bool
is_preflight none = false
is_preflight (some stage) = stage == Stage.preflight

unfoldable pub retry_limit : MissionStep → ℕ
unfolding is_thorough
retry_limit step =
    if is_preflight step.stage || step.capability == Capability.security
    then 1
    else if is_thorough step.capability
    then 3
    else 2
