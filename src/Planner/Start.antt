-- ===== src/Planner/Start.antt =====
-- A new plan can be started.
use jean_bot.Common.{
  ℕ, ◌+◌, String, ◌≡◌, ◌≢◌, refl, false, List, [], ◌∷◌, if-cases, all, All, All-append, unique,
  length,
}
use jean_bot.Types.{
  Capability, Stage, StepStatus, MissionObjective, PolicyDecision, step_status_eq, capability_eq,
}
use jean_bot.Scheduler.{has_status, ready_steps, promote_ready_steps}
use jean_bot.Scheduler.Progress.{IsSettled, ready_steps-ne-nil}
use jean_bot.Planner.{
  create_step, execution_steps, opening_steps, working_steps, closing_steps, needs_checkpoint,
  needs_coordination, plan_steps, is_covered, safety_checkpoint, step_id,
}
use jean_bot.Planner.Order.{plan_steps-IsOrdered}

create_step-IsSettled :
    (id : String) (index : ℕ) (c : Capability) (deps : List String) (stage : Stage)
    → IsSettled (create_step id index c deps stage)
unfolding create_step
create_step-IsSettled id index c [] stage = (λ e. cc, λ e. cc)
create_step-IsSettled id index c (d ∷ ds) stage = (λ e. cc, λ e. cc)

execution_steps-IsSettled :
    (id barrier : String) (index : ℕ) (cs : List Capability)
    → All IsSettled (execution_steps id barrier index cs)
unfolding execution_steps
execution_steps-IsSettled id barrier index [] = tt
execution_steps-IsSettled id barrier index (c ∷ cs) =
    if-cases (All IsSettled) (is_covered c)
      (λ covered. execution_steps-IsSettled id barrier index cs)
      (λ free. (
        create_step-IsSettled id index c (barrier ∷ []) Stage.execution,
        execution_steps-IsSettled id barrier (index + 1) cs,
      ))

closing_steps-IsSettled :
    (id : String) (index : ℕ) (awaited : List String)
    → All IsSettled (closing_steps id index awaited)
unfolding closing_steps
closing_steps-IsSettled id index awaited = (
  create_step-IsSettled id index Capability.orchestration awaited Stage.verification,
  (
    create_step-IsSettled id (index + 1) Capability.reasoning (step_id id index ∷ [])
        Stage.verification,
    (
      create_step-IsSettled id (index + 2) Capability.writing (step_id id (index + 1) ∷ [])
          Stage.delivery,
      tt,
    ),
  ),
)

working_steps-IsSettled :
    (id barrier : String) (index : ℕ) (caps : List Capability)
    → All IsSettled (working_steps id barrier index caps)
unfolding working_steps
working_steps-IsSettled id barrier index caps =
    let next = index + length (execution_steps id barrier index caps) in
    let work = execution_steps-IsSettled id barrier index caps in
    if-cases (All IsSettled) (needs_coordination caps)
      (λ many. All-append IsSettled (execution_steps id barrier index caps) _ work (
        create_step-IsSettled id next Capability.project_management _ Stage.execution,
        closing_steps-IsSettled id (next + 1) _,
      ))
      (λ few.
        All-append IsSettled (execution_steps id barrier index caps) _ work
          (closing_steps-IsSettled id next _))

opening_steps-IsSettled : (id : String) → All IsSettled (opening_steps id)
unfolding opening_steps
opening_steps-IsSettled id = (
  create_step-IsSettled id 1 Capability.filesystem [] Stage.preflight,
  (
    create_step-IsSettled id 2 Capability.memory (step_id id 1 ∷ []) Stage.preflight,
    (
      create_step-IsSettled id 3 Capability.security (step_id id 2 ∷ []) Stage.analysis,
      (create_step-IsSettled id 4 Capability.planning (step_id id 3 ∷ []) Stage.analysis, tt),
    ),
  ),
)

safety_checkpoint-IsSettled :
    (id : String) (index : ℕ) (planning_id : String)
    → IsSettled (safety_checkpoint id index planning_id)
unfolding safety_checkpoint
safety_checkpoint-IsSettled id index planning_id = (λ e. cc, λ e. cc)

plan_steps-IsSettled :
    (objective : MissionObjective) (decision : PolicyDecision)
    → All IsSettled (plan_steps objective decision)
unfolding plan_steps
plan_steps-IsSettled objective decision =
    let id = objective.id in
    let caps = unique objective.required_capabilities in
    let opened = opening_steps-IsSettled id in
    let rest = safety_checkpoint id 5 (step_id id 4) ∷ working_steps id (step_id id 5) 6 caps in
    let guarded : All IsSettled rest = (
      safety_checkpoint-IsSettled id 5 (step_id id 4),
      working_steps-IsSettled id (step_id id 5) 6 caps,
    ) in
    if-cases (All IsSettled) (needs_checkpoint objective decision)
      (λ careful. All-append IsSettled (opening_steps id) rest opened guarded)
      (λ direct.
        All-append IsSettled (opening_steps id) (working_steps id (step_id id 4) 5 caps) opened
          (working_steps-IsSettled id (step_id id 4) 5 caps))

plan_steps-open :
    (objective : MissionObjective) (decision : PolicyDecision)
    → all (has_status StepStatus.completed) (plan_steps objective decision) ≡ false
unfolding plan_steps opening_steps create_step
plan_steps-open objective decision =
    if-cases (λ steps. all (has_status StepStatus.completed) steps ≡ false)
      (needs_checkpoint objective decision) (λ careful. refl) (λ direct. refl)

-- Whatever the objective and the policy's decision, the executor finds a step of a new plan that is
-- ready.
pub plan_steps-ready :
    (objective : MissionObjective) (decision : PolicyDecision)
    → ready_steps (promote_ready_steps (plan_steps objective decision)) ≢ []
plan_steps-ready objective decision =
    ready_steps-ne-nil (plan_steps objective decision) (plan_steps-IsOrdered objective decision)
      (plan_steps-IsSettled objective decision) (plan_steps-open objective decision)
