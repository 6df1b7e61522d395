-- ===== src/Examples/Missions.antt =====
-- Planning and replanning on a plan of three steps.
use jean_bot.Common.{
  ◌≡◌, ◌≢◌, ◌≤◌, refl, true, false, none, [], length, string_eq, any, List, ◌++◌, ◌∷◌,
}
use jean_bot.Steps.{IsOrdered, ids}
use jean_bot.Types.{Capability, MissionStep}
use jean_bot.Planner.Coverage.{works_on, plan_steps-works_on}
use jean_bot.Replanner.{can_replan, apply, remediation_blueprints}
use jean_bot.Replanner.Order.{repaired, chain, apply-IsOrdered}
use jean_bot.Replanner.Outcome.{apply_steps, IsPatched, apply-IsPatched, apply_refused}
use jean_bot.Planner.{plan_steps}
use jean_bot.Planner.Start.{plan_steps-ready}
use jean_bot.Scheduler.{ready_steps, promote_ready_steps}
use jean_bot.Planner.Order.{plan_steps-IsOrdered}
use jean_bot.Planner.Shape.{IsNumbered, IsDistinct, plan_steps-IsNumbered, plan_steps-IsDistinct}
use jean_bot.Replanner.Budget.{remediation_blueprints_bounds}
use jean_bot.Examples.{
  host_text, thousandths, stamps, audit_objective, free_pass, build, deliver, plan, mission,
  failure_of,
}

plan_steps-IsOrdered_example : IsOrdered [] (plan_steps audit_objective free_pass)
plan_steps-IsOrdered_example = plan_steps-IsOrdered audit_objective free_pass

plan_steps-IsNumbered_example : IsNumbered "m1" 1 (plan_steps audit_objective free_pass)
plan_steps-IsNumbered_example = plan_steps-IsNumbered audit_objective free_pass

plan_steps-IsDistinct_example : IsDistinct (ids (plan_steps audit_objective free_pass))
plan_steps-IsDistinct_example = plan_steps-IsDistinct audit_objective free_pass

remediation_blueprints_bounds_example :
    (1 ≤ length (remediation_blueprints host_text build none "exit code 2"))
    × (length (remediation_blueprints host_text build none "exit code 2") ≤ 12)
remediation_blueprints_bounds_example =
    remediation_blueprints_bounds host_text build none "exit code 2"

plan-IsOrdered : IsOrdered [] plan.steps
plan-IsOrdered = (tt, ((refl, tt), ((refl, tt), tt)))

apply-IsOrdered_example :
    IsOrdered [] (apply host_text thousandths stamps mission (failure_of build)).plan.steps
apply-IsOrdered_example =
    apply-IsOrdered host_text thousandths stamps mission (failure_of build) plan refl refl
      plan-IsOrdered

build_patched : (apply host_text thousandths stamps mission (failure_of build)).patched ≡ true
unfolding apply
build_patched = refl

apply-IsPatched_example :
    IsPatched mission
      (failure_of build)
      plan
      (apply host_text thousandths stamps mission (failure_of build))
apply-IsPatched_example =
    apply-IsPatched host_text thousandths stamps mission (failure_of build) plan refl build_patched

deliver_refused : (apply host_text thousandths stamps mission (failure_of deliver)).patched ≡ false
unfolding apply
deliver_refused = refl

apply_refused_example :
    ((apply host_text thousandths stamps mission (failure_of deliver)).plan ≡ plan)
    × ((apply host_text thousandths stamps mission (failure_of deliver)).replan_patch ≡ none)
apply_refused_example =
    apply_refused host_text thousandths stamps mission (failure_of deliver) plan refl
      deliver_refused

build_allowed : can_replan mission (failure_of build) ≡ true
unfolding can_replan
build_allowed = refl

apply_steps_example :
    (before : List MissionStep) × (rest : List MissionStep) × (plan.steps ≡ before ++ build ∷ rest)
    × ((apply host_text thousandths stamps mission (failure_of build)).patched ≡ true)
    × ((apply host_text thousandths stamps mission (failure_of build)).plan.steps
        ≡ repaired before build rest
            (chain host_text thousandths stamps mission (failure_of build) plan))
apply_steps_example =
    apply_steps host_text thousandths stamps mission (failure_of build) plan refl refl build_allowed

plan_steps-works_on_example :
    any (works_on Capability.research) (plan_steps audit_objective free_pass) ≡ true
plan_steps-works_on_example = plan_steps-works_on audit_objective free_pass Capability.research refl

plan_steps-ready_example :
    ready_steps (promote_ready_steps (plan_steps audit_objective free_pass)) ≢ []
plan_steps-ready_example = plan_steps-ready audit_objective free_pass
