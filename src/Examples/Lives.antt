-- ===== src/Examples/Lives.antt =====
-- The life of a mission whose policy requires an approval, and of one that runs.
use jean_bot.Common.{ℕ, ◌≡◌, refl, true, false, none, some, [], ◌∷◌, string_eq}
use jean_bot.Types.{
  MissionStatus, ApprovalStatus, ApprovalRecord, MissionRecord, MissionPlan, Stamps,
  approval_status_eq, mission_status_eq,
}
use jean_bot.Lifecycle.{
  MissionStateStore, returned, threw, store_of, PlanningHost, ExecutionHost, finished, raised,
  create_mission, process_planning_job, approve_mission, process_execution_job, run_mission,
}
use jean_bot.Lifecycle.Coherence.{IsCoherent}
use jean_bot.Lifecycle.PlanningSteps.{pending_beside}
use jean_bot.Lifecycle.Reaching.{created, run, Reach-IsCoherent}
use jean_bot.Lifecycle.Endings.{JobEnd, process_execution_job-JobEnd}
use jean_bot.Lifecycle.Approvals.{released_status, approve_mission-gate}
use jean_bot.Lifecycle.Holding.{IsHeld, run_mission-IsHeld}
use jean_bot.Lifecycle.Planned.{IsPlanned, process_planning_job-IsPlanned}
use jean_bot.Examples.{host_text, thousandths, stamps, plan, mission, audit_objective, gather}
use jean_bot.Examples.Execution.{executor_result}
use jean_bot.Examples.Agents.{plain_env, any_order}

abbrev pub planner : PlanningHost
planner = record {
  js = host_text;
  env = plain_env;
  name_before = any_order;
  schema_accepts = λ p. true;
}

abbrev pub all_stamps : ℕ → Stamps
all_stamps n = stamps

-- The executor completes the only step of the plan.
abbrev gathered : MissionPlan
gathered = record plan { steps = gather ∷ [] }

abbrev gathered_mission : MissionRecord
gathered_mission = record mission { plan = some gathered; status = MissionStatus.planned }

abbrev host : ExecutionHost
host = record {
  planning = planner;
  num = thousandths;
  is_local = true;
  prepares = λ m. true;
  execute = λ m. finished (record m { plan = some gathered }) executor_result;
  remember_error = λ m. none;
  distribute = λ s. threw s;
}

abbrev store : MissionStateStore
store = record { cached = gathered_mission; persisted = gathered_mission; log = [] }

Reach-IsCoherent_example : IsCoherent (
    store_of
      (run_mission host all_stamps all_stamps "u1" (create_mission stamps audit_objective none)))
Reach-IsCoherent_example =
    Reach-IsCoherent host refl
      (run all_stamps all_stamps "u1" (created stamps audit_objective none))

process_execution_job-JobEnd_example :
    JobEnd host all_stamps "u1" store (process_execution_job host all_stamps "u1" store)
process_execution_job-JobEnd_example = process_execution_job-JobEnd host all_stamps "u1" store refl

abbrev approval : ApprovalRecord
approval = record {
  id = "a1";
  mission_id = "m1";
  tenant_id = none;
  workspace_id = "w1";
  status = ApprovalStatus.pending;
  reason = "";
  required_actions = [];
  created_at = "";
  updated_at = "";
  approved_by = none;
}

abbrev waiting_mission : MissionRecord
waiting_mission = record mission {
  status = MissionStatus.awaiting_approval;
  approvals = some (approval ∷ record approval { id = "a2" } ∷ []);
}

abbrev waiting : MissionStateStore
waiting = record { cached = waiting_mission; persisted = waiting_mission; log = [] }

approve_mission-gate_example :
    (t : MissionStateStore) × (approve_mission all_stamps "a1" "u1" waiting ≡ returned t)
    × (t.persisted.status
        ≡ released_status (pending_beside "a1" (approval ∷ record approval { id = "a2" } ∷ [])))
approve_mission-gate_example =
    approve_mission-gate all_stamps "a1" "u1" waiting approval refl refl refl

-- A mission of status planned, with a pending approval.
abbrev asked : MissionStateStore
asked =
    let m = record waiting_mission { status = MissionStatus.planned } in
    record { cached = m; persisted = m; log = [] }

-- A host with the same planning and queue, whose executor throws.
abbrev other_host : ExecutionHost
other_host = record host { execute = λ m. raised m none; prepares = λ m. false }

run_mission-IsHeld_example :
    (run_mission host all_stamps all_stamps "u1" asked
      ≡ run_mission other_host all_stamps all_stamps "u1" asked)
    × IsHeld (store_of (run_mission host all_stamps all_stamps "u1" asked))
run_mission-IsHeld_example =
    run_mission-IsHeld host other_host all_stamps all_stamps "u1" asked refl refl refl

process_planning_job-IsPlanned_example :
    (t : MissionStateStore) × (process_planning_job planner stamps store ≡ returned t)
    × IsPlanned planner stamps store t
process_planning_job-IsPlanned_example = process_planning_job-IsPlanned planner stamps store refl
