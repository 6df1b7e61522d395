-- ===== src/Lifecycle/Reaching.antt =====
-- The states that the operations of one process lead to.
use jean_bot.Common.{ℕ, String, true, false, ◌&&◌, ◌≡◌, refl, ap, Option, ◌==◌, string_eq, if-cases}
use jean_bot.Types.{MissionStatus, MissionObjective, Stamps, approval_status_eq, mission_status_eq}
use jean_bot.Lifecycle.Store.{
  MissionStateStore, Outcome, returned, threw, store_of, and_then, get, transition_mission,
  set_mission_status,
}
use jean_bot.Lifecycle.Planning.{
  create_mission, process_planning_job, plan_mission, has_pending, approve_mission,
}
use jean_bot.Lifecycle.Running.{
  ExecutionHost, process_execution_job, needs_plan, run_planned, run_mission,
}
use jean_bot.Lifecycle.Coherence.{
  has_run, IsCoherent, IsClear, transition_mission-IsCoherent, transition_mission-IsClear,
  get-IsCoherent, after_execute-IsCoherent,
}
use jean_bot.Lifecycle.PlanningSteps.{
  create_mission-IsCoherent, process_planning_job-IsCoherent, plan_mission-IsCoherent,
  approve_mission-IsCoherent,
}

process_execution_job-IsCoherent :
    (host : ExecutionHost) (stamps : ℕ → Stamps) (actor : String) (s : MissionStateStore)
    → host.is_local ≡ true
    → IsCoherent s
    → IsCoherent (store_of (process_execution_job host stamps actor s))
unfolding process_execution_job get
process_execution_job-IsCoherent host stamps actor s is_local h =
    let running =
      transition_mission (stamps 0) MissionStatus.running "Mission execution started." actor
        (get s) in
    if-cases (λ o. IsCoherent (store_of o)) (has_pending s.persisted)
      (λ waits.
        transition_mission-IsCoherent (stamps 0) MissionStatus.blocked _ _ (get s) h.agrees.logged
          refl)
      (λ free.
        let clear : IsClear running =
          transition_mission-IsClear (stamps 0) MissionStatus.running _ actor (get s)
            h.agrees.logged free in
        if-cases (λ o. IsCoherent (store_of o)) (host.prepares s.persisted)
          (λ ready.
            rw is_local
              (after_execute-IsCoherent host stamps (host.execute s.persisted) running clear))
          (λ fails.
            transition_mission-IsCoherent (stamps 0) MissionStatus.running _ actor (get s)
              h.agrees.logged free))

store_of-and_then :
    (o : Outcome) (next : MissionStateStore → Outcome)
    → IsCoherent (store_of o)
    → ((s : MissionStateStore) → IsCoherent s → IsCoherent (store_of (next s)))
    → IsCoherent (store_of (and_then o next))
store_of-and_then (returned s) next h k = k s h
store_of-and_then (threw s) next h k = h

run_planned-IsCoherent :
    (host : ExecutionHost) (stamps job_stamps : ℕ → Stamps) (actor : String) (s : MissionStateStore)
    → host.is_local ≡ true
    → IsCoherent s
    → IsCoherent (store_of (run_planned host stamps job_stamps actor s))
unfolding run_planned
run_planned-IsCoherent host stamps job_stamps actor s is_local h =
    let queued =
      transition_mission (stamps 2) MissionStatus.queued_for_execution
        "Mission queued for execution." actor s in
    let coherent : IsCoherent queued =
      transition_mission-IsCoherent (stamps 2) MissionStatus.queued_for_execution _ actor s
        h.agrees.logged refl in
    if-cases (λ o. IsCoherent (store_of o)) (s.persisted.status == MissionStatus.awaiting_approval)
      (λ waits. get-IsCoherent s h)
      (λ goes.
        if-cases (λ o. IsCoherent (store_of o)) host.is_local
          (λ here.
            store_of-and_then (process_execution_job host job_stamps actor queued)
              (λ s. returned (get s))
              (process_execution_job-IsCoherent host job_stamps actor queued is_local coherent)
              get-IsCoherent)
          (λ later. get-IsCoherent queued coherent))

run_mission-IsCoherent :
    (host : ExecutionHost) (stamps job_stamps : ℕ → Stamps) (actor : String) (s : MissionStateStore)
    → host.is_local ≡ true
    → IsCoherent s
    → IsCoherent (store_of (run_mission host stamps job_stamps actor s))
unfolding run_mission
run_mission-IsCoherent host stamps job_stamps actor s is_local h =
    if-cases (λ o. IsCoherent (store_of o)) (needs_plan s.persisted)
      (λ plans.
        store_of-and_then (plan_mission host.planning stamps host.is_local s)
          (run_planned host stamps job_stamps actor)
          (plan_mission-IsCoherent host.planning stamps host.is_local s h)
          (λ t. run_planned-IsCoherent host stamps job_stamps actor t is_local))
      (λ planned. run_planned-IsCoherent host stamps job_stamps actor s is_local h)

-- What the operations of one process make of a new mission. A status that is set by hand is not
-- one of a mission that was let run.
pub data Reach (host : ExecutionHost) : MissionStateStore → Type 0 where
  created :
      (stamps : Stamps) (objective : MissionObjective) (tenant : Option String)
      → Reach host (create_mission stamps objective tenant)
  planned :
      {s : MissionStateStore} (stamps : ℕ → Stamps)
      → Reach host s
      → Reach host (store_of (plan_mission host.planning stamps host.is_local s))
  planning_job :
      {s : MissionStateStore} (stamps : Stamps)
      → Reach host s
      → Reach host (store_of (process_planning_job host.planning stamps s))
  approving :
      {s : MissionStateStore} (stamps : ℕ → Stamps) (approval_id approver_id : String)
      → Reach host s
      → Reach host (store_of (approve_mission stamps approval_id approver_id s))
  execution_job :
      {s : MissionStateStore} (stamps : ℕ → Stamps) (actor : String)
      → Reach host s
      → Reach host (store_of (process_execution_job host stamps actor s))
  run :
      {s : MissionStateStore} (stamps job_stamps : ℕ → Stamps) (actor : String)
      → Reach host s
      → Reach host (store_of (run_mission host stamps job_stamps actor s))
  set_status :
      {s : MissionStateStore} (stamps : Stamps) (status : MissionStatus)
      → Reach host s
      → has_run status ≡ false
      → Reach host (set_mission_status stamps status s)

-- In every state that the operations of a process with a local queue lead to, the copy of the
-- record is the persisted record, the record's transitions are the persisted list, the last of
-- them led to the record's status (a draft has none), and a mission that is running, completed or
-- failed has no pending approval.
pub Reach-IsCoherent :
    (host : ExecutionHost)
    → host.is_local ≡ true
    → {s : MissionStateStore} → Reach host s
    → IsCoherent s
unfolding set_mission_status
Reach-IsCoherent host is_local (created stamps objective tenant) =
    create_mission-IsCoherent stamps objective tenant
Reach-IsCoherent host is_local (planned {s} stamps before) =
    plan_mission-IsCoherent host.planning stamps host.is_local s
      (Reach-IsCoherent host is_local before)
Reach-IsCoherent host is_local (planning_job {s} stamps before) =
    process_planning_job-IsCoherent host.planning stamps s (Reach-IsCoherent host is_local before)
Reach-IsCoherent host is_local (approving {s} stamps approval_id approver_id before) =
    approve_mission-IsCoherent stamps approval_id approver_id s
      (Reach-IsCoherent host is_local before)
Reach-IsCoherent host is_local (execution_job {s} stamps actor before) =
    process_execution_job-IsCoherent host stamps actor s is_local
      (Reach-IsCoherent host is_local before)
Reach-IsCoherent host is_local (run {s} stamps job_stamps actor before) =
    run_mission-IsCoherent host stamps job_stamps actor s is_local
      (Reach-IsCoherent host is_local before)
Reach-IsCoherent host is_local (set_status {s} stamps status before idle) =
    transition_mission-IsCoherent stamps status _ _ s
      (Reach-IsCoherent host is_local before).agrees.logged
      (ap (λ b. b && has_pending s.persisted) idle)
