-- ===== src/Lifecycle/Holding.antt =====
-- A mission with a pending approval is held: running it runs nothing.
use jean_bot.Common.{
  ℕ, String, Bool, true, false, ◌≡◌, refl, sym, ap, ◌∙◌, none, some, List, [], ◌∷◌, ◌++◌,
  if◌then◌else◌, ◌==◌, or_default, any, if-cases, Bool-cases, inl, inr, arith,
}
use jean_bot.Types.{
  MissionStatus, ApprovalRecord, MissionPlan, PolicyDecision, Stamps, approval_status_eq,
  mission_status_eq,
}
use jean_bot.Policy.{evaluate_mission}
use jean_bot.Planner.{create_plan}
use jean_bot.Lifecycle.Store.{
  MissionStateStore, Outcome, returned, threw, store_of, and_then, save, get, append_transition,
  transition_mission,
}
use jean_bot.Lifecycle.Planning.{
  PlanningHost, approvals_for, planned_record, plan_accepted, plan_validated, process_planning_job,
  plan_mission, is_pending, has_pending, validate_mission_plan,
}
use jean_bot.Lifecycle.Running.{
  ExecutionHost, process_execution_job, needs_plan, run_planned, run_mission,
}
use jean_bot.Lifecycle.Coherence.{has_run}

-- An approval is pending, and the status is not one of a mission that was let run.
pub record IsHeld (s : MissionStateStore) : Type 0 where
  pub pending : has_pending s.persisted ≡ true
  pub idle : has_run s.persisted.status ≡ false

transition_mission-IsHeld :
    (stamps : Stamps) (to : MissionStatus) (reason actor : String) (s : MissionStateStore)
    → has_pending s.persisted ≡ true
    → has_run to ≡ false
    → IsHeld (transition_mission stamps to reason actor s)
unfolding transition_mission save get append_transition
transition_mission-IsHeld stamps to reason actor s p i = record { pending = p; idle = i }

get-IsHeld : (s : MissionStateStore) → IsHeld s → IsHeld (get s)
unfolding get
get-IsHeld s h = record { pending = h.pending; idle = h.idle }

any-append :
    (xs ys : List ApprovalRecord) → any is_pending xs ≡ true → any is_pending (xs ++ ys) ≡ true
any-append [] ys h = cc h
any-append (x ∷ xs) ys h = ground (arith, h, any-append xs ys)

approvals_for-pending :
    (stamps : Stamps) (d : PolicyDecision) (s : MissionStateStore)
    → has_pending s.persisted ≡ true
    → any is_pending (approvals_for stamps d s).1 ≡ true
unfolding approvals_for
approvals_for-pending stamps d s h =
    if-cases (λ (p : MissionStateStore × List ApprovalRecord). any is_pending p.1 ≡ true)
      d.approval_required (λ asks. any-append (or_default s.persisted.approvals []) _ h)
      (λ passes. h)

plan_accepted-IsHeld :
    (host : PlanningHost) (stamps : Stamps) (d : PolicyDecision) (plan : MissionPlan)
    (s : MissionStateStore)
    → has_pending s.persisted ≡ true
    → IsHeld (plan_accepted host stamps d plan s)
unfolding plan_accepted planned_record save append_transition
plan_accepted-IsHeld host stamps d plan s h = record {
  pending = approvals_for-pending stamps d s h;
  idle = if-cases (λ s. has_run s ≡ false) d.approval_required (λ h. refl) (λ h. refl);
}

process_planning_job-IsHeld :
    (host : PlanningHost) (stamps : Stamps) (s : MissionStateStore)
    → IsHeld s
    → IsHeld (store_of (process_planning_job host stamps s))
unfolding process_planning_job get
process_planning_job-IsHeld host stamps s h =
    let d = evaluate_mission host.js s.persisted.objective in
    elim (validate_mission_plan host.schema_accepts
        (create_plan host.js (stamps.iso 0) s.persisted.objective d))
      as (λ o. IsHeld (store_of (plan_validated host stamps d o (get s)))) [
        | none ↦ get-IsHeld s h
        | some plan ↦ plan_accepted-IsHeld host stamps d plan (get s) h.pending
      ]

plan_mission-IsHeld :
    (host : PlanningHost) (stamps : ℕ → Stamps) (is_local : Bool) (s : MissionStateStore)
    → has_pending s.persisted ≡ true
    → IsHeld (store_of (plan_mission host stamps is_local s))
unfolding plan_mission
plan_mission-IsHeld host stamps is_local s p =
    let queued =
      transition_mission (stamps 0) MissionStatus.queued_for_planning "Mission queued for planning."
        "agent-orchestrator" s in
    let held : IsHeld queued =
      transition_mission-IsHeld (stamps 0) MissionStatus.queued_for_planning _ _ s p refl in
    if-cases (λ o. IsHeld (store_of o)) is_local
      (λ here. process_planning_job-IsHeld host (stamps 1) queued held) (λ later. held)

-- A run with nothing of the host but its queue: the mission waits, is blocked or stays queued.
abbrev held_run :
    Bool → (ℕ → Stamps) → (ℕ → Stamps) → String → MissionStateStore → MissionStateStore
held_run is_local stamps job_stamps actor s =
    let queued =
      transition_mission (stamps 2) MissionStatus.queued_for_execution
        "Mission queued for execution." actor s in
    let blocked =
      transition_mission (job_stamps 0) MissionStatus.blocked
        "Execution is blocked while approvals remain pending." "agent-orchestrator" (get queued) in
    if s.persisted.status == MissionStatus.awaiting_approval
    then get s
    else if is_local
    then get blocked
    else get queued

held_run-IsHeld :
    (is_local : Bool) (stamps job_stamps : ℕ → Stamps) (actor : String) (s : MissionStateStore)
    → has_pending s.persisted ≡ true
    → IsHeld (held_run is_local stamps job_stamps actor s)
unfolding transition_mission save get append_transition
held_run-IsHeld is_local stamps job_stamps actor s p =
    if-cases IsHeld (s.persisted.status == MissionStatus.awaiting_approval)
      (λ waits. record {
        pending = p;
        idle = ap has_run (
            (mission_status_eq.beq_iff s.persisted.status MissionStatus.awaiting_approval).0 waits);
      })
      (λ other.
        if-cases IsHeld is_local (λ here. record { pending = p; idle = refl })
          (λ later. record { pending = p; idle = refl }))

queued-pending :
    (stamps : Stamps) (to : MissionStatus) (reason actor : String) (s : MissionStateStore)
    → has_pending (transition_mission stamps to reason actor s).persisted ≡ has_pending s.persisted
unfolding transition_mission save get append_transition
queued-pending stamps to reason actor s = refl

run_planned-held :
    (host : ExecutionHost) (stamps job_stamps : ℕ → Stamps) (actor : String) (s : MissionStateStore)
    → has_pending s.persisted ≡ true
    → run_planned host stamps job_stamps actor s
      ≡ returned (held_run host.is_local stamps job_stamps actor s)
unfolding run_planned process_execution_job
run_planned-held host stamps job_stamps actor s p =
    let queued =
      transition_mission (stamps 2) MissionStatus.queued_for_execution
        "Mission queued for execution." actor s in
    let pending : has_pending queued.persisted ≡ true =
      queued-pending (stamps 2) MissionStatus.queued_for_execution "Mission queued for execution."
        actor s
      ∙ p in
    elim (Bool-cases (s.persisted.status == MissionStatus.awaiting_approval)) [
      | inl waits ↦ rw waits refl
      | inr other ↦ elim (Bool-cases host.is_local) [
        | inl here ↦ rw (other, here, pending) refl
        | inr later ↦ rw (other, later) refl
      ]
    ]

and_then-held :
    (host : ExecutionHost) (stamps job_stamps : ℕ → Stamps) (actor : String) (o : Outcome)
    → IsHeld (store_of o)
    → and_then o (run_planned host stamps job_stamps actor)
      ≡ and_then o (λ s. returned (held_run host.is_local stamps job_stamps actor s))
and_then-held host stamps job_stamps actor (returned s) h =
    run_planned-held host stamps job_stamps actor s h.pending
and_then-held host stamps job_stamps actor (threw s) h = refl

-- `runMission` with nothing of the host but its planning and its queue.
abbrev held_mission :
    PlanningHost → Bool → (ℕ → Stamps) → (ℕ → Stamps) → String → MissionStateStore → Outcome
held_mission planning is_local stamps job_stamps actor s =
    let run : MissionStateStore → Outcome =
      λ t. returned (held_run is_local stamps job_stamps actor t) in
    if needs_plan s.persisted then and_then (plan_mission planning stamps is_local s) run else run s

run_mission-held :
    (host : ExecutionHost) (stamps job_stamps : ℕ → Stamps) (actor : String) (s : MissionStateStore)
    → has_pending s.persisted ≡ true
    → run_mission host stamps job_stamps actor s
      ≡ held_mission host.planning host.is_local stamps job_stamps actor s
unfolding run_mission
run_mission-held host stamps job_stamps actor s p = elim (Bool-cases (needs_plan s.persisted)) [
  | inl plans ↦ rw plans (
      and_then-held host stamps job_stamps actor (plan_mission host.planning stamps host.is_local s)
        (plan_mission-IsHeld host.planning stamps host.is_local s p))
  | inr planned ↦ rw planned (run_planned-held host stamps job_stamps actor s p)
]

and_then-IsHeld :
    (is_local : Bool) (stamps job_stamps : ℕ → Stamps) (actor : String) (o : Outcome)
    → IsHeld (store_of o)
    → IsHeld (store_of (and_then o (λ s. returned (held_run is_local stamps job_stamps actor s))))
and_then-IsHeld is_local stamps job_stamps actor (returned s) h =
    held_run-IsHeld is_local stamps job_stamps actor s h.pending
and_then-IsHeld is_local stamps job_stamps actor (threw s) h = h

held_mission-IsHeld :
    (planning : PlanningHost) (is_local : Bool) (stamps job_stamps : ℕ → Stamps) (actor : String)
    (s : MissionStateStore)
    → has_pending s.persisted ≡ true
    → IsHeld (store_of (held_mission planning is_local stamps job_stamps actor s))
held_mission-IsHeld planning is_local stamps job_stamps actor s p =
    if-cases (λ o. IsHeld (store_of o)) (needs_plan s.persisted)
      (λ plans.
        and_then-IsHeld is_local stamps job_stamps actor (plan_mission planning stamps is_local s)
          (plan_mission-IsHeld planning stamps is_local s p))
      (λ planned. held_run-IsHeld is_local stamps job_stamps actor s p)

-- Running a mission that has a pending approval, whatever its status and with or without a plan,
-- does the same on any two hosts that agree on the planning and on the kind of the queue: neither
-- the executor nor the preparation of the workspace, the memory or the distributed execution is
-- asked. The mission keeps a pending approval, and is not running, completed or failed after it.
pub run_mission-IsHeld :
    (host other : ExecutionHost) (stamps job_stamps : ℕ → Stamps) (actor : String)
    (s : MissionStateStore)
    → host.planning ≡ other.planning
    → host.is_local ≡ other.is_local
    → has_pending s.persisted ≡ true
    → (run_mission host stamps job_stamps actor s ≡ run_mission other stamps job_stamps actor s)
      × IsHeld (store_of (run_mission host stamps job_stamps actor s))
run_mission-IsHeld host other stamps job_stamps actor s same_planning same_queue p =
    let held = run_mission-held host stamps job_stamps actor s p in
    (
      held
          ∙ ap (λ planning. held_mission planning host.is_local stamps job_stamps actor s)
              same_planning
          ∙ ap (λ is_local. held_mission other.planning is_local stamps job_stamps actor s)
              same_queue
          ∙ sym (run_mission-held other stamps job_stamps actor s p),
      rw held (held_mission-IsHeld host.planning host.is_local stamps job_stamps actor s p),
    )
