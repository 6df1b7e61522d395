-- ===== src/Lifecycle/PlanningSteps.antt =====
-- Planning and approving keep the record, its copy, its approvals and its transitions in agreement.
use jean_bot.Common.{
  ℕ, String, Bool, false, not, ◌&&◌, ◌||◌, ◌≡◌, refl, sym, ap, ◌∙◌, Option, none, some, List, [],
  ◌∷◌, ◌++◌, ◌==◌, string_eq, or_default, any, Bool-cases, if-cases, inl, inr, arith,
}
use jean_bot.Types.{
  MissionStatus, ApprovalRecord, MissionObjective, MissionPlan, PolicyDecision, Stamps,
  approval_status_eq, mission_status_eq,
}
use jean_bot.Policy.{evaluate_mission}
use jean_bot.Planner.{create_plan}
use jean_bot.Lifecycle.Store.{
  MissionStateStore, store_of, save, get, append_transition, save_approval, approved, replace_all,
  approve_found, approve, approve_if_found, approval_of, transition_mission, create_transition,
}
use jean_bot.Lifecycle.Planning.{
  PlanningHost, create_mission, approvals_for, planned_record, plan_accepted, plan_validated,
  planned_status, planned_reason, process_planning_job, plan_mission, is_pending, has_pending,
  release_approved, approve_mission, after_approve, validate_mission_plan,
}
use jean_bot.Lifecycle.Coherence.{
  has_run, last_to-append, transitions_of, IsCoherent, transition_mission-IsCoherent,
  get-IsCoherent,
}

pub create_mission-IsCoherent :
    (stamps : Stamps) (objective : MissionObjective) (tenant : Option String)
    → IsCoherent (create_mission stamps objective tenant)
unfolding create_mission
create_mission-IsCoherent stamps objective tenant = record {
  agrees = record { synced = refl; logged = refl };
  told = refl;
  cleared = refl;
}

planned_status-has_run : (d : PolicyDecision) → has_run (planned_status d) ≡ false
planned_status-has_run d =
    if-cases (λ s. has_run s ≡ false) d.approval_required (λ h. refl) (λ h. refl)

approvals_for-log :
    (stamps : Stamps) (d : PolicyDecision) (s : MissionStateStore)
    → (approvals_for stamps d s).0.log ≡ s.log
unfolding approvals_for save_approval
approvals_for-log stamps d s =
    if-cases (λ (p : MissionStateStore × List ApprovalRecord). p.0.log ≡ s.log) d.approval_required
      (λ h. refl) (λ h. refl)

plan_accepted-IsCoherent :
    (host : PlanningHost) (stamps : Stamps) (d : PolicyDecision) (plan : MissionPlan)
    (s : MissionStateStore)
    → transitions_of s.persisted ≡ s.log
    → IsCoherent (plan_accepted host stamps d plan s)
unfolding plan_accepted planned_record save append_transition create_transition
plan_accepted-IsCoherent host stamps d plan s logged =
    let t =
      create_transition stamps s.persisted.objective.id MissionStatus.queued_for_planning
        (planned_status d) (planned_reason d) "agent-orchestrator" in
    record {
      agrees = record {
        synced = refl;
        logged = ap (λ l. l ++ t ∷ []) (logged ∙ sym (approvals_for-log stamps d s));
      };
      told = last_to-append MissionStatus.draft (approvals_for stamps d s).0.log t;
      cleared =
          ap (λ b. b && any is_pending (approvals_for stamps d s).1) (planned_status-has_run d);
    }

pub process_planning_job-IsCoherent :
    (host : PlanningHost) (stamps : Stamps) (s : MissionStateStore)
    → IsCoherent s
    → IsCoherent (store_of (process_planning_job host stamps s))
unfolding process_planning_job
process_planning_job-IsCoherent host stamps s h =
    let d = evaluate_mission host.js s.persisted.objective in
    elim (validate_mission_plan host.schema_accepts
        (create_plan host.js (stamps.iso 0) s.persisted.objective d))
      as (λ o. IsCoherent (store_of (plan_validated host stamps d o (get s)))) [
        | none ↦ get-IsCoherent s h
        | some plan ↦
            plan_accepted-IsCoherent host stamps d plan (get s) (get-IsCoherent s h).agrees.logged
      ]

pub plan_mission-IsCoherent :
    (host : PlanningHost) (stamps : ℕ → Stamps) (is_local : Bool) (s : MissionStateStore)
    → IsCoherent s
    → IsCoherent (store_of (plan_mission host stamps is_local s))
unfolding plan_mission
plan_mission-IsCoherent host stamps is_local s h =
    let queued =
      transition_mission (stamps 0) MissionStatus.queued_for_planning "Mission queued for planning."
        "agent-orchestrator" s in
    let coherent : IsCoherent queued =
      transition_mission-IsCoherent (stamps 0) MissionStatus.queued_for_planning _ _ s
        h.agrees.logged refl in
    if-cases (λ o. IsCoherent (store_of o)) is_local
      (λ here. process_planning_job-IsCoherent host (stamps 1) queued coherent) (λ later. coherent)

-- An approval other than the one with the identifier is pending.
abbrev pub pending_beside : String → List ApprovalRecord → Bool
pending_beside id approvals = any (λ a. not (a.id == id) && is_pending a) approvals

pub pending-replace_all :
    (id : String) (updated : ApprovalRecord) (approvals : List ApprovalRecord)
    → is_pending updated ≡ false
    → any is_pending (replace_all id updated approvals) ≡ pending_beside id approvals
pending-replace_all id updated [] h = refl
pending-replace_all id updated (a ∷ approvals) h = elim (Bool-cases (a.id == id)) [
  | inl here ↦ rw (here, h) (pending-replace_all id updated approvals h)
  | inr other ↦ rw other (ap (λ b. is_pending a || b) (pending-replace_all id updated approvals h))
]

pending_beside-le :
    (id : String) (approvals : List ApprovalRecord)
    → any is_pending approvals ≡ false
    → pending_beside id approvals ≡ false
pending_beside-le id [] h = refl
pending_beside-le id (a ∷ approvals) h = ground (arith, h, pending_beside-le id approvals)

and_mono : (b c d : Bool) → (c ≡ false → d ≡ false) → (b && c) ≡ false → (b && d) ≡ false
and_mono b c d h k = ground (arith, h, k)

approve_found-IsCoherent :
    (id : String) (updated : ApprovalRecord) (s : MissionStateStore)
    → is_pending updated ≡ false
    → IsCoherent s
    → IsCoherent (approve_found id updated s)
unfolding approve_found save
approve_found-IsCoherent id updated s approved_now h =
    let approvals = or_default s.persisted.approvals [] in
    record {
      agrees = record {
        synced = refl;
        logged = ap transitions_of h.agrees.synced ∙ h.agrees.logged;
      };
      told = h.told ∙ ap (λ m. m.status) (sym h.agrees.synced);
      cleared =
          ap
            (λ m.
              has_run m.status
              && any is_pending (replace_all id updated (or_default m.approvals [])))
            h.agrees.synced
          ∙ ap (λ b. has_run s.persisted.status && b)
              (pending-replace_all id updated approvals approved_now)
          ∙ and_mono (has_run s.persisted.status) (any is_pending approvals)
              (pending_beside id approvals) (pending_beside-le id approvals) h.cleared;
    }

release_approved-IsCoherent :
    (stamps : Stamps) (actor : String) (s : MissionStateStore)
    → IsCoherent s
    → IsCoherent (release_approved stamps actor s)
unfolding release_approved
release_approved-IsCoherent stamps actor s h =
    if-cases IsCoherent
      (not (has_pending s.persisted) && s.persisted.status == MissionStatus.awaiting_approval)
      (λ free.
        transition_mission-IsCoherent stamps MissionStatus.planned _ actor s h.agrees.logged refl)
      (λ waits. get-IsCoherent s h)

pub approve_mission-IsCoherent :
    (stamps : ℕ → Stamps) (approval_id approver_id : String) (s : MissionStateStore)
    → IsCoherent s
    → IsCoherent (store_of (approve_mission stamps approval_id approver_id s))
unfolding approve_mission approve approve_if_found after_approve approved
approve_mission-IsCoherent stamps approval_id approver_id s h =
    elim (approval_of approval_id s.persisted)
      as (λ o. IsCoherent (
        store_of (
          after_approve (stamps 1) approver_id s
            (approve_if_found (stamps 0) approval_id approver_id s o)))) [
              | none ↦ h
              | some a ↦
                  let changed = approve_found approval_id (approved (stamps 0) approver_id a) s in
                  release_approved-IsCoherent (stamps 1) approver_id changed (
                    approve_found-IsCoherent approval_id (approved (stamps 0) approver_id a) s refl
                      h)
            ]
