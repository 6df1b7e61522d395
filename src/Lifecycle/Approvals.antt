-- ===== src/Lifecycle/Approvals.antt =====
-- What an approval gates.
use jean_bot.Common.{
  ℕ, String, Bool, ◌≡◌, refl, ap, ◌∙◌, some, [], if◌then◌else◌, string_eq, or_default, any,
  Bool-cases, inl, inr,
}
use jean_bot.Types.{MissionStatus, ApprovalRecord, Stamps, approval_status_eq, mission_status_eq}
use jean_bot.Lifecycle.Store.{
  MissionStateStore, returned, save, get, append_transition, approved, replace_all, approve_found,
  approve, approve_if_found, approval_of, transition_mission,
}
use jean_bot.Lifecycle.Planning.{
  is_pending, has_pending, release_approved, approve_mission, after_approve,
}
use jean_bot.Lifecycle.PlanningSteps.{pending_beside, pending-replace_all}

abbrev pub released_status : Bool → MissionStatus
released_status waits = if waits then MissionStatus.awaiting_approval else MissionStatus.planned

release_approved-status :
    (stamps : Stamps) (actor : String) (s : MissionStateStore)
    → s.persisted.status ≡ MissionStatus.awaiting_approval
    → (release_approved stamps actor s).persisted.status ≡ released_status (has_pending s.persisted)
unfolding release_approved transition_mission get save append_transition
release_approved-status stamps actor s h = elim (Bool-cases (has_pending s.persisted)) [
  | inl waits ↦ rw (waits, h) refl
  | inr free ↦ rw (free, h) refl
]

module _ (stamps : ℕ → Stamps) (approval_id approver_id : String) where
  -- Approving one of the approvals of a mission that awaits approval succeeds, and the mission is
  -- planned then if no other approval is pending, and awaits approval still if one is. The store's
  -- copy of the record has to be the persisted one.
  pub approve_mission-gate :
      (s : MissionStateStore) (a : ApprovalRecord)
      → s.cached ≡ s.persisted
      → s.persisted.status ≡ MissionStatus.awaiting_approval
      → approval_of approval_id s.persisted ≡ some a
      → (t : MissionStateStore) × (approve_mission stamps approval_id approver_id s ≡ returned t)
        × (t.persisted.status
            ≡ released_status (pending_beside approval_id (or_default s.persisted.approvals [])))
  unfolding approve_mission approve approve_if_found after_approve approve_found approved save
  approve_mission-gate s a synced waits found =
      let changed = approve_found approval_id (approved (stamps 0) approver_id a) s in
      (
        release_approved (stamps 1) approver_id changed,
        ap
            (λ o.
              after_approve (stamps 1) approver_id s
                (approve_if_found (stamps 0) approval_id approver_id s o))
            found,
        release_approved-status (stamps 1) approver_id changed (ap (λ m. m.status) synced ∙ waits)
            ∙ ap released_status (
                ap
                  (λ m. any is_pending (
                    replace_all approval_id (approved (stamps 0) approver_id a)
                      (or_default m.approvals [])))
                  synced
                ∙ pending-replace_all approval_id (approved (stamps 0) approver_id a)
                    (or_default s.persisted.approvals []) refl),
      )
