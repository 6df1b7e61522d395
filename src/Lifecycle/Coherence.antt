-- ===== src/Lifecycle/Coherence.antt =====
-- What every operation keeps: the record, its copy, its approvals and its transitions agree.
use jean_bot.Common.{
  ℕ, String, Bool, true, false, ◌&&◌, ◌≡◌, refl, ap, ◌∙◌, Option, none, some, List, [], ◌∷◌, ◌++◌,
  string_eq, or_default, arith,
}
use jean_bot.Types.{
  MissionStatus, MissionRecord, MissionRunResult, MissionStateTransition, Stamps,
  approval_status_eq, mission_status_eq,
}
use jean_bot.Validator.{validate, validation_message}
use jean_bot.Lifecycle.Store.{
  MissionStateStore, save, get, append_transition, update_result, transition_mission,
  create_transition,
}
use jean_bot.Lifecycle.Planning.{has_pending}
use jean_bot.Lifecycle.Running.{
  ExecutionHost, complete, fail_mission, after_remember, after_validate, after_execute, Execution,
  finished, raised,
}

-- The status of a mission that was let run.
abbrev pub has_run : MissionStatus → Bool
has_run MissionStatus.running = true
has_run MissionStatus.completed = true
has_run MissionStatus.failed = true
has_run _ = false

abbrev pub last_to : MissionStatus → List MissionStateTransition → MissionStatus
last_to status [] = status
last_to status (t ∷ log) = last_to t.to log

abbrev pub transitions_of : MissionRecord → List MissionStateTransition
transitions_of mission = or_default mission.transitions []

-- The copy is the persisted record, whose transitions are those of the list.
pub record IsLogged (s : MissionStateStore) : Type 0 where
  pub synced : s.cached ≡ s.persisted
  pub logged : transitions_of s.persisted ≡ s.log

-- Besides, the last transition led to the record's status, and no approval is pending for a
-- mission that was let run.
pub record IsCoherent (s : MissionStateStore) : Type 0 where
  pub agrees : IsLogged s
  pub told : last_to MissionStatus.draft s.log ≡ s.persisted.status
  pub cleared : (has_run s.persisted.status && has_pending s.persisted) ≡ false

pub last_to-append :
    (status : MissionStatus) (log : List MissionStateTransition) (t : MissionStateTransition)
    → last_to status (log ++ t ∷ []) ≡ t.to
last_to-append status [] t = refl
last_to-append status (u ∷ log) t = last_to-append u.to log t

abbrev pub transition_of :
    Stamps → MissionStatus → String → String → MissionStateStore → MissionStateTransition
transition_of stamps to reason actor s =
    create_transition stamps s.persisted.objective.id s.persisted.status to reason actor

-- A transition needs only that the record and the list agree before it.
pub transition_mission-IsCoherent :
    (stamps : Stamps) (to : MissionStatus) (reason actor : String) (s : MissionStateStore)
    → transitions_of s.persisted ≡ s.log
    → (has_run to && has_pending s.persisted) ≡ false
    → IsCoherent (transition_mission stamps to reason actor s)
unfolding transition_mission save get append_transition create_transition
transition_mission-IsCoherent stamps to reason actor s logged cleared = record {
  agrees = record {
    synced = refl;
    logged = ap (λ l. l ++ transition_of stamps to reason actor s ∷ []) logged;
  };
  told = last_to-append MissionStatus.draft s.log _;
  cleared = cleared;
}

pub get-IsCoherent : (s : MissionStateStore) → IsCoherent s → IsCoherent (get s)
unfolding get
get-IsCoherent s h = record {
  agrees = record { synced = refl; logged = h.agrees.logged };
  told = h.told;
  cleared = h.cleared;
}

-- A store in the middle of a run: what the next transition needs.
pub record IsClear (s : MissionStateStore) : Type 0 where
  pub synced : s.cached ≡ s.persisted
  pub logged : transitions_of s.persisted ≡ s.log
  pub clear : has_pending s.persisted ≡ false

and-false : (b : Bool) → (b && false) ≡ false
and-false b = ground arith

pub transition_mission-clear :
    (stamps : Stamps) (to : MissionStatus) (reason actor : String) (s : MissionStateStore)
    → IsClear s
    → IsCoherent (transition_mission stamps to reason actor s)
transition_mission-clear stamps to reason actor s h =
    transition_mission-IsCoherent stamps to reason actor s h.logged
      (ap (λ b. has_run to && b) h.clear ∙ and-false (has_run to))

pub transition_mission-IsClear :
    (stamps : Stamps) (to : MissionStatus) (reason actor : String) (s : MissionStateStore)
    → transitions_of s.persisted ≡ s.log
    → has_pending s.persisted ≡ false
    → IsClear (transition_mission stamps to reason actor s)
unfolding transition_mission save get append_transition create_transition
transition_mission-IsClear stamps to reason actor s logged clear = record {
  synced = refl;
  logged = ap (λ l. l ++ transition_of stamps to reason actor s ∷ []) logged;
  clear = clear;
}

update_result-IsClear :
    (stamps : Stamps) (result : MissionRunResult) (s : MissionStateStore)
    → IsClear s
    → IsClear (update_result stamps result s)
unfolding update_result save
update_result-IsClear stamps result s h = record {
  synced = refl;
  logged = ap transitions_of h.synced ∙ h.logged;
  clear = ap has_pending h.synced ∙ h.clear;
}

complete-IsClear :
    (stamps : Stamps) (fresh : MissionRecord) (result : MissionRunResult) (s : MissionStateStore)
    → IsClear s
    → IsClear (complete stamps fresh result s)
unfolding complete update_result save
complete-IsClear stamps fresh result s h = record {
  synced = refl;
  logged = ap transitions_of h.synced ∙ h.logged;
  clear = ap has_pending h.synced ∙ h.clear;
}

module _ (host : ExecutionHost) (stamps : ℕ → Stamps) where
  fail_mission-IsCoherent :
      (fresh : MissionRecord) (error : Option String) (s : MissionStateStore)
      → IsClear s
      → IsCoherent (fail_mission host stamps fresh error s)
  unfolding fail_mission
  fail_mission-IsCoherent fresh error s h = get-IsCoherent _ (
      transition_mission-clear (stamps 4) MissionStatus.failed _ _ _
        (update_result-IsClear (stamps 3) _ s h))

  after_remember-IsCoherent :
      (fresh : MissionRecord) (e : Option (Option String)) (s : MissionStateStore)
      → IsClear s
      → IsCoherent (after_remember host stamps fresh e s)
  unfolding after_remember
  after_remember-IsCoherent fresh none s h =
      get-IsCoherent _ (transition_mission-clear (stamps 5) MissionStatus.completed _ _ s h)
  after_remember-IsCoherent fresh (some error) s h = fail_mission-IsCoherent fresh error s h

  pub after_execute-IsCoherent :
      (e : Execution) (s : MissionStateStore)
      → IsClear s
      → IsCoherent (after_execute host stamps e s)
  unfolding after_execute after_validate
  after_execute-IsCoherent (raised fresh error) s h = fail_mission-IsCoherent fresh error s h
  after_execute-IsCoherent (finished fresh result) s h =
      elim (validate host.planning.js fresh result)
        as (λ v. IsCoherent (after_validate host stamps fresh result v s)) [
          | some error ↦ fail_mission-IsCoherent fresh (some (validation_message fresh error)) s h
          | none ↦
              after_remember-IsCoherent fresh _ _ (complete-IsClear (stamps 1) fresh result s h)
        ]
