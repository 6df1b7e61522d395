-- ===== src/Lifecycle/Running.antt =====
-- Running a mission: the execution job, in the process itself or with a queue in redis.
use jean_bot.Common.{
  ℕ, String, Bool, not, ◌||◌, Option, none, some, [], ◌++◌, if◌then◌else◌, ◌==◌, is_some,
  or_default,
}
use jean_bot.Types.{
  MissionStatus, MissionRecord, MissionRunResult, Stamps, Arithmetic, mission_status_eq,
}
use jean_bot.Validator.{ValidationError, validate, validation_message, recover}
use jean_bot.Lifecycle.Store.{
  MissionStateStore, Outcome, returned, threw, and_then, save, get, update_result,
  transition_mission,
}
use jean_bot.Lifecycle.Planning.{PlanningHost, plan_mission, has_pending}

-- What the executor does with the record that it is given: it changes its own copy, and returns a
-- result or throws (with a message, if what it throws is an `Error`).
pub data Execution : Type 0 where
  finished : MissionRecord → MissionRunResult → Execution
  raised : MissionRecord → Option String → Execution

-- What the job asks of its host: whether `ensureWorkspace` and the checkpoint succeed, the
-- executor, what `remember` throws, and the distributed execution.
pub record ExecutionHost : Type 0 where
  pub planning : PlanningHost
  pub num : Arithmetic
  pub is_local : Bool
  pub prepares : MissionRecord → Bool
  pub execute : MissionRecord → Execution
  pub remember_error : MissionRecord → Option (Option String)
  pub distribute : MissionStateStore → Outcome

-- The end of the `try` block: a result that is accepted.
unfoldable pub complete :
    Stamps → MissionRecord → MissionRunResult → MissionStateStore → MissionStateStore
unfolding update_result save
complete stamps fresh result store =
    let updated = update_result stamps result store in
    save
      (record updated.cached {
        artifacts = some (or_default fresh.artifacts [] ++ or_default result.artifacts []);
      })
      updated

-- The `catch` block.
unfoldable pub fail_mission :
    ExecutionHost
    → (ℕ → Stamps)
    → MissionRecord
    → Option String
    → MissionStateStore
    → MissionStateStore
unfolding recover update_result transition_mission get
fail_mission host stamps fresh error store =
    let recovered = recover host.num fresh error ((stamps 2).iso 0) in
    get (
      transition_mission (stamps 4) MissionStatus.failed recovered.verification_summary
        "agent-orchestrator" (update_result (stamps 3) recovered store))

unfoldable pub after_remember :
    ExecutionHost
    → (ℕ → Stamps)
    → MissionRecord
    → Option (Option String)
    → MissionStateStore
    → MissionStateStore
unfolding fail_mission transition_mission get
after_remember host stamps fresh (some error) store = fail_mission host stamps fresh error store
after_remember host stamps fresh none store = get (
    transition_mission (stamps 5) MissionStatus.completed "Mission execution finished successfully."
      "agent-orchestrator" store)

unfoldable pub after_validate :
    ExecutionHost
    → (ℕ → Stamps)
    → MissionRecord
    → MissionRunResult
    → Option ValidationError
    → MissionStateStore
    → MissionStateStore
unfolding fail_mission complete after_remember
after_validate host stamps fresh result (some error) store =
    fail_mission host stamps fresh (some (validation_message fresh error)) store
after_validate host stamps fresh result none store =
    let done_store = complete (stamps 1) fresh result store in
    after_remember host stamps fresh (host.remember_error done_store.persisted) done_store

-- The `try` block of a run in the process, and what catches its errors.
unfoldable pub after_execute :
    ExecutionHost → (ℕ → Stamps) → Execution → MissionStateStore → MissionStateStore
unfolding after_validate fail_mission
after_execute host stamps (raised fresh error) store = fail_mission host stamps fresh error store
after_execute host stamps (finished fresh result) store =
    after_validate host stamps fresh result (validate host.planning.js fresh result) store

-- In redis mode the promise of the distributed execution is returned and not awaited: what it
-- throws does not reach the `catch` block.
unfoldable pub process_execution_job :
    ExecutionHost → (ℕ → Stamps) → String → MissionStateStore → Outcome
unfolding get transition_mission after_execute
process_execution_job host stamps actor store =
    let fresh = store.persisted in
    let running =
      transition_mission (stamps 0) MissionStatus.running "Mission execution started." actor
        (get store) in
    let executed = returned (after_execute host stamps (host.execute fresh) running) in
    let run = if host.is_local then executed else host.distribute running in
    if has_pending fresh
    then returned (
        transition_mission (stamps 0) MissionStatus.blocked
          "Execution is blocked while approvals remain pending." "agent-orchestrator" (get store))
    else if host.prepares fresh
    then run
    else threw running

abbrev pub needs_plan : MissionRecord → Bool
needs_plan mission =
    not (is_some mission.plan)
    || mission.status == MissionStatus.draft
    || mission.status == MissionStatus.queued_for_planning

-- `runMission` behind the planning.
unfoldable pub run_planned :
    ExecutionHost → (ℕ → Stamps) → (ℕ → Stamps) → String → MissionStateStore → Outcome
unfolding get transition_mission process_execution_job
run_planned host stamps job_stamps actor store =
    let queued =
      transition_mission (stamps 2) MissionStatus.queued_for_execution
        "Mission queued for execution." actor store in
    let run =
      if host.is_local
      then and_then (process_execution_job host job_stamps actor queued) (λ s. returned (get s))
      else returned (get queued) in
    if store.persisted.status == MissionStatus.awaiting_approval then returned (get store) else run

-- `runMission`; `actor` is the authenticated user, or the orchestrator.
unfoldable pub run_mission :
    ExecutionHost → (ℕ → Stamps) → (ℕ → Stamps) → String → MissionStateStore → Outcome
unfolding plan_mission run_planned
run_mission host stamps job_stamps actor store =
    let planned =
      and_then (plan_mission host.planning stamps host.is_local store)
        (run_planned host stamps job_stamps actor) in
    if needs_plan store.persisted then planned else run_planned host stamps job_stamps actor store
