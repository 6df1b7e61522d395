-- ===== src/Lifecycle/Endings.antt =====
-- How an execution job of a process with a local queue ends.
use jean_bot.Common.{
  ℕ, String, true, false, ◌≡◌, refl, sym, ◌∙◌, Option, none, some, [], ◌∷◌, ◌++◌, if-cases, ◌⊎◌,
  inl, inr, Option-cases,
}
use jean_bot.Types.{MissionStatus, MissionRecord, MissionRunResult, MissionStateTransition, Stamps}
use jean_bot.Validator.{validate, validation_message, recover}
use jean_bot.Lifecycle.Store.{
  MissionStateStore, Outcome, returned, threw, store_of, save, get, append_transition,
  update_result, transition_mission, create_transition,
}
use jean_bot.Lifecycle.Planning.{has_pending}
use jean_bot.Lifecycle.Running.{
  Execution, finished, raised, ExecutionHost, complete, fail_mission, after_remember,
  after_validate, after_execute, process_execution_job,
}
use jean_bot.Lifecycle.Coherence.{transition_of}

-- What the end of a run makes of the store: the mission is completed or failed, with a result, and
-- one transition is added, from the status of that result. The record keeps its plan.
pub record IsEnd (before : MissionStateStore) (s : MissionStateStore) : Type 0 where
  pub ended :
      (s.persisted.status ≡ MissionStatus.completed) ⊎ (s.persisted.status ≡ MissionStatus.failed)
  pub plan : s.persisted.plan ≡ before.cached.plan
  pub result : MissionRunResult
  pub stored : s.persisted.result ≡ some result
  pub last : MissionStateTransition
  pub log : s.log ≡ before.log ++ last ∷ []
  pub from : last.from ≡ result.status
  pub to : last.to ≡ s.persisted.status

module _ (host : ExecutionHost) (stamps : ℕ → Stamps) where
  fail_mission-IsEnd :
      (fresh : MissionRecord) (error : Option String) (s : MissionStateStore)
      → IsEnd s (fail_mission host stamps fresh error s)
  unfolding fail_mission get transition_mission update_result save append_transition
      create_transition recover
  fail_mission-IsEnd fresh error s =
      let recovered = recover host.num fresh error ((stamps 2).iso 0) in
      record {
        ended = inr refl;
        plan = refl;
        result = recovered;
        stored = refl;
        last =
            transition_of (stamps 4) MissionStatus.failed recovered.verification_summary
              "agent-orchestrator" (update_result (stamps 3) recovered s);
        log = refl;
        from = refl;
        to = refl;
      }

  completed-IsEnd :
      (fresh : MissionRecord) (result : MissionRunResult) (e : Option (Option String))
      (s : MissionStateStore)
      → IsEnd s (after_remember host stamps fresh e (complete (stamps 1) fresh result s))
  unfolding after_remember complete get transition_mission update_result save append_transition
      create_transition
  completed-IsEnd fresh result none s = record {
    ended = inl refl;
    plan = refl;
    result = result;
    stored = refl;
    last =
        transition_of (stamps 5) MissionStatus.completed "Mission execution finished successfully."
          "agent-orchestrator" (complete (stamps 1) fresh result s);
    log = refl;
    from = refl;
    to = refl;
  }
  completed-IsEnd fresh result (some error) s =
      let failed = fail_mission-IsEnd fresh error (complete (stamps 1) fresh result s) in
      record {
        ended = failed.ended;
        plan = failed.plan;
        result = failed.result;
        stored = failed.stored;
        last = failed.last;
        log = failed.log;
        from = failed.from;
        to = failed.to;
      }

  after_execute-IsEnd :
      (e : Execution) (s : MissionStateStore) → IsEnd s (after_execute host stamps e s)
  unfolding after_execute after_validate
  after_execute-IsEnd (raised fresh error) s = fail_mission-IsEnd fresh error s
  after_execute-IsEnd (finished fresh result) s =
      elim (validate host.planning.js fresh result)
        as (λ v. IsEnd s (after_validate host stamps fresh result v s)) [
          | some error ↦ fail_mission-IsEnd fresh (some (validation_message fresh error)) s
          | none ↦
              completed-IsEnd fresh result
                (host.remember_error (complete (stamps 1) fresh result s).persisted) s
        ]

  fail_mission-status :
      (fresh : MissionRecord) (error : Option String) (s : MissionStateStore)
      → (fail_mission host stamps fresh error s).persisted.status ≡ MissionStatus.failed
  unfolding fail_mission get transition_mission save append_transition
  fail_mission-status fresh error s = refl

  -- The result that a completed mission stores is one that the executor returned and that the
  -- validator accepts.
  unfoldable pub IsAccepted : Execution → MissionStateStore → Type 0
  IsAccepted e s =
      (fresh : MissionRecord) × (result : MissionRunResult) × (e ≡ finished fresh result)
      × (validate host.planning.js fresh result ≡ none)
      × (s.persisted.result ≡ some result)

  after_remember-result :
      (fresh : MissionRecord) (result : MissionRunResult) (e : Option (Option String))
      (s : MissionStateStore)
      → (after_remember host stamps fresh e (complete (stamps 1) fresh result s)).persisted.status
        ≡ MissionStatus.completed
      → (after_remember host stamps fresh e (complete (stamps 1) fresh result s)).persisted.result
        ≡ some result
  unfolding after_remember complete get transition_mission update_result save append_transition
  after_remember-result fresh result none s h = refl
  after_remember-result fresh result (some error) s h =
      cc (sym h ∙ fail_mission-status fresh error (complete (stamps 1) fresh result s))

  after_execute-IsAccepted :
      (e : Execution) (s : MissionStateStore)
      → (after_execute host stamps e s).persisted.status ≡ MissionStatus.completed
      → IsAccepted e (after_execute host stamps e s)
  unfolding after_execute after_validate IsAccepted
  after_execute-IsAccepted (raised fresh error) s h = cc (sym h ∙ fail_mission-status fresh error s)
  after_execute-IsAccepted (finished fresh result) s h =
      elim (Option-cases (validate host.planning.js fresh result)) [
        | inr (error, found) ↦ cc (
            sym (rw found at h)
            ∙ fail_mission-status fresh (some (validation_message fresh error)) s)
        | inl valid ↦
            let remembered = host.remember_error (complete (stamps 1) fresh result s).persisted in
            (
              fresh,
              result,
              refl,
              valid,
              rw valid (after_remember-result fresh result remembered s (rw valid at h)),
            )
      ]

  -- The store when the job has set the mission to running.
  abbrev pub started : String → MissionStateStore → MissionStateStore
  started actor s =
      transition_mission (stamps 0) MissionStatus.running "Mission execution started." actor (get s)

  -- The three ends of a job.
  pub data JobEnd (actor : String) (s : MissionStateStore) : Outcome → Type 0 where
    waits :
        {t : MissionStateStore}
        → has_pending s.persisted ≡ true
        → t.persisted.status ≡ MissionStatus.blocked
        → JobEnd actor s (returned t)
    stuck :
        {t : MissionStateStore}
        → host.prepares s.persisted ≡ false
        → t.persisted.status ≡ MissionStatus.running
        → JobEnd actor s (threw t)
    ran :
        {t : MissionStateStore}
        → has_pending s.persisted ≡ false
        → IsEnd (started actor s) t
        → JobEnd actor s (returned t)

module _ (host : ExecutionHost) (stamps : ℕ → Stamps) (actor : String) (s : MissionStateStore) where
  -- With a local queue an execution job always ends in one of three ways: the mission is blocked,
  -- where an approval is pending; the job throws and the mission stays running, where the workspace
  -- or the checkpoint cannot be prepared; or, whatever the executor, the validator and the memory
  -- do, the job returns with the mission completed or failed, a result stored, the plan as it was,
  -- and one more transition, which the store logs from the status of the result.
  pub process_execution_job-JobEnd :
      host.is_local ≡ true → JobEnd host stamps actor s (process_execution_job host stamps actor s)
  unfolding process_execution_job get transition_mission save append_transition
  process_execution_job-JobEnd is_local =
      if-cases (JobEnd host stamps actor s) (has_pending s.persisted) (λ h. waits h refl)
        (λ free.
          if-cases (JobEnd host stamps actor s) (host.prepares s.persisted)
            (λ ready. rw is_local (
              ran free (
                after_execute-IsEnd host stamps (host.execute s.persisted)
                  (started host stamps actor s))))
            (λ fails. stuck fails refl))

  pub process_execution_job-IsAccepted :
      host.is_local ≡ true
      → (store_of (process_execution_job host stamps actor s)).persisted.status
        ≡ MissionStatus.completed
      → (has_pending s.persisted ≡ false)
        × IsAccepted host stamps
            (host.execute s.persisted)
            (store_of (process_execution_job host stamps actor s))
  unfolding process_execution_job get transition_mission save append_transition IsAccepted
  process_execution_job-IsAccepted is_local =
      if-cases
        (λ o.
          (store_of o).persisted.status ≡ MissionStatus.completed
          → (has_pending s.persisted ≡ false)
            × IsAccepted host stamps (host.execute s.persisted) (store_of o))
        (has_pending s.persisted) (λ waits h. cc h)
        (λ free.
          if-cases
            (λ o.
              (store_of o).persisted.status ≡ MissionStatus.completed
              → (has_pending s.persisted ≡ false)
                × IsAccepted host stamps (host.execute s.persisted) (store_of o))
            (host.prepares s.persisted)
            (λ ready. rw is_local (λ h. (
              free,
              after_execute-IsAccepted host stamps (host.execute s.persisted)
                  (started host stamps actor s) h,
            )))
            (λ fails h. cc h))
