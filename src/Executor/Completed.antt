-- ===== src/Executor/Completed.antt =====
-- A job with the batch loop as its executor: what a completed mission went through.
use jean_bot.Common.{
  ℕ, String, true, ◌≡◌, refl, sym, ap, ◌∙◌, Option, none, some, List, [], ltb, ◌==◌, nat_eq,
  string_eq, length, count, Bool-cases, inl, inr, arith, JsText,
}
use jean_bot.Types.{
  MissionStatus, MissionPlan, MissionRecord, MissionRunResult, StepExecutionRecord, Stamps,
}
use jean_bot.Validator.{validate, validate_plan, validate_report_count, is_incomplete}
use jean_bot.Lifecycle.{
  MissionStateStore, store_of, ExecutionHost, Execution, finished, raised, process_execution_job,
}
use jean_bot.Lifecycle.Endings.{process_execution_job-IsAccepted, IsAccepted}
use jean_bot.Executor
use jean_bot.Executor.{ExecutorHost, Progress, Executed, steps_of, execute}
use jean_bot.Executor.Result.{ReportHost, ordered_reports, mission_result, ended, execute_mission}

-- What an accepted result says of the mission: no step of its plan is incomplete, and there are as
-- many reports as steps.
IsComplete : MissionRecord → List StepExecutionRecord → Type 0
IsComplete mission reports =
    (count is_incomplete (steps_of mission) ≡ 0) × (length reports ≡ length (steps_of mission))

module _ (js : JsText) (mission : MissionRecord) (result : MissionRunResult)
    (reports : List StepExecutionRecord) where
  report_count :
      (plan : MissionPlan)
      → validate_report_count mission plan (some reports) result.metrics ≡ none
      → length reports ≡ length plan.steps
  unfolding validate_report_count
  report_count plan h = elim (Bool-cases (length reports == length plan.steps)) [
    | inl same ↦ (nat_eq.beq_iff (length reports) (length plan.steps)).0 same
    | inr other ↦ cc (rw other at h)
  ]

  validate_plan-IsComplete :
      (o : Option MissionPlan)
      → mission.plan ≡ o
      → result.step_reports ≡ some reports
      → validate_plan js mission o result ≡ none
      → IsComplete mission reports
  unfolding validate_plan IsComplete
  validate_plan-IsComplete none p r h = cc h
  validate_plan-IsComplete (some plan) p r h =
      elim (Bool-cases (ltb 0 (count is_incomplete plan.steps))) [
        | inl incomplete ↦ cc (rw incomplete at h)
        | inr complete ↦ elim (Bool-cases (js.trim result.verification_summary == "")) [
          | inl empty ↦ cc (rw (complete, empty) at h)
          | inr told ↦
              let counted = report_count plan (rw (complete, told, r) at h) in
              let none_left : count is_incomplete plan.steps ≡ 0 = ground (arith, complete) in
              (
                ap (λ o. count is_incomplete (elim o [ none ↦ [] | some q ↦ q.steps ])) p
                    ∙ none_left,
                counted ∙ sym (ap (λ o. length (elim o [ none ↦ [] | some q ↦ q.steps ])) p),
              )
        ]
      ]

  validate-IsComplete :
      result.step_reports ≡ some reports
      → validate js mission result ≡ none
      → IsComplete mission reports
  unfolding validate
  validate-IsComplete r h = validate_plan-IsComplete mission.plan refl r h

abbrev fresh_of : MissionRecord → Execution → MissionRecord
fresh_of m (finished fresh result) = fresh
fresh_of m (raised fresh error) = m

abbrev result_of : MissionRunResult → Execution → MissionRunResult
result_of r (finished fresh result) = result
result_of r (raised fresh error) = r

module _ (host : ExecutionHost) (loop : ExecutorHost) (reporting : ReportHost)
    (started_at : String) where
  -- The loop completed, in a state of which the result was built and the plan is complete.
  pub record IsRun (e : Executed) (s : MissionStateStore) : Type 0 where
    pub progress : Progress
    pub completed : e ≡ Executor.completed progress
    pub stored : s.persisted.result ≡ some (mission_result loop reporting started_at progress)
    pub closed : count is_incomplete (steps_of progress.mission) ≡ 0
    pub reported :
        length (ordered_reports (steps_of progress.mission) progress.step_reports)
        ≡ length (steps_of progress.mission)

  ended-IsRun :
      (e : Executed) (fresh : MissionRecord) (result : MissionRunResult) (s : MissionStateStore)
      → ended loop reporting started_at e ≡ finished fresh result
      → validate host.planning.js fresh result ≡ none
      → s.persisted.result ≡ some result
      → IsRun e s
  unfolding mission_result IsComplete
  ended-IsRun (Executor.completed p) fresh result s made valid stored =
      let made_result = mission_result loop reporting started_at p in
      let same_mission : p.mission ≡ fresh = ap (fresh_of p.mission) made in
      let same_result : made_result ≡ result = ap (result_of made_result) made in
      let accepted : validate host.planning.js p.mission made_result ≡ none =
        ap (λ m. validate host.planning.js m made_result) same_mission
        ∙ ap (λ r. validate host.planning.js fresh r) same_result
        ∙ valid in
      let complete =
        validate-IsComplete host.planning.js p.mission made_result
          (ordered_reports (steps_of p.mission) p.step_reports) refl accepted in
      record {
        progress = p;
        completed = refl;
        stored = stored ∙ ap (λ r. some r) (sym same_result);
        closed = complete.0;
        reported = complete.1;
      }
  ended-IsRun (Executor.raised mission thrown) fresh result s made valid stored = cc made
  ended-IsRun (Executor.unfinished p) fresh result s made valid stored = cc made

-- Where the batch loop is the executor of a job with a local queue, a mission that the job leaves
-- completed went through a loop that completed: in the state at its end every step of the plan is
-- completed and there are as many reports as steps, and the stored result is built of that state.
pub process_execution_job-IsRun :
    (host : ExecutionHost) (loop : ExecutorHost) (reporting : ReportHost) (started_at : String)
    (fuel : ℕ) (stamps : ℕ → Stamps) (actor : String) (s : MissionStateStore)
    → host.is_local ≡ true
    → host.execute s.persisted ≡ execute_mission loop reporting started_at fuel s.persisted
    → (store_of (process_execution_job host stamps actor s)).persisted.status
      ≡ MissionStatus.completed
    → IsRun host loop reporting started_at
        (execute loop fuel s.persisted)
        (store_of (process_execution_job host stamps actor s))
unfolding execute_mission IsAccepted
process_execution_job-IsRun host loop reporting started_at fuel stamps actor s is_local by_loop h =
    let (free, accepted) = process_execution_job-IsAccepted host stamps actor s is_local h in
    let (fresh, result, made, valid, stored) = accepted in
    ended-IsRun host loop reporting started_at (execute loop fuel s.persisted) fresh result _
      (sym by_loop ∙ made) valid stored
