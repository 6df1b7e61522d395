-- ===== src/Validator/Acceptance.antt =====
-- Which results the validator accepts, of those that the executor and the recovery build.
use jean_bot.Common.{
  ℕ, ◌≡◌, refl, sym, ap, ◌∙◌, ◌≢◌, String, Bool, true, false, not, ◌&&◌, Option, none, some, List,
  [], ◌∷◌, ◌++◌, arith, if◌then◌else◌, ltb, ◌==◌, nat_eq, string_eq, beq_refl, Bool-cases, if-cases,
  inl, inr, length, count, unique, or_default, is_some, JsText,
}
use jean_bot.Types.{
  Category, Arithmetic, MissionPlan, MissionRecord, MissionRunResult, MissionDecisionLogEntry,
  StepExecutionRecord, MissionArtifact, MissionExecutionMetrics, category_eq,
}
use jean_bot.Intelligence.Metrics.{step_id_if, replanned_ids, build_mission_metrics}
use jean_bot.Validator.{
  ValidationError, incomplete_steps, no_summary, incomplete_report, missing_diagnostics,
  missing_decisions, is_incomplete, replanned_step, expected_replanned_ids, validate_reports,
  validate_metrics, validate_report_count, validate_plan, validate, recover,
}

replanned_step-eq :
    (is_replan : Bool) (id : Option String) → step_id_if is_replan id ≡ replanned_step is_replan id
replanned_step-eq true none = refl
replanned_step-eq false none = refl
replanned_step-eq false (some id) = refl
replanned_step-eq true (some id) = ground arith

-- The metrics and the validator read the same steps out of the log.
replanned_ids-eq :
    (log : List MissionDecisionLogEntry) → replanned_ids log ≡ expected_replanned_ids log
unfolding replanned_ids expected_replanned_ids
replanned_ids-eq [] = refl
replanned_ids-eq (entry ∷ log) =
    ap (λ l. l ++ replanned_ids log)
      (replanned_step-eq (entry.category == Category.replan) entry.step_id)
    ∙ ap (λ l. replanned_step (entry.category == Category.replan) entry.step_id ++ l)
        (replanned_ids-eq log)

unreported :
    (js : JsText) (mission : MissionRecord) (plan : Option MissionPlan) (result : MissionRunResult)
    → result.step_reports ≡ none
    → validate_plan js mission plan result ≢ none
unfolding validate_plan validate_report_count
unreported js mission none result e = λ h. cc
unreported js mission (some plan) result e =
    if-cases (λ v. v ≢ none) (ltb 0 (count is_incomplete plan.steps)) (λ p h. cc)
      (λ p.
        if-cases (λ v. v ≢ none) (js.trim result.verification_summary == "") (λ q h. cc)
          (λ q h. cc (sym h ∙ ap (λ r. validate_report_count mission plan r result.metrics) e)))

-- What the recovery records for a failed mission never passes the validator.
pub validate-recover :
    (js : JsText) (num : Arithmetic) (mission : MissionRecord) (error : Option String)
    (now : String)
    → validate js mission (recover num mission error now) ≢ none
unfolding validate recover
validate-recover js num mission error now =
    unreported js mission mission.plan (recover num mission error now) refl

module _ (js : JsText) (num : Arithmetic) (mission : MissionRecord)
    (reports : List StepExecutionRecord) (artifacts : List MissionArtifact) (total : ℕ) where
  -- The metrics that `execute` puts into its result.
  abbrev pub executor_metrics : MissionExecutionMetrics
  executor_metrics =
      record (build_mission_metrics num reports artifacts (or_default mission.decision_log [])) {
        total_artifacts = total;
      }

  -- The tests that are left for the reports of a result with these metrics.
  abbrev pub report_error : Option ValidationError
  report_error =
      if ltb 0 (count (λ r. not (is_some r.diagnostics)) reports)
      then some missing_diagnostics
      else if ltb 0 (length (or_default mission.replan_history []))
          && length (or_default mission.decision_log []) == 0
      then some missing_decisions
      else none

  validate_reports-executor_metrics :
      (plan : MissionPlan)
      → (length reports == length plan.steps) ≡ true
      → validate_reports mission plan reports executor_metrics ≡ report_error
  unfolding validate_reports build_mission_metrics
  validate_reports-executor_metrics plan complete =
      let log = or_default mission.decision_log [] in
      let same = beq_refl (length (unique (expected_replanned_ids log))) in
      rw (complete, replanned_ids-eq log) (rw same refl)

  validate_report_count-executor_metrics :
      (plan : MissionPlan)
      → validate_report_count mission plan (some reports) (some executor_metrics) ≡ (
          if not (length reports == length plan.steps)
          then some incomplete_report
          else report_error)
  unfolding validate_report_count validate_metrics
  validate_report_count-executor_metrics plan =
      elim (Bool-cases (length reports == length plan.steps)) [
        | inl complete ↦ rw complete (validate_reports-executor_metrics plan complete)
        | inr short ↦ rw short refl
      ]

  -- A result of the executor, whose metrics are built from its reports and the decision log, is
  -- never refused for its metrics: of the validator's tests only those on the plan, the summary,
  -- the number of the reports, their diagnostics and the decision log decide.
  pub validate-executor_metrics :
      (plan : MissionPlan) (result : MissionRunResult)
      → mission.plan ≡ some plan
      → result.step_reports ≡ some reports
      → result.metrics ≡ some executor_metrics
      → validate js mission result ≡ (
          if ltb 0 (count is_incomplete plan.steps)
          then some incomplete_steps
          else if js.trim result.verification_summary == ""
          then some no_summary
          else if not (length reports == length plan.steps)
          then some incomplete_report
          else report_error)
  unfolding validate validate_plan
  validate-executor_metrics plan result p r m =
      let guarded : Option ValidationError → Option ValidationError = λ checked.
        if ltb 0 (count is_incomplete plan.steps)
        then some incomplete_steps
        else if js.trim result.verification_summary == ""
        then some no_summary
        else checked in
      ap (λ o. validate_plan js mission o result) p
      ∙ ap (λ rs. guarded (validate_report_count mission plan rs result.metrics)) r
      ∙ ap (λ ms. guarded (validate_report_count mission plan (some reports) ms)) m
      ∙ ap guarded (validate_report_count-executor_metrics plan)
