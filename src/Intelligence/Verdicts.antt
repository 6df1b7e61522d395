-- ===== src/Intelligence/Verdicts.antt =====
-- What an assessment says as a whole: when a step passes, and when it is tried again.
use jean_bot.Common.{
  ℕ, ◌≤◌, ◌≡◌, refl, sym, ◌∙◌, String, Bool, true, not, ◌||◌, List, arith, leb, ◌==◌, length,
  JsText,
}
use jean_bot.Types.{
  FailureClass, Double, Arithmetic, MissionStep, PolicyDecision, StepExecutionDiagnostics,
  failure_class_eq,
}
use jean_bot.Intelligence.{RuntimeOutput, is_retryable, assess_step}
use jean_bot.Intelligence.Classes.{length-missing_signals}

-- `qualityGateFailed` of the executor.
unfoldable pub gate_failed : StepExecutionDiagnostics → Bool
gate_failed d = not (d.failure_class == FailureClass.none) || leb 2 (length d.missing_signals)

gate-eq :
    (c : FailureClass) (missing : List String)
    → (c ≡ FailureClass.none → length missing ≤ 1)
    → (not (c == FailureClass.none) || leb 2 (length missing)) ≡ not (c == FailureClass.none)
gate-eq FailureClass.none missing h = let few = h refl in ground arith
gate-eq _ missing h = refl

is_retryable_of_class :
    (js : JsText) (num : Arithmetic) (step : MissionStep) (c : FailureClass) (score : Double)
    (attempt : ℕ) (missing : List String)
    → not (c == FailureClass.none) ≡ true
    → is_retryable js num step c score attempt missing ≡ true
unfolding is_retryable
is_retryable_of_class js num step c score attempt missing h = rw h

module _ (js : JsText) (num : Arithmetic) (step : MissionStep) (output : RuntimeOutput)
    (decision : PolicyDecision) (attempt : ℕ) where
  abbrev verdict : StepExecutionDiagnostics
  verdict = assess_step js num step output decision attempt

  -- The executor's quality gate fails exactly when the assessment names a failure class: the count
  -- of missing signals never adds a failure of its own. And what fails the gate is retryable.
  pub gate_failed_lem :
      (gate_failed verdict ≡ not (verdict.failure_class == FailureClass.none))
      × (gate_failed verdict ≡ true → verdict.retryable ≡ true)
  unfolding gate_failed assess_step
  gate_failed_lem =
      let same =
        gate-eq verdict.failure_class verdict.missing_signals
          (length-missing_signals js num step output decision) in
      (
        same,
        λ h.
            is_retryable_of_class js num step verdict.failure_class verdict.overall_score attempt
              verdict.missing_signals (sym same ∙ h),
      )
