-- ===== src/Intelligence.antt =====
-- services/agent-orchestrator/src/executor/execution-intelligence.ts: how the output of a step is
-- judged. Scores are doubles, whose arithmetic is a parameter.
mod Output
mod Scores
pub mod Classes
pub mod Verdicts
pub mod Metrics
unfoldable pub use Output.*
unfoldable pub use Scores.*
use jean_bot.Common.{
  ℕ, String, Bool, true, false, not, ◌&&◌, ◌||◌, Option, none, some, List, [], ◌∷◌, ◌++◌,
  if◌then◌else◌, leb, ltb, or_default, ◌==◌, nat_eq, string_eq, length, any, find, filter, includes,
  template, join, map, JsText,
}
use jean_bot.Common.Decimal.{decimal}
use jean_bot.Types.{
  Capability, ToolKind, FailureClass, Arithmetic, Double, MissionStep, PolicyDecision,
  StepExecutionDiagnostics, capability_name, tool_kind_name, tool_kind_eq, failure_class_eq,
}

abbrev pub failed_call : ToolCall → Bool
failed_call c = not c.ok

unfoldable pub has_policy_gap : MissionStep → RuntimeOutput → PolicyDecision → Bool
unfolding requires_explicit_policy_evidence has_policy_call
has_policy_gap step output decision =
    requires_explicit_policy_evidence step decision && not (has_policy_call output)

abbrev signal_if : Bool → String → List String
signal_if true s = s ∷ []
signal_if false s = []

-- `missingSignals`: the issues in the order of the code's tests.
unfoldable pub missing_signals :
    JsText
    → MissionStep
    → RuntimeOutput
    → CoverageSnapshot
    → EvidenceSnapshot
    → PolicyDecision
    → List String
unfolding has_policy_gap decimal
missing_signals js step output coverage evidence decision =
    signal_if (not output.verification_ok)
      (template ("Runtime verification did not pass for \"" ∷ step.title ∷ "\"." ∷ []))
    ++ (signal_if (ltb 0 (length coverage.missing_kinds)) (
          template (
            "Expected tool families were not used: "
            ∷ join ", " (map tool_kind_name coverage.missing_kinds)
            ∷ "."
            ∷ []))
        ++ (signal_if (evidence.tool_calls == 0 && ltb 0 (length coverage.expected_kinds))
              "The step produced no tool evidence even though tools were expected."
            ++ (signal_if (ltb 0 evidence.failed_tool_calls) (
                  template (
                    decimal evidence.failed_tool_calls
                    ∷ " tool call(s) failed during execution."
                    ∷ []))
                ++ (signal_if (ltb evidence.final_text_length 80)
                      "The final step narrative is too short to be a reliable operator handoff."
                    ++ signal_if (has_policy_gap step output decision)
                        "Policy-sensitive work did not produce explicit policy evidence."))))

unfoldable pub strengths :
    JsText
    → Arithmetic
    → MissionStep
    → RuntimeOutput
    → CoverageSnapshot
    → EvidenceSnapshot
    → List String
strengths js num step output coverage evidence =
    signal_if output.verification_ok "Runtime self-check passed."
    ++ (signal_if (num.le (num.decimal 9 1) coverage.score) (
          template (
            "Tool coverage matched the expected "
            ∷ capability_name step.capability
            ∷ " workflow."
            ∷ []))
        ++ (signal_if (leb 2 evidence.provider_turns)
              "The runtime completed multiple provider turns before finalizing."
            ++ (signal_if (leb 2 evidence.tool_calls)
                  "The step produced multiple concrete tool-backed signals."
                ++ signal_if (leb 180 (js.length (js.trim output.final_text)))
                    "The final narrative is detailed enough for a handoff artifact.")))

abbrev pub failure_class_priority : List FailureClass
failure_class_priority =
    FailureClass.policy ∷ FailureClass.verification ∷ FailureClass.tooling ∷ FailureClass.coverage
    ∷ FailureClass.runtime ∷ FailureClass.none ∷ []

abbrev class_if : Bool → FailureClass → List FailureClass
class_if true c = c ∷ []
class_if false c = []

-- The candidates, in the order in which the code pushes them.
unfoldable pub candidates :
    MissionStep → RuntimeOutput → CoverageSnapshot → PolicyDecision → List FailureClass
unfolding has_policy_gap
candidates step output coverage decision =
    class_if (not output.verification_ok) FailureClass.verification
    ++ (class_if (ltb 0 (length coverage.missing_kinds)) FailureClass.coverage
        ++ (class_if (any failed_call output.tool_calls) FailureClass.tooling
            ++ class_if (has_policy_gap step output decision) FailureClass.policy))

unfoldable pub failure_class :
    MissionStep → RuntimeOutput → CoverageSnapshot → PolicyDecision → FailureClass
unfolding candidates
failure_class step output coverage decision =
    or_default
      (find (λ c. includes (candidates step output coverage decision) c) failure_class_priority)
      FailureClass.none

-- `recommendedActions`, from what the diagnostics hold so far.
unfoldable pub recommended_actions :
    Arithmetic → MissionStep → StepExecutionDiagnostics → CoverageSnapshot → List String
recommended_actions num step d coverage =
    if not d.retryable && d.failure_class == FailureClass.none
    then template ("Proceed with the next dependency after \"" ∷ step.title ∷ "\"." ∷ []) ∷ []
    else signal_if (d.failure_class == FailureClass.verification)
        "Run one more validation-oriented attempt with stricter verification instructions."
      ++ (signal_if (d.failure_class == FailureClass.coverage) (
            template (
              "Force at least one "
              ∷ join " / " (map tool_kind_name coverage.missing_kinds)
              ∷ " tool action before accepting the step."
              ∷ []))
          ++ (signal_if (d.failure_class == FailureClass.tooling)
                "Retry the step after inspecting failed tool outputs and narrowing the scope."
              ++ (signal_if (d.failure_class == FailureClass.policy)
                    "Collect explicit policy evidence or request approval before continuing."
                  ++ signal_if (num.lt d.overall_score (num.decimal 6 1))
                      "Escalate to a stronger specialist template if the next attempt still underperforms.")))

module _ (js : JsText) (num : Arithmetic) where
  -- `overallScore` of `assessStep`.
  unfoldable pub overall_score :
      MissionStep → RuntimeOutput → PolicyDecision → CoverageSnapshot → EvidenceSnapshot → Double
  unfolding round_score verification_score policy_penalty
  overall_score step output decision coverage evidence = round_score num (
      num.sub
        (num.add
          (num.add (num.mul coverage.score (num.decimal 35 2))
            (num.mul evidence.score (num.decimal 3 1)))
          (num.mul (verification_score js num output) (num.decimal 35 2)))
        (policy_penalty num step decision))

  unfoldable pub is_retryable : MissionStep → FailureClass → Double → ℕ → List String → Bool
  unfolding risk_floor
  is_retryable step class score attempt missing =
      not (class == FailureClass.none)
      || num.lt score (risk_floor num step.capability)
      || leb attempt 1 && leb 2 (length missing)

  unfoldable pub assess_step :
      MissionStep → RuntimeOutput → PolicyDecision → ℕ → StepExecutionDiagnostics
  unfolding coverage_snapshot evidence_snapshot overall_score missing_signals failure_class
      is_retryable strengths recommended_actions is_sensitive
  assess_step step output decision attempt =
      let coverage = coverage_snapshot num step output in
      let evidence = evidence_snapshot js num output in
      let score = overall_score step output decision coverage evidence in
      let missing = missing_signals js step output coverage evidence decision in
      let class = failure_class step output coverage decision in
      let assessed : StepExecutionDiagnostics = record {
        failure_class = class;
        evidence_score = evidence.score;
        coverage_score = coverage.score;
        verification_score = verification_score js num output;
        overall_score = score;
        retryable = is_retryable step class score attempt missing;
        escalation_required = is_sensitive step.capability && num.lt score (num.decimal 76 2);
        missing_signals = missing;
        strengths = strengths js num step output coverage evidence;
        recommended_actions = [];
      } in
      record assessed { recommended_actions = recommended_actions num step assessed coverage }
