-- ===== src/Intelligence/Classes.antt =====
-- Which class a failed step gets, and when there is none.
use jean_bot.Common.{
  ◌≤◌, String, ◌≡◌, refl, ap, Bool, true, false, not, ◌&&◌, List, [], ◌∷◌, ◌++◌, arith,
  if◌then◌else◌, ltb, ◌==◌, nat_eq, length, any, count, filter, includes, Bool-cases, inl, inr,
  JsText,
}
use jean_bot.Types.{
  ToolKind, FailureClass, Arithmetic, MissionStep, PolicyDecision, failure_class_eq, tool_kind_eq,
}
use jean_bot.Intelligence.{
  ToolCall, RuntimeOutput, CoverageSnapshot, EvidenceSnapshot, expected_kinds_of, seen_kinds,
  coverage_snapshot, evidence_snapshot, failed_call, has_policy_gap, failure_class, missing_signals,
  signal_if,
}

-- The class of a failure is that of the most serious gap: missing policy evidence before a failed
-- verification, before a failed tool call, before a tool family that was not used; it is none
-- where there is no gap.
pub failure_class-priority :
    (step : MissionStep) (output : RuntimeOutput) (coverage : CoverageSnapshot)
    (decision : PolicyDecision)
    → failure_class step output coverage decision ≡ (
        if has_policy_gap step output decision
        then FailureClass.policy
        else if not output.verification_ok
        then FailureClass.verification
        else if any failed_call output.tool_calls
        then FailureClass.tooling
        else if ltb 0 (length coverage.missing_kinds)
        then FailureClass.coverage
        else FailureClass.none)
unfolding failure_class
failure_class-priority step output coverage decision = ground arith

any-count : (calls : List ToolCall) → any failed_call calls ≡ ltb 0 (count (λ c. not c.ok) calls)
any-count [] = refl
any-count (c ∷ calls) = ground (arith, any-count calls)

filter-all : {A : Type 0} (xs : List A) → filter (λ (a : A). true) xs ≡ xs
filter-all [] = refl
filter-all (x ∷ xs) = ap (λ t. x ∷ t) (filter-all xs)

-- Without a tool call all the expected families are missing.
missing_of_no_call :
    (expected : List ToolKind) (calls : List ToolCall)
    → length calls ≡ 0
    → filter (λ kind. not (includes (seen_kinds calls) kind)) expected ≡ expected
unfolding seen_kinds
missing_of_no_call expected [] h = filter-all expected
missing_of_no_call expected (c ∷ calls) h = absurd (omega arith)

-- The signals, by the facts that the tests read.
length-signals :
    (a b c d e f : Bool) (s t u v w x : String)
    → (a ≡ false)
    → (b ≡ false)
    → (c ≡ false)
    → (d ≡ false)
    → (f ≡ false)
    → length (
        signal_if a s
        ++ (signal_if b t
            ++ (signal_if c u ++ (signal_if d v ++ (signal_if e w ++ signal_if f x)))))
      ≤ 1
length-signals a b c d true f s t u v w x ha hb hc hd hf = rw (ha, hb, hc, hd, hf) (omega arith)
length-signals a b c d false f s t u v w x ha hb hc hd hf = rw (ha, hb, hc, hd, hf) (omega arith)

module _ (js : JsText) (num : Arithmetic) (step : MissionStep) (output : RuntimeOutput)
    (decision : PolicyDecision) where
  abbrev coverage : CoverageSnapshot
  coverage = coverage_snapshot num step output

  abbrev evidence : EvidenceSnapshot
  evidence = evidence_snapshot js num output

  no_tool_gap :
      ltb 0 (length coverage.missing_kinds) ≡ false
      → (evidence.tool_calls == 0 && ltb 0 (length coverage.expected_kinds)) ≡ false
  unfolding coverage_snapshot evidence_snapshot
  no_tool_gap h = elim (Bool-cases (length output.tool_calls == 0)) [
    | inl silent ↦
        let same =
          missing_of_no_call (expected_kinds_of step.capability) output.tool_calls (ground arith) in
        rw silent (rw same at h)
    | inr busy ↦ rw busy refl
  ]

  -- The four gaps are closed when there is no failure class.
  gaps_closed :
      failure_class step output coverage decision ≡ FailureClass.none
      → (has_policy_gap step output decision ≡ false)
        × (output.verification_ok ≡ true)
        × (any failed_call output.tool_calls ≡ false)
        × (ltb 0 (length coverage.missing_kinds) ≡ false)
  gaps_closed h = ground (arith, failure_class-priority step output coverage decision)

  no_failed_call :
      any failed_call output.tool_calls ≡ false → ltb 0 evidence.failed_tool_calls ≡ false
  unfolding evidence_snapshot
  no_failed_call h = rw (any-count output.tool_calls) at h

  -- A step whose failure class is none has at most one missing signal.
  pub length-missing_signals :
      failure_class step output coverage decision ≡ FailureClass.none
      → length (missing_signals js step output coverage evidence decision) ≤ 1
  unfolding missing_signals
  length-missing_signals h =
      let (no_policy, verified, no_failure, covered) = gaps_closed h in
      length-signals (not output.verification_ok) _ _ _ _ _ _ _ _ _ _ _ (rw verified refl) covered
        (no_tool_gap covered) (no_failed_call no_failure) no_policy
