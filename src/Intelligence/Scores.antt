-- ===== src/Intelligence/Scores.antt =====
-- The scores of execution-intelligence.ts, over the host's arithmetic on doubles.
use jean_bot.Common.{
  ℕ, ◌-◌, not, ◌&&◌, List, if◌then◌else◌, leb, ltb, ◌==◌, nat_eq, string_eq, length, count, filter,
  includes, JsText,
}
use jean_bot.Types.{
  Capability, ToolKind, Arithmetic, Double, MissionStep, PolicyDecision, tool_kind_eq,
}
use jean_bot.Intelligence.Output.{RuntimeOutput, seen_kinds, expected_kinds_of, is_sensitive}

pub record CoverageSnapshot : Type 0 where
  pub expected_kinds : List ToolKind
  pub seen_kinds : List ToolKind
  pub missing_kinds : List ToolKind
  pub score : Double

pub record EvidenceSnapshot : Type 0 where
  pub failed_tool_calls : ℕ
  pub tool_calls : ℕ
  pub provider_turns : ℕ
  pub final_text_length : ℕ
  pub score : Double

module _ (num : Arithmetic) where
  abbrev clamp : Double → Double
  clamp value = num.min (num.of_nat 1) (num.max (num.of_nat 0) value)

  unfoldable pub round_score : Double → Double
  round_score value = num.to_fixed 3 (clamp value)

  unfoldable pub coverage_snapshot : MissionStep → RuntimeOutput → CoverageSnapshot
  unfolding expected_kinds_of seen_kinds round_score
  coverage_snapshot step output =
      let expected = expected_kinds_of step.capability in
      let seen = seen_kinds output.tool_calls in
      let missing = filter (λ kind. not (includes seen kind)) expected in
      let raw =
        if length expected == 0
        then num.of_nat 1
        else num.div (num.of_nat (length expected - length missing))
            (num.of_nat (length expected)) in
      let calls = length output.tool_calls in
      let bonus =
        if leb (length expected) calls && ltb 0 calls then num.decimal 1 1 else num.of_nat 0 in
      record {
        expected_kinds = expected;
        seen_kinds = seen;
        missing_kinds = missing;
        score = round_score (num.add raw bonus);
      }

  -- `Math.min(1, n / d)`, or another value where there is none.
  abbrev share : ℕ → ℕ → Double → Double
  share n d absent =
      if n == 0 then absent else num.min (num.of_nat 1) (num.div (num.of_nat n) (num.of_nat d))

  unfoldable pub risk_floor : Capability → Double
  risk_floor Capability.security = num.decimal 74 2
  risk_floor Capability.finance = num.decimal 8 1
  risk_floor Capability.communication = num.decimal 76 2
  risk_floor Capability.terminal = num.decimal 68 2
  risk_floor Capability.browser = num.decimal 66 2
  risk_floor Capability.software_development = num.decimal 7 1
  risk_floor Capability.research = num.decimal 68 2
  risk_floor _ = num.decimal 6 1

  unfoldable pub policy_penalty : MissionStep → PolicyDecision → Double
  unfolding is_sensitive
  policy_penalty step decision =
      if not decision.approval_required
      then num.of_nat 0
      else if is_sensitive step.capability
      then num.decimal 8 2
      else num.decimal 4 2

module _ (js : JsText) (num : Arithmetic) where
  unfoldable pub evidence_snapshot : RuntimeOutput → EvidenceSnapshot
  unfolding round_score
  evidence_snapshot output =
      let failed = count (λ c. not c.ok) output.tool_calls in
      let calls = length output.tool_calls in
      let text_length = js.length (js.trim output.final_text) in
      let tools = share num calls 3 (num.decimal 25 2) in
      let providers = share num output.provider_responses 2 (num.decimal 2 1) in
      let text = share num text_length 320 (num.of_nat 0) in
      let penalty =
        if failed == 0
        then num.of_nat 0
        else num.min (num.decimal 45 2) (num.mul (num.of_nat failed) (num.decimal 18 2)) in
      record {
        failed_tool_calls = failed;
        tool_calls = calls;
        provider_turns = output.provider_responses;
        final_text_length = text_length;
        score = round_score num (
            num.sub
              (num.add
                (num.add (num.mul tools (num.decimal 45 2)) (num.mul providers (num.decimal 2 1)))
                (num.mul text (num.decimal 35 2)))
              penalty);
      }

  unfoldable pub verification_score : RuntimeOutput → Double
  unfolding round_score
  verification_score output =
      let base = if output.verification_ok then num.of_nat 1 else num.decimal 25 2 in
      let explained =
        ltb 32 (js.length (js.trim output.reason)) && not (output.reason == output.sanitized) in
      round_score num (num.add base (if explained then num.decimal 5 2 else num.of_nat 0))
