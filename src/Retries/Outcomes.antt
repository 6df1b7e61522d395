-- ===== src/Retries/Outcomes.antt =====
-- The retry loop against its specification: the first attempt that passes the gate is taken.
use jean_bot.Common.{
  ℕ, zero, suc, ◌+◌, ◌*◌, ◌≡◌, refl, ap, ◌∙◌, Bool, true, false, not, ◌&&◌, Option, none, some,
  List, [], ◌∷◌, arith, if◌then◌else◌, leb, ltb, is_some, JsText,
}
use jean_bot.Types.{
  Arithmetic, MissionStep, PolicyDecision, StepExecutionDiagnostics, failure_class_eq,
}
use jean_bot.Scheduler.{retry_limit}
use jean_bot.Intelligence.{assess_step}
use jean_bot.Intelligence.Verdicts.{gate_failed, gate_failed_lem}
use jean_bot.Retries.Paths.{taken, taken-guarded, taken-if, taken-choice, judged_paths}
use jean_bot.Retries.{
  SubAgentExecutionResult, Thrown, step_failure, Run, returned, threw, AttemptHost, AuditCall,
  at_start, at_assessment, at_retry, at_failure, guarded, Event, retry_scheduled, slept,
  retry_reason, capped, Settled, accepted, rejected, before, judged, caught, settle, broke_off,
  give_up, attempt_from, gate_failure, execute_step_with_retries,
}

module _ (js : JsText) (num : Arithmetic) (host : AttemptHost) (step : MissionStep)
    (decision : PolicyDecision) where
  -- A call of the audit service throws.
  abbrev pub throws : ℕ → AuditCall → Bool
  throws attempt call = is_some (host.audit_error attempt call)

  -- A run that returned, whose assessment is logged and passes the quality gate.
  abbrev pub run_passes : ℕ → Run → Bool
  run_passes attempt (returned r) =
      not (throws attempt at_assessment)
      && not (gate_failed (assess_step js num step r.output decision attempt))
  run_passes attempt (threw e) = false

  abbrev pub passes : ℕ → Bool
  passes attempt = not (throws attempt at_start) && run_passes attempt (host.run attempt)

  -- A run that returned, whose assessment is logged and fails the quality gate, and whose retry is
  -- logged: nothing is thrown.
  abbrev pub run_retries : ℕ → Run → Bool
  run_retries attempt (returned r) =
      not (throws attempt at_assessment)
      && gate_failed (assess_step js num step r.output decision attempt)
      && not (throws attempt at_retry)
  run_retries attempt (threw e) = false

  abbrev pub retries : ℕ → Bool
  retries attempt = not (throws attempt at_start) && run_retries attempt (host.run attempt)

  -- The attempt throws, and so does the call that logs it.
  abbrev pub breaks_off : ℕ → Bool
  breaks_off attempt = not (retries attempt) && throws attempt at_failure

  -- The specification: the first of `left` attempts, from `attempt` on, that passes, unless one
  -- before it breaks off.
  abbrev pub first_passing : ℕ → ℕ → Option ℕ
  first_passing zero attempt = none
  first_passing (suc left) attempt =
      let later = first_passing left (attempt + 1) in
      if passes attempt then some attempt else if breaks_off attempt then none else later

  module _ (limit : ℕ) where
    -- What is taken behind the catch block.
    abbrev after_catch : ℕ → Option ℕ → Option ℕ
    after_catch attempt later = if throws attempt at_failure then none else later

    none_at_limit :
        (left attempt : ℕ) (t : Option ℕ)
        → attempt + left ≡ limit
        → t ≡ first_passing left (attempt + 1)
        → (if leb limit attempt then none else t) ≡ first_passing left (attempt + 1)
    none_at_limit zero attempt t h k = ground arith
    none_at_limit (suc left) attempt t h k = ground arith

    taken-caught :
        (left attempt : ℕ) (e : Thrown) (rest : Option Thrown → List Event × Settled)
        → attempt + left ≡ limit
        → ((last : Option Thrown) → taken (rest last).1 ≡ first_passing left (attempt + 1))
        → taken (caught js num host step decision limit attempt e rest).1
          ≡ after_catch attempt (first_passing left (attempt + 1))
    unfolding caught
    taken-caught left attempt e rest h k =
        let waits : List Event = slept (capped (150 * attempt) 500) ∷ [] in
        let go_on = before waits (rest (some e)) in
        taken-guarded (host.audit_error attempt at_failure) (λ thrown. ([], broke_off thrown))
          (if leb limit attempt then ([], rejected (give_up step limit (some e))) else go_on) none
          (λ thrown. refl)
        ∙ ap (after_catch attempt) (
            taken-if (leb limit attempt) ([], rejected (give_up step limit (some e))) go_on
            ∙ none_at_limit left attempt (taken (rest (some e)).1) h (k (some e)))

    first_passing-zero : (left attempt : ℕ) → left ≡ 0 → first_passing left (attempt + 1) ≡ none
    first_passing-zero zero attempt h = refl
    first_passing-zero (suc left) attempt h = absurd (omega (arith, h))

    -- What the rest of the loop takes behind an attempt.
    abbrev onward : ℕ → ℕ → Bool → Bool → Option ℕ
    onward left attempt passed quiet =
        if passed
        then some attempt
        else if not quiet && throws attempt at_failure
        then none
        else first_passing left (attempt + 1)

    taken-judged :
        (left attempt : ℕ) (r : SubAgentExecutionResult) (d : StepExecutionDiagnostics)
        (last : Option Thrown) (rest : Option Thrown → List Event × Settled)
        → attempt + left ≡ limit
        → (gate_failed d ≡ true → d.retryable ≡ true)
        → ((later : Option Thrown) → taken (rest later).1 ≡ first_passing left (attempt + 1))
        → taken (judged js num host step decision limit attempt r d last rest).1
          ≡ onward left attempt
              (not (throws attempt at_assessment) && not (gate_failed d))
              (not (throws attempt at_assessment) && gate_failed d && not (throws attempt at_retry))
    unfolding judged
    taken-judged left attempt r d last rest h retry k =
        let later = first_passing left (attempt + 1) in
        let lost = after_catch attempt later in
        let catch : Thrown → List Event × Settled =
          λ e. caught js num host step decision limit attempt e rest in
        let in_catch : (e : Thrown) → taken (catch e).1 ≡ lost =
          λ e. taken-caught left attempt e rest h k in
        let scheduled : List Event = retry_scheduled attempt (retry_reason d) ∷ [] in
        let waits : List Event = slept (capped (175 * attempt) 650) ∷ [] in
        let again = guarded (host.audit_error attempt at_retry) catch (before waits (rest last)) in
        let thrown = catch (step_failure (gate_failure step attempt d)) in
        let kept : List Event × Settled =
          ([], accepted (record { result = r; diagnostics = d; attempts = attempt })) in
        let retried = gate_failed d && d.retryable && ltb attempt limit in
        let failed_now = gate_failed d && leb limit attempt in
        taken-guarded (host.audit_error attempt at_assessment) catch
          (if retried then before scheduled again else if failed_now then thrown else kept) lost
          in_catch
        ∙ ap (λ t. if throws attempt at_assessment then lost else t)
            (taken-choice retried failed_now (before scheduled again) thrown kept
              (if throws attempt at_retry then lost else later) lost (some attempt)
              (taken-guarded (host.audit_error attempt at_retry) catch (before waits (rest last))
                  lost in_catch
                ∙ ap (λ t. if throws attempt at_retry then lost else t) (k last))
              (in_catch (step_failure (gate_failure step attempt d))) refl)
        ∙ judged_paths limit left attempt (throws attempt at_assessment) (gate_failed d) d.retryable
            (throws attempt at_retry) (throws attempt at_failure) (some attempt) later h retry
            (first_passing-zero left attempt)

    taken-settle :
        (left attempt : ℕ) (run : Run) (last : Option Thrown)
        (rest : Option Thrown → List Event × Settled)
        → attempt + left ≡ limit
        → ((later : Option Thrown) → taken (rest later).1 ≡ first_passing left (attempt + 1))
        → taken (settle js num host step decision limit attempt run last rest).1
          ≡ onward left attempt (run_passes attempt run) (run_retries attempt run)
    unfolding settle
    taken-settle left attempt (returned r) last rest h k =
        taken-judged left attempt r (assess_step js num step r.output decision attempt) last rest h
          (gate_failed_lem js num step r.output decision attempt).1 k
    taken-settle left attempt (threw e) last rest h k = taken-caught left attempt e rest h k

    start_paths :
        (left attempt : ℕ) (unlogged passed quiet : Bool)
        → (if unlogged
            then after_catch attempt (first_passing left (attempt + 1))
            else onward left attempt passed quiet)
          ≡ onward left attempt (not unlogged && passed) (not unlogged && quiet)
    start_paths left attempt true passed quiet = refl
    start_paths left attempt false passed quiet = refl

    taken-attempt_from :
        (left attempt : ℕ) (last : Option Thrown)
        → attempt + left ≡ limit + 1
        → taken (attempt_from js num host step decision limit left attempt last).1
          ≡ first_passing left attempt
    unfolding attempt_from
    taken-attempt_from zero attempt last h = refl
    taken-attempt_from (suc left) attempt last h =
        let run = host.run attempt in
        let rest : Option Thrown → List Event × Settled =
          λ e. attempt_from js num host step decision limit left (attempt + 1) e in
        let next : (e : Option Thrown) → taken (rest e).1 ≡ first_passing left (attempt + 1) =
          λ e. taken-attempt_from left (attempt + 1) e (omega (arith, h)) in
        let ahead : attempt + left ≡ limit = omega (arith, h) in
        let lost = after_catch attempt (first_passing left (attempt + 1)) in
        taken-guarded (host.audit_error attempt at_start)
          (λ e. caught js num host step decision limit attempt e rest)
          (settle js num host step decision limit attempt run last rest) lost
          (λ e. taken-caught left attempt e rest ahead next)
        ∙ ap (λ t. if throws attempt at_start then lost else t)
            (taken-settle left attempt run last rest ahead next)
        ∙ start_paths left attempt (throws attempt at_start) (run_passes attempt run)
            (run_retries attempt run)

  -- Whatever the runs of the sub-agent and the calls of the audit service return or throw, the
  -- retry loop takes the first attempt, up to the limit of the step, that passes: whose start is
  -- logged, whose run returns, and whose assessment is logged and passes the quality gate. It takes
  -- none where there is no such attempt, or where one before it throws and the call that logs this
  -- throws as well.
  pub execute_step_with_retries-taken :
      taken (execute_step_with_retries js num host step decision).1
      ≡ first_passing (retry_limit step) 1
  unfolding execute_step_with_retries
  execute_step_with_retries-taken =
      taken-attempt_from (retry_limit step) (retry_limit step) 1 none (omega arith)
