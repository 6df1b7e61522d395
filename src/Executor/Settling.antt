-- ===== src/Executor/Settling.antt =====
-- What the loop over the results of a batch does to the weight of the mission.
use jean_bot.Common.{
  ℕ, suc, ◌≤◌, true, false, ◌||◌, ◌≡◌, refl, sym, ap, ◌∙◌, none, List, [], ◌∷◌, string_eq, nat_eq,
  is_some, Bool-cases, if-cases, inl, inr, arith,
}
use jean_bot.Types.{MissionStep, step_status_eq}
use jean_bot.Retries.{step_failure, error, value}
use jean_bot.Replanner.{StepExecutionFailureContext, AdaptiveReplanResult, apply}
use jean_bot.Executor.{
  ExecutorHost, StepEnd, fulfilled, broke, Batch, take_replan, failure_now, take_failure,
  settle_end, settle_batch,
}
use jean_bot.Executor.Weight.{is_fulfilled}
use jean_bot.Executor.Replans.{weight, take_replan-weight, refused-weight}

abbrev pub load : Batch → ℕ
load b = weight b.progress.mission

-- What the loop over the results keeps: the mission grows no heavier, an unrecoverable failure and
-- a replan stay noted, and a first replan makes the mission lighter.
pub record Settles (b c : Batch) : Type 0 where
  pub lighter : load c ≤ load b
  pub kept : is_some b.unrecoverable ≡ true → is_some c.unrecoverable ≡ true
  pub applied : b.replan_applied ≡ true → c.replan_applied ≡ true
  pub spent : b.replan_applied ≡ false → c.replan_applied ≡ true → suc (load c) ≤ load b

Settles-self : (b : Batch) → Settles b b
Settles-self b = record {
  lighter = omega arith;
  kept = λ h. h;
  applied = λ h. h;
  spent = λ h k. cc (sym h ∙ k);
}

Settles-then : (b c d : Batch) → Settles b c → Settles c d → Settles b d
Settles-then b c d h k = record {
  lighter = omega (arith, h.lighter, k.lighter);
  kept = λ x. k.kept (h.kept x);
  applied = λ x. k.applied (h.applied x);
  spent = λ before after. elim (Bool-cases c.replan_applied) [
    | inl early ↦ omega (arith, h.spent before early, k.lighter)
    | inr late ↦ omega (arith, h.lighter, k.spent late after)
  ];
}

take_failure-Settles :
    (replan : AdaptiveReplanResult) (failure : StepExecutionFailureContext) (b : Batch)
    → (replan.patched ≡ true → suc (weight (take_replan replan b.progress.mission)) ≤ load b)
    → Settles b (take_failure replan failure b)
unfolding take_failure
take_failure-Settles replan failure b h =
    if-cases (Settles b) replan.patched
      (λ patched. record {
        lighter = omega (arith, h patched);
        kept = λ x. x;
        applied = λ x. refl;
        spent = λ x y. h patched;
      })
      (λ refused.
        let same = refused-weight replan b.progress.mission refused in
        record {
          lighter = omega (arith, same);
          kept = λ x. refl;
          applied = λ x. x;
          spent = λ x y. cc (sym x ∙ y);
        })

take_failure-noted :
    (replan : AdaptiveReplanResult) (failure : StepExecutionFailureContext) (b : Batch)
    → ((take_failure replan failure b).replan_applied
        || is_some (take_failure replan failure b).unrecoverable)
      ≡ true
unfolding take_failure
take_failure-noted replan failure b =
    if-cases (λ (c : Batch). (c.replan_applied || is_some c.unrecoverable) ≡ true) replan.patched
      (λ patched. refl) (λ refused. ground arith)

module _ (host : ExecutorHost) (round : ℕ) where
  abbrev replan_of : MissionStep → StepExecutionFailureContext → Batch → AdaptiveReplanResult
  replan_of step failure b =
      apply host.js host.num (host.stamps round step) b.progress.mission
        (failure_now b.progress.mission failure)

  settle_end-Settles :
      (e : MissionStep × StepEnd) (b : Batch) → Settles b (settle_end host round e b)
  unfolding settle_end
  settle_end-Settles (step, fulfilled outcome) b = record {
    lighter = omega arith;
    kept = λ x. x;
    applied = λ x. x;
    spent = λ x y. cc (sym x ∙ y);
  }
  settle_end-Settles (step, broke status (step_failure failure)) b =
      take_failure-Settles (replan_of step failure b) failure b (
        take_replan-weight host.js host.num (host.stamps round step) b.progress.mission
          (failure_now b.progress.mission failure))
  settle_end-Settles (step, broke status (error message)) b = record {
    lighter = omega arith;
    kept = λ x. refl;
    applied = λ x. x;
    spent = λ x y. cc (sym x ∙ y);
  }
  settle_end-Settles (step, broke status (value text)) b = record {
    lighter = omega arith;
    kept = λ x. refl;
    applied = λ x. x;
    spent = λ x y. cc (sym x ∙ y);
  }

  settle_end-noted :
      (step : MissionStep) (e : StepEnd) (b : Batch)
      → is_fulfilled e ≡ false
      → ((settle_end host round (step, e) b).replan_applied
          || is_some (settle_end host round (step, e) b).unrecoverable)
        ≡ true
  unfolding settle_end
  settle_end-noted step (fulfilled outcome) b h = cc h
  settle_end-noted step (broke status (step_failure failure)) b h =
      take_failure-noted (replan_of step failure b) failure b
  settle_end-noted step (broke status (error message)) b h = ground arith
  settle_end-noted step (broke status (value text)) b h = ground arith

  pub settle_batch-Settles :
      (ends : List (MissionStep × StepEnd)) (b : Batch) → Settles b (settle_batch host round ends b)
  unfolding settle_batch
  settle_batch-Settles [] b = Settles-self b
  settle_batch-Settles (e ∷ ends) b =
      Settles-then b (settle_end host round e b) _ (settle_end-Settles e b)
        (settle_batch-Settles ends (settle_end host round e b))

  noted-false :
      (b c : Batch)
      → Settles b c
      → (b.replan_applied || is_some b.unrecoverable) ≡ true
      → c.unrecoverable ≡ none
      → c.replan_applied ≡ false
      → ⊥
  noted-false b c h n u r = elim (Bool-cases b.replan_applied) [
    | inl yet ↦ cc (sym r ∙ h.applied yet)
    | inr not_yet ↦ cc (ap is_some (sym u) ∙ h.kept (rw not_yet at n))
  ]

  -- Without a failure and a replan the first step of the batch ended with an outcome.
  pub settle_batch-fulfilled :
      (step : MissionStep) (e : StepEnd) (ends : List (MissionStep × StepEnd)) (b : Batch)
      → (settle_batch host round ((step, e) ∷ ends) b).unrecoverable ≡ none
      → (settle_batch host round ((step, e) ∷ ends) b).replan_applied ≡ false
      → is_fulfilled e ≡ true
  unfolding settle_batch
  settle_batch-fulfilled step e ends b u r = elim (Bool-cases (is_fulfilled e)) [
    | inl good ↦ good
    | inr bad ↦ absurd (
        noted-false (settle_end host round (step, e) b) _
          (settle_batch-Settles ends (settle_end host round (step, e) b))
          (settle_end-noted step e b bad) u r)
  ]
