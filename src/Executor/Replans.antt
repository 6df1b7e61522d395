-- ===== src/Executor/Replans.antt =====
-- What a replan costs: it opens at most thirteen steps, and one of the eight replans is spent.
use jean_bot.Common.{
  ℕ, ◌+◌, ◌-◌, ◌*◌, ◌≤◌, true, false, ◌≡◌, refl, ap, ◌∙◌, none, some, List, [], ◌∷◌, ◌++◌, length,
  count, Bool-cases, Option-cases, inl, inr, arith, JsText, length-append, suc,
}
use jean_bot.Types.{
  Arithmetic, Stamps, MissionRecord, MissionPlan, MissionStep, MissionReplanPatch,
  MissionDecisionLogEntry,
}
use jean_bot.Replanner.{
  StepExecutionFailureContext, AdaptiveReplanResult, apply, apply_to, patch_plan, splice_at,
  deferred_step, patched_plan, can_replan, mission_replan_count, replans, plan_version_of,
}
use jean_bot.Replanner.Order.{chain}
use jean_bot.Replanner.Budget.{length-build_remediation_steps}
use jean_bot.Replanner.Outcome.{apply-IsPatched, apply_to_may, apply-eq-apply_to}
use jean_bot.Executor.{steps_of, take_replan, append_replan_patch, append_decision_entries}
use jean_bot.Executor.Weight.{is_open, open-splice_at}

module _ (js : JsText) (num : Arithmetic) (stamps : Stamps) (mission : MissionRecord)
    (failure : StepExecutionFailureContext) where
  abbrev repair : MissionPlan → MissionStep → List MissionStep
  repair plan s =
      chain js num stamps mission failure plan
      ++ deferred_step (chain js num stamps mission failure plan) s ∷ []

  patch_plan-spliced :
      (plan : MissionPlan)
      → (patch_plan js num stamps mission failure plan).patched ≡ true
      → splice_at failure.step.id (repair plan) plan.steps
        ≡ some (patch_plan js num stamps mission failure plan).plan.steps
  unfolding patch_plan patched_plan
  patch_plan-spliced plan h =
      elim (Option-cases (splice_at failure.step.id (repair plan) plan.steps)) [
        | inl missed ↦ cc (rw (missed, patch_plan) at h)
        | inr (steps, spliced) ↦ rw (spliced, patch_plan) refl
      ]

  apply_to-spliced :
      (plan : MissionPlan)
      → (apply_to js num stamps mission failure (some plan)).patched ≡ true
      → splice_at failure.step.id (repair plan) plan.steps
        ≡ some (apply_to js num stamps mission failure (some plan)).plan.steps
  unfolding apply_to
  apply_to-spliced plan h = elim (Bool-cases (can_replan mission failure)) [
    | inl may ↦
        rw (apply_to_may js num stamps mission failure plan may)
          (patch_plan-spliced plan (rw may at h))
    | inr may_not ↦ cc (rw may_not at h)
  ]

  length-repair : (plan : MissionPlan) (s : MissionStep) → length (repair plan s) ≤ 13
  length-repair plan s = omega (
    arith,
    length-append (chain js num stamps mission failure plan)
        (deferred_step (chain js num stamps mission failure plan) s ∷ []),
    (length-build_remediation_steps js num stamps mission failure (plan_version_of mission + 1)).1,
  )

  apply-open :
      (plan : MissionPlan)
      → mission.plan ≡ some plan
      → (apply js num stamps mission failure).patched ≡ true
      → count is_open (apply js num stamps mission failure).plan.steps
        ≤ count is_open plan.steps + 13
  apply-open plan e h =
      let same = apply-eq-apply_to js num stamps mission failure plan e in
      rw same (
        open-splice_at failure.step.id (repair plan) 13 plan.steps _ (length-repair plan)
          (apply_to-spliced plan (rw same at h)))

  unplanned : mission.plan ≡ none → (apply js num stamps mission failure).patched ≡ true → ⊥
  unfolding apply apply_to
  unplanned e h = cc (rw e at h)

-- The open steps and the replans that are left, of which each counts for more than it can open.
abbrev pub weight : MissionRecord → ℕ
weight mission = count is_open (steps_of mission) + 14 * (8 - mission_replan_count mission)

told_plan :
    (entries : List MissionDecisionLogEntry) (m : MissionRecord)
    → (append_decision_entries entries m).plan ≡ m.plan
unfolding append_decision_entries
told_plan [] m = refl
told_plan (e ∷ entries) m = refl

told_replans :
    (entries : List MissionDecisionLogEntry) (m : MissionRecord)
    → replans (append_decision_entries entries m) ≡ replans m
unfolding append_decision_entries
told_replans [] m = refl
told_replans (e ∷ entries) m = refl

steps_of-plan : (m n : MissionRecord) → m.plan ≡ n.plan → steps_of m ≡ steps_of n
steps_of-plan m n e = ap (λ o. elim o [ none ↦ [] | some plan ↦ plan.steps ]) e

pub steps_of-some :
    (m : MissionRecord) (plan : MissionPlan) → m.plan ≡ some plan → steps_of m ≡ plan.steps
steps_of-some m plan e = ap (λ o. elim o [ none ↦ [] | some p ↦ p.steps ]) e

pub refused-weight :
    (r : AdaptiveReplanResult) (m : MissionRecord)
    → r.patched ≡ false
    → weight (take_replan r m) ≡ weight m
unfolding take_replan mission_replan_count
refused-weight r m h = rw h (
    ap
      (λ l.
        count is_open l
        + 14 * (8 - length (replans (append_decision_entries r.decision_entries m))))
      (steps_of-plan (append_decision_entries r.decision_entries m) m
        (told_plan r.decision_entries m))
    ∙ ap (λ l. count is_open (steps_of m) + 14 * (8 - length l))
        (told_replans r.decision_entries m))

length-replans :
    (r : AdaptiveReplanResult) (m : MissionRecord) (patch : MissionReplanPatch)
    → length (replans (append_decision_entries r.decision_entries m) ++ patch ∷ [])
      ≡ mission_replan_count m + 1
unfolding mission_replan_count
length-replans r m patch =
    length-append (replans (append_decision_entries r.decision_entries m)) (patch ∷ [])
    ∙ ap (λ l. length l + 1) (told_replans r.decision_entries m)

patched-weight :
    (r : AdaptiveReplanResult) (m : MissionRecord) (patch : MissionReplanPatch)
    → r.patched ≡ true
    → r.replan_patch ≡ some patch
    → weight (take_replan r m)
      ≡ count is_open r.plan.steps + 14 * (8 - (mission_replan_count m + 1))
unfolding take_replan append_replan_patch mission_replan_count
patched-weight r m patch h given =
    rw (h, given) (ap (λ n. count is_open r.plan.steps + 14 * (8 - n)) (length-replans r m patch))

-- A replan that is patched in makes the mission lighter.
pub take_replan-weight :
    (js : JsText) (num : Arithmetic) (stamps : Stamps) (m : MissionRecord)
    (failure : StepExecutionFailureContext)
    → (apply js num stamps m failure).patched ≡ true
    → suc (weight (take_replan (apply js num stamps m failure) m)) ≤ weight m
take_replan-weight js num stamps m failure h = elim (Option-cases m.plan) [
  | inl missing ↦ absurd (unplanned js num stamps m failure missing h)
  | inr (plan, there) ↦
      let patched = apply-IsPatched js num stamps m failure plan there h in
      let made = patched-weight (apply js num stamps m failure) m patched.patch h patched.given in
      let grown = apply-open js num stamps m failure plan there h in
      let now = ap (count is_open) (steps_of-some m plan there) in
      omega (arith, made, grown, now, patched.allowed.mission_budget)
]
