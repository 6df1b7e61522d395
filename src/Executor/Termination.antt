-- ===== src/Executor/Termination.antt =====
-- The batch loop ends: every round that goes on makes the mission lighter.
use jean_bot.Common.{
  ℕ, zero, suc, ◌+◌, ◌-◌, ◌*◌, ◌≤◌, String, Bool, true, false, ◌≡◌, ◌≢◌, refl, sym, ap, ◌∙◌, Option,
  none, some, List, [], ◌∷◌, map, ◌==◌, string_eq, nat_eq, length, count, filter, any, All,
  if-cases, Option-cases, inl, inr, arith, length-filter-le, beq_refl,
}
use jean_bot.Types.{StepStatus, MissionStep, MissionPlan, MissionRecord, step_status_eq}
use jean_bot.Scheduler.{has_status, ready_steps, promote_ready_steps, select_batch}
use jean_bot.Scheduler.Batches.{select_batch-ne-nil}
use jean_bot.SubAgents.{spawn_for_plan}
use jean_bot.Replanner.{mission_replan_count}
use jean_bot.Executor.{
  ExecutorHost, StepEnd, Progress, Batch, RoundEnd, goes, stops, Executed, completed, raised,
  unfinished, steps_of, marked, settle_batch, end_round, with_steps, run_step, run_batch, run_plan,
  run_with, run_round, sync_remaining, execute_rounds, execute_plan, execute,
}
use jean_bot.Executor.Weight.{
  is_open, is_ready_one, open-promote_ready_steps, open-marked, open-marked-lt,
}
use jean_bot.Executor.Replans.{weight, steps_of-some}
use jean_bot.Executor.Settling.{load, settle_batch-Settles, settle_batch-fulfilled}

-- What a round leaves is lighter than a bound, if there is a next round.
abbrev Lighter : ℕ → RoundEnd → Type 0
Lighter most (goes p) = suc (weight p.mission) ≤ most
Lighter most (stops mission thrown) = Unit

end_round-Lighter :
    (most : ℕ) (b : Batch)
    → (b.replan_applied ≡ true → suc (load b) ≤ most)
    → (b.unrecoverable ≡ none → b.replan_applied ≡ false → suc (load b) ≤ most)
    → Lighter most (end_round b)
unfolding end_round
end_round-Lighter most b h k = elim (Option-cases b.unrecoverable) [
  | inr (thrown, u) ↦ rw u tt
  | inl u ↦
      rw u (if-cases (Lighter most) b.replan_applied (λ applied. h applied) (λ plain. k u plain))
]

with_steps-weight :
    (plan : MissionPlan) (steps : List MissionStep) (m : MissionRecord)
    → weight (with_steps plan steps m) ≡ count is_open steps + 14 * (8 - mission_replan_count m)
unfolding mission_replan_count
with_steps-weight plan steps m = refl

All-ready :
    (whole steps : List MissionStep)
    → ((id : String) → any (is_ready_one id) steps ≡ true → any (is_ready_one id) whole ≡ true)
    → All (λ s. any (is_ready_one s.id) whole ≡ true) (filter (has_status StepStatus.ready) steps)
All-ready whole [] h = tt
All-ready whole (s ∷ steps) h =
    let later = All-ready whole steps (λ id m. h id (ground (arith, m))) in
    if-cases (All (λ s. any (is_ready_one s.id) whole ≡ true)) (s.status == StepStatus.ready)
      (λ ready. (h s.id (rw (ready, beq_refl s.id) refl), later)) (λ other. later)

ready_steps-ready :
    (steps : List MissionStep) → All (λ s. any (is_ready_one s.id) steps ≡ true) (ready_steps steps)
unfolding ready_steps
ready_steps-ready steps = All-ready steps steps (λ id m. m)

nonempty : (ready : List MissionStep) → (length ready == 0) ≡ false → ready ≢ []
nonempty ready h e = cc (sym h ∙ ap (λ l. length l == 0) e)

Lighter-le : (few most : ℕ) (end : RoundEnd) → few ≤ most → Lighter few end → Lighter most end
Lighter-le few most (goes p) h l = omega (arith, h, l)
Lighter-le few most (stops mission thrown) h l = tt

module _ (host : ExecutorHost) (round : ℕ) where
  run_batch-Lighter :
      (plan : MissionPlan) (steps batch : List MissionStep) (p : Progress)
      → All (λ s. any (is_ready_one s.id) steps ≡ true) batch
      → batch ≢ []
      → Lighter
          (count is_open steps + 14 * (8 - mission_replan_count p.mission))
          (run_batch host round plan steps batch p)
  unfolding run_batch
  run_batch-Lighter plan steps [] p h some_step = absurd (some_step refl)
  run_batch-Lighter plan steps (first ∷ batch) p h some_step =
      let templates = spawn_for_plan host.env host.name_before plan in
      let end_of : MissionStep → StepEnd = λ step. run_step host round p.mission templates step in
      let ends = map (λ (step : MissionStep). (step, end_of step)) batch in
      let all_ends = (first, end_of first) ∷ ends in
      let ran : Progress = record p {
        mission = with_steps plan (map (marked all_ends) steps) p.mission;
      } in
      let start : Batch = record { progress = ran; replan_applied = false; unrecoverable = none } in
      let settles = settle_batch-Settles host round all_ends start in
      let before = with_steps-weight plan (map (marked all_ends) steps) p.mission in
      end_round-Lighter _ (settle_batch host round all_ends start)
        (λ applied. omega (arith, settles.spent refl applied, before, open-marked all_ends steps))
        (λ u r.
          let good = settle_batch-fulfilled host round first (end_of first) ends start u r in
          omega (
            arith,
            settles.lighter,
            before,
            open-marked-lt first (end_of first) ends steps good h.0,
          ))

  run_plan-Lighter :
      (plan : MissionPlan) (p : Progress)
      → p.mission.plan ≡ some plan
      → Lighter (weight p.mission) (run_plan host round plan p)
  unfolding run_plan mission_replan_count
  run_plan-Lighter plan p there =
      let steps = promote_ready_steps plan.steps in
      let ready = ready_steps steps in
      let templates = spawn_for_plan host.env host.name_before plan in
      let batch = select_batch ready templates host.max_parallelism in
      let synced : Progress = record p {
        mission = with_steps plan steps p.mission;
        remaining = sync_remaining steps p.remaining;
      } in
      if-cases (Lighter (weight p.mission)) (length ready == 0) (λ none_ready. tt)
        (λ some_ready.
          let chosen =
            select_batch-ne-nil (λ s. any (is_ready_one s.id) steps ≡ true) ready templates
              host.max_parallelism (ready_steps-ready steps) (nonempty ready some_ready) in
          Lighter-le _ _ (run_batch host round plan steps batch synced)
            (omega (
              arith,
              open-promote_ready_steps plan.steps,
              ap (count is_open) (steps_of-some p.mission plan there),
            ))
            (run_batch-Lighter plan steps batch synced chosen.0 chosen.1))

  run_with-Lighter :
      (p : Progress) (o : Option MissionPlan)
      → p.mission.plan ≡ o
      → Lighter (weight p.mission) (run_with host round p o)
  unfolding run_with
  run_with-Lighter p none there = tt
  run_with-Lighter p (some plan) there = run_plan-Lighter plan p there

  run_round-Lighter : (p : Progress) → Lighter (weight p.mission) (run_round host round p)
  unfolding run_round
  run_round-Lighter p = run_with-Lighter p p.mission.plan refl

-- The loop did not run out of rounds.
abbrev pub is_over : Executed → Bool
is_over (completed p) = true
is_over (raised mission thrown) = true
is_over (unfinished p) = false

after_round-over :
    (host : ExecutorHost) (fuel round : ℕ) (end : RoundEnd) (most : ℕ)
    → Lighter most end
    → most ≤ fuel
    → ((q : Progress)
        → suc (weight q.mission) ≤ fuel
        → is_over (execute_rounds host fuel (suc round) q) ≡ true)
    → is_over (elim end [
      | stops mission thrown ↦ raised mission thrown
      | goes q ↦ execute_rounds host fuel (suc round) q
    ])
      ≡ true
after_round-over host fuel round (stops mission thrown) most l m h = refl
after_round-over host fuel round (goes q) most l m h = h q (omega (arith, l, m))

execute_rounds-over :
    (host : ExecutorHost) (fuel round : ℕ) (p : Progress)
    → suc (weight p.mission) ≤ fuel
    → is_over (execute_rounds host fuel round p) ≡ true
unfolding execute_rounds
execute_rounds-over host zero round p h = absurd (omega (arith, h))
execute_rounds-over host (suc fuel) round p h =
    if-cases (λ e. is_over e ≡ true) (length p.remaining == 0) (λ empty. refl)
      (λ more.
        after_round-over host fuel round (run_round host round p) (weight p.mission)
          (run_round-Lighter host round p) (omega (arith, h))
          (execute_rounds-over host fuel (suc round)))

execute_plan-over :
    (host : ExecutorHost) (fuel : ℕ) (mission : MissionRecord) (o : Option MissionPlan)
    → suc (weight mission) ≤ fuel
    → is_over (execute_plan host fuel mission o) ≡ true
unfolding execute_plan
execute_plan-over host fuel mission none h = refl
execute_plan-over host fuel mission (some plan) h = execute_rounds-over host fuel 0 _ h

-- Whatever the runs of the steps return or throw, in whatever round, the batch loop ends: within
-- as many rounds as the plan has steps and 113 more, it has completed or thrown (112 of them are
-- fourteen for each of the eight replans: its round, the at most twelve repairs and the deferred
-- step).
pub execute-over :
    (host : ExecutorHost) (fuel : ℕ) (mission : MissionRecord)
    → length (steps_of mission) + 113 ≤ fuel
    → is_over (execute host fuel mission) ≡ true
unfolding execute
execute-over host fuel mission h =
    execute_plan-over host fuel mission mission.plan
      (omega (arith, h, length-filter-le is_open (steps_of mission)))
