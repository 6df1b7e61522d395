-- ===== src/Leases/Queueing.antt =====
-- Queueing and reconciliation keep one lease for each step, and at most three attempts.
use mathlib.Core.Path.{subst}
use jean_bot.Common.{
  String, not, ◌≡◌, refl, sym, ap, ◌∙◌, Option, none, some, List, [], ◌∷◌, ◌++◌, leb, ◌==◌,
  string_eq, count, find, includes, All, All-concat, Bool-cases, if-cases, inl, inr, arith,
  or_default,
}
use jean_bot.Types.{StepExecutionLeaseRecord, MissionStep, Stamps, mission_status_eq}
use jean_bot.Leases.Records.{
  RunState, max_attempts, create_step_execution_job, create_lease, lease_of,
}
use jean_bot.Leases.Batches.{
  lease_step, queue_step, queue_distributed_batch, Reconciliation, is_lease_stale, lease_missing,
  exhaust_lease, renew_lease, reconcile_lease, reconcile_step, reconcile_steps,
}
use jean_bot.Leases.Attempts.{
  Leases, InBudget, is_for, AreLeased, replace_lease-AreLeased, update_leases-AreLeased,
  count-append-one,
}

abbrev pub leases_of : RunState → Leases
leases_of s = s.execution.step_leases

queue_step-AreLeased :
    (stamps : Stamps) (mission_id workspace_root : String) (step : MissionStep) (s : RunState)
    → AreLeased (leases_of s)
    → AreLeased (leases_of (queue_step stamps mission_id workspace_root step s))
unfolding queue_step lease_step create_step_execution_job create_lease
queue_step-AreLeased stamps mission_id workspace_root step s h =
    replace_lease-AreLeased _ (leases_of s) (omega arith, omega arith) h

pub queue_distributed_batch-AreLeased :
    (stamps : MissionStep → Stamps) (mission_id workspace_root : String) (batch : List MissionStep)
    (s : RunState)
    → AreLeased (leases_of s)
    → AreLeased (leases_of (queue_distributed_batch stamps mission_id workspace_root batch s))
unfolding queue_distributed_batch
queue_distributed_batch-AreLeased stamps mission_id workspace_root [] s h = h
queue_distributed_batch-AreLeased stamps mission_id workspace_root (step ∷ batch) s h =
    queue_distributed_batch-AreLeased stamps mission_id workspace_root batch _
      (queue_step-AreLeased (stamps step) mission_id workspace_root step s h)

All-lease_of :
    (step_id : String) (leases : Leases) (lease : StepExecutionLeaseRecord)
    → All InBudget leases
    → lease_of step_id leases ≡ some lease
    → InBudget lease
All-lease_of step_id [] lease h e = cc e
All-lease_of step_id (l ∷ leases) lease h e = elim (Bool-cases (l.step_id == step_id)) [
  | inl here ↦
      let found : some l ≡ some lease = rw here at e in
      subst InBudget (ap (λ o. or_default o l) found) h.0
  | inr later ↦ All-lease_of step_id leases lease h.1 (rw later at e)
]

module _ (r : Reconciliation) (step : MissionStep) (s : RunState) where
  reconcile_lease-AreLeased :
      (o : Option StepExecutionLeaseRecord)
      → ((lease : StepExecutionLeaseRecord) → o ≡ some lease → InBudget lease)
      → AreLeased (leases_of s)
      → AreLeased (leases_of (reconcile_lease r step o s))
  unfolding reconcile_lease lease_missing exhaust_lease renew_lease lease_step
      create_step_execution_job create_lease
  reconcile_lease-AreLeased none b h =
      replace_lease-AreLeased _ (leases_of s) (omega arith, omega arith) h
  reconcile_lease-AreLeased (some lease) b h =
      if-cases (λ t. AreLeased (leases_of t)) (not (is_lease_stale r.time_of r.now lease))
        (λ fresh. h)
        (λ stale.
          if-cases (λ t. AreLeased (leases_of t)) (leb max_attempts lease.attempt)
            (λ last. update_leases-AreLeased step.id _ (λ l. refl) (λ l. refl) (leases_of s) h)
            (λ more.
              replace_lease-AreLeased _ (leases_of s)
                (omega arith, ground (arith, b lease refl, more)) h))

reconcile_step-AreLeased :
    (r : Reconciliation) (o : Option MissionStep) (s : RunState)
    → AreLeased (leases_of s)
    → AreLeased (leases_of (reconcile_step r o s))
unfolding reconcile_step
reconcile_step-AreLeased r none s h = h
reconcile_step-AreLeased r (some step) s h =
    reconcile_lease-AreLeased r step s (lease_of step.id (leases_of s))
      (λ lease found. All-lease_of step.id (leases_of s) lease h.budget found) h

pub reconcile_steps-AreLeased :
    (r : Reconciliation) (settled ids : List String) (s : RunState)
    → AreLeased (leases_of s)
    → AreLeased (leases_of (reconcile_steps r settled ids s))
unfolding reconcile_steps
reconcile_steps-AreLeased r settled [] s h = h
reconcile_steps-AreLeased r settled (id ∷ ids) s h = reconcile_steps-AreLeased r settled ids _ (
    if-cases (λ t. AreLeased (leases_of t)) (includes settled id) (λ old. h)
      (λ open_step. reconcile_step-AreLeased r (find (λ step. step.id == id) s.steps) s h))

lease_of-none :
    (id : String) (leases : Leases) → lease_of id leases ≡ none → count (is_for id) leases ≡ 0
lease_of-none id [] h = refl
lease_of-none id (l ∷ leases) h = elim (Bool-cases (l.step_id == id)) [
  | inl here ↦ cc (rw here at h)
  | inr other ↦ rw other (lease_of-none id leases (rw other at h))
]

pub append-AreLeased :
    (lease : StepExecutionLeaseRecord) (leases : Leases)
    → lease_of lease.step_id leases ≡ none
    → InBudget lease
    → AreLeased leases
    → AreLeased (leases ++ lease ∷ [])
append-AreLeased lease leases missing b h = record {
  single = λ id. elim (Bool-cases (lease.step_id == id)) [
    | inl here ↦
        let same : lease.step_id ≡ id = (string_eq.beq_iff lease.step_id id).0 here in
        let gone : count (is_for id) leases ≡ 0 =
          ap (λ i. count (is_for i) leases) (sym same)
          ∙ lease_of-none lease.step_id leases missing in
        rw (count-append-one id leases lease, here) (omega (arith, gone))
    | inr later ↦ rw (count-append-one id leases lease, later) (omega (arith, h.single id))
  ];
  budget = All-concat InBudget leases lease h.budget b;
}
