-- ===== src/Examples/Runs.antt =====
-- A distributed run: a step is queued, and its lease is renewed when no worker takes it.
use jean_bot.Common.{[], ◌∷◌, ◌≡◌, refl, map}
use jean_bot.Types.{ExecutionMode}
use jean_bot.Leases.{
  ExecutionContext, RunState, Reconciliation, start_distributed_execution, queue_distributed_batch,
  reconcile_distributed_batch_leases, reconcile_steps, reconcile_step, reconcile_lease, renew_lease,
  lease_step, queue_step, replace_lease, create_active_execution, is_lease_stale, create_lease,
  create_step_execution_job,
}
use jean_bot.Leases.Attempts.{AreLeased}
use jean_bot.Leases.Reaching.{started, queued, reconciled, Reach-AreLeased}
use jean_bot.Examples.{stamps, plan, build}

abbrev context : ExecutionContext
context = record {
  session_id = "s1";
  workspace_root = "work";
  execution_mode = ExecutionMode.distributed;
}

-- A minute after the step was queued.
abbrev later : Reconciliation
later = record {
  mission_id = "m1";
  workspace_root = "work";
  time_of = λ t. 0;
  now = 60000;
  now_iso = "2026-01-01";
  stamps = λ id. stamps;
}

abbrev new_run : RunState
new_run = start_distributed_execution stamps "m1" context plan.steps

abbrev queued_run : RunState
queued_run = queue_distributed_batch (λ step. stamps) "m1" "work" (build ∷ []) new_run

abbrev renewed_run : RunState
renewed_run = reconcile_distributed_batch_leases later ("build" ∷ []) queued_run

Reach-AreLeased_example : AreLeased renewed_run.execution.step_leases
Reach-AreLeased_example = Reach-AreLeased (
    reconciled later ("build" ∷ [])
      (queued (λ step. stamps) "m1" "work" (build ∷ []) (started stamps "m1" context plan.steps)))

renewed : map (λ l. l.attempt) renewed_run.execution.step_leases ≡ 2 ∷ []
unfolding reconcile_distributed_batch_leases reconcile_steps reconcile_step reconcile_lease
    renew_lease lease_step replace_lease queue_distributed_batch queue_step
    start_distributed_execution create_active_execution is_lease_stale create_lease
    create_step_execution_job
renewed = refl
