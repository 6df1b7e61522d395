-- ===== src/Examples/Agents.antt =====
-- Sub-agents of the plan of three steps, and the batch loop on it.
use jean_bot.Common.{◌≡◌, refl, String, Bool, true, false, none, some, [], arith, string_eq}
use jean_bot.Types.{Capability, ArtifactKind, MissionArtifact, capability_eq}
use jean_bot.ModelRouter.{ProviderEnvironment}
use jean_bot.Scheduler.{SubAgentTemplate, template_for}
use jean_bot.SubAgents.{
  spawn_for_plan, CapacityTicket, ActiveRuns, claim_run, release_run, try_claim, has_capacity,
}
use jean_bot.SubAgents.Spawning.{IsTemplateFor, spawn_for_plan-template}
use jean_bot.SubAgents.Capacity.{
  start, claim, release, IsWithin, Reach-IsWithin, release_run-claim_run,
}
use jean_bot.Executor.{ExecutorHost, StepHost, execute}
use jean_bot.Executor.Termination.{is_over, execute-over}
use jean_bot.Examples.Execution.{attempts}
use jean_bot.Examples.{host_text, thousandths, stamps, plan, mission}

abbrev pub plain_env : ProviderEnvironment
plain_env = record { model_provider = none; ollama_model = none }

abbrev pub any_order : String → String → Bool
any_order a b = false

spawn_for_plan-template_example :
    (t : SubAgentTemplate) × (template_for Capability.terminal
        (spawn_for_plan plain_env any_order plan)
      ≡ some t)
    × IsTemplateFor plain_env Capability.terminal t
spawn_for_plan-template_example =
    spawn_for_plan-template plain_env any_order plan Capability.terminal refl

abbrev ticket : CapacityTicket
ticket = record { workspace_id = "w1"; capability = Capability.terminal; run_id = "r1" }

abbrev idle : ActiveRuns
idle = record { by_workspace = λ w. []; by_capability = λ k. [] }

release_run-claim_run_example :
    ((w : String)
      → (release_run ticket (claim_run ticket idle)).by_workspace w ≡ idle.by_workspace w)
    × ((k : String)
        → (release_run ticket (claim_run ticket idle)).by_capability k ≡ idle.by_capability k)
release_run-claim_run_example = release_run-claim_run ticket idle (λ w. refl) (λ k. refl)

abbrev terminal_agent : SubAgentTemplate
terminal_agent = record {
  id = "t";
  role = "r";
  specialization = Capability.terminal;
  instructions = "";
  max_parallel_tasks = 2;
  timeout_ms = none;
  provider = none;
  model = none;
  tool_ids = none;
  escalation_threshold = none;
}

claimed : try_claim ticket terminal_agent 4 idle ≡ some (claim_run ticket idle)
unfolding try_claim has_capacity
claimed = refl

Reach-IsWithin_example : IsWithin 4 2 (release_run ticket (claim_run ticket idle))
Reach-IsWithin_example =
    Reach-IsWithin 4 2
      (release ticket (claim ticket terminal_agent 4 start (omega arith) (omega arith) claimed))

abbrev log_file : MissionArtifact
log_file = record {
  id = "a1";
  kind = ArtifactKind.log;
  title = "log";
  path = "log.txt";
  created_at = "";
  metadata = [];
}

-- Every step is tried until its third run.
abbrev step_host : StepHost
step_host = record {
  started_at = "";
  prepare_error = none;
  attempts = attempts;
  artifact = log_file;
  record_error = none;
}

abbrev pub loop_host : ExecutorHost
loop_host = record {
  js = host_text;
  num = thousandths;
  env = plain_env;
  name_before = any_order;
  max_parallelism = 4;
  step_host = λ round step. step_host;
  stamps = λ round step. stamps;
}

execute-over_example : is_over (execute loop_host 120 mission) ≡ true
execute-over_example = execute-over loop_host 120 mission (omega arith)
