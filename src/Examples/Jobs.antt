-- ===== src/Examples/Jobs.antt =====
-- A job whose executor is the batch loop, on a plan of one step that is taken at its third run.
use jean_bot.Common.{true, none, some, [], ◌∷◌, ◌≡◌, refl}
use jean_bot.Types.{MissionStatus, MissionPlan, MissionRecord}
use jean_bot.Policy.{evaluate_mission}
use jean_bot.Retries.{execute_step_with_retries}
use jean_bot.Intelligence.Metrics.{build_mission_metrics}
use jean_bot.Validator.{validate}
use jean_bot.Lifecycle.{MissionStateStore, ExecutionHost, threw, store_of, process_execution_job}
use jean_bot.Executor.{execute}
use jean_bot.Executor.Result.{ReportHost, execute_mission}
use jean_bot.Executor.Completed.{IsRun, process_execution_job-IsRun}
use jean_bot.Examples.{thousandths, stamps, plan, mission, build}
use jean_bot.Examples.Agents.{loop_host}
use jean_bot.Examples.Lives.{planner, all_stamps}

abbrev one_step : MissionPlan
one_step = record plan { steps = record build { depends_on = [] } ∷ [] }

abbrev short_mission : MissionRecord
short_mission = record mission { plan = some one_step; status = MissionStatus.planned }

abbrev store : MissionStateStore
store = record { cached = short_mission; persisted = short_mission; log = [] }

abbrev reporting : ReportHost
reporting = record {
  fixed_text = λ score. "1.00";
  output_text = λ outcome. "";
  log_path = "log.md";
  report_path = "report.md";
  stamps = stamps;
}

abbrev host : ExecutionHost
host = record {
  planning = planner;
  num = thousandths;
  is_local = true;
  prepares = λ m. true;
  execute = execute_mission loop_host reporting "2026-01-01" 120;
  remember_error = λ m. none;
  distribute = λ s. threw s;
}

job_completed :
    (store_of (process_execution_job host all_stamps "u1" store)).persisted.status
    ≡ MissionStatus.completed
unfolding process_execution_job execute_mission execute execute_step_with_retries evaluate_mission
    validate build_mission_metrics
job_completed = refl

process_execution_job-IsRun_example :
    IsRun host loop_host reporting "2026-01-01"
      (execute loop_host 120 short_mission)
      (store_of (process_execution_job host all_stamps "u1" store))
process_execution_job-IsRun_example =
    process_execution_job-IsRun host loop_host reporting "2026-01-01" 120 all_stamps "u1" store refl
      refl job_completed
