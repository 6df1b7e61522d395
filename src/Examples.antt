-- ===== src/Examples.antt =====
-- Concrete missions, plans and hosts, on which the theorems are applied and the definitions are run.
mod Missions
mod Execution
mod Services
mod Agents
mod Lives
mod Runs
mod Jobs
use jean_bot.Common.{
  ℕ, zero, suc, ◌+◌, ◌-◌, ◌*◌, ◌/◌, String, Bool, true, false, Option, none, some, List, [], ◌∷◌,
  ltb, leb, if◌then◌else◌, JsText,
}
use jean_bot.Types.{
  Capability, RiskLevel, StepStatus, Stage, ToolKind, MissionStatus, FailureClass, Arithmetic,
  Double, of_bits, Stamps, MissionObjective, MissionStep, MissionPlan, MissionRecord,
  PolicyDecision, StepExecutionDiagnostics, StepExecutionRecord,
}
use jean_bot.Planner.{create_plan}
use jean_bot.Replanner.{StepExecutionFailureContext}
use jean_bot.Intelligence.{ToolCall, RuntimeOutput}

-- A host whose texts are in lower case and without superfluous blanks already.
abbrev units : String → ℕ
units String.[] = 0
units (String.◌∷◌ c s) = suc (units s)

abbrev first_units : ℕ → String → String
first_units zero s = ""
first_units (suc n) String.[] = ""
first_units (suc n) (String.◌∷◌ c s) = String.◌∷◌ c (first_units n s)

abbrev pub host_text : JsText
host_text = record {
  to_lower = λ s. s;
  collapse = λ s. s;
  trim = λ s. s;
  length = units;
  take = first_units;
}

abbrev pub units_of : Double → ℕ
units_of (of_bits n) = n

-- Thousandths in place of doubles.
abbrev pub thousandths : Arithmetic
thousandths = record {
  decimal = λ n k. of_bits (if leb k 1 then n * 100 else n * 10);
  of_nat = λ n. of_bits (n * 1000);
  add = λ a b. of_bits (units_of a + units_of b);
  sub = λ a b. of_bits (units_of a - units_of b);
  mul = λ a b. of_bits (units_of a * units_of b / 1000);
  div = λ a b. of_bits (units_of a * 1000 / units_of b);
  min = λ a b. if leb (units_of a) (units_of b) then a else b;
  max = λ a b. if leb (units_of a) (units_of b) then b else a;
  lt = λ a b. ltb (units_of a) (units_of b);
  le = λ a b. leb (units_of a) (units_of b);
  to_fixed = λ k a. a;
}

abbrev pub stamps : Stamps
stamps = record { uuid = λ i. "uuid"; iso = λ i. "2026-01-01" }

abbrev pub audit_objective : MissionObjective
audit_objective = record {
  id = "m1";
  tenant_id = none;
  workspace_id = "w1";
  user_id = "u1";
  title = "audit the build";
  objective = "analyze the build logs";
  context = "";
  constraints = [];
  desired_outcome = none;
  required_capabilities = Capability.research ∷ Capability.terminal ∷ Capability.research ∷ [];
  risk = RiskLevel.low;
  created_at = "2026-01-01";
}

abbrev pub free_pass : PolicyDecision
free_pass = record {
  allowed = true;
  reason = "";
  approval_required = false;
  risk = RiskLevel.low;
  rule_hits = [];
  blocked_actions = [];
}

abbrev pub step : String → Capability → Stage → List String → StepStatus → MissionStep
step id capability stage depends_on status = record {
  id = id;
  title = id;
  description = "";
  capability = capability;
  stage = some stage;
  tool_kind = none;
  depends_on = depends_on;
  verification = "";
  assignee = "main-agent";
  status = status;
}

abbrev pub gather : MissionStep
gather = step "gather" Capability.memory Stage.preflight [] StepStatus.completed

abbrev pub build : MissionStep
build = step "build" Capability.terminal Stage.execution ("gather" ∷ []) StepStatus.pending

abbrev pub deliver : MissionStep
deliver = step "deliver" Capability.writing Stage.delivery ("build" ∷ []) StepStatus.pending

abbrev pub plan : MissionPlan
plan = record {
  id = "plan-m1";
  mission_id = "m1";
  version = none;
  summary = "Build and deliver.";
  steps = gather ∷ build ∷ deliver ∷ [];
  estimated_duration_minutes = 21;
  estimated_cost_cents = 10;
  checkpoints = [];
  alternatives = [];
  generated_at = "2026-01-01";
}

abbrev pub mission : MissionRecord
mission = record {
  objective = audit_objective;
  plan = some plan;
  result = none;
  active_execution = none;
  status = MissionStatus.running;
  artifacts = none;
  approvals = none;
  plan_version = none;
  replan_count = none;
  decision_log = none;
  replan_history = none;
  transitions = none;
  last_updated_at = "2026-01-01";
}

abbrev pub failure_of : MissionStep → StepExecutionFailureContext
failure_of failed = record {
  step = failed;
  attempts = 3;
  error_message = "exit code 2";
  diagnostics = none;
}

-- A run that used no tool, and one that used a terminal.
abbrev pub idle_output : RuntimeOutput
idle_output = record {
  final_text = "";
  tool_calls = [];
  provider_responses = 1;
  verification_ok = true;
  sanitized = "";
  reason = "";
}

abbrev pub busy_output : RuntimeOutput
busy_output = record idle_output {
  tool_calls =
      record {
        id = "c1";
        tool_id = "terminal.exec";
        action = "run";
        started_at = "";
        finished_at = "";
        ok = true;
        message = "";
        payload_preview = "";
      }
      ∷ [];
}
