-- ===== src/Lib.antt =====
-- Verification of the JeanBot orchestrator: how a mission lives from its draft to its end, how it is
-- planned, scheduled, tried, judged and replanned, and of the services around it whose behaviour is
-- their own code: sub-agents, policy, rate limiting, queues and billing.
--
-- The planner turns an objective and a policy decision into a plan of steps with dependencies. The
-- executor promotes the steps whose dependencies are complete, runs them in batches, and tries a
-- step until its output passes an assessment or its limit is reached. A step that fails goes to
-- the replanner, which puts repair steps before it while the budget lasts. The orchestrator holds
-- the mission's record: it plans it, waits for approvals, runs the executor in a job, and has the
-- validator and the recovery decide how the mission ends.
--
-- Where each part stands:
--   Common      shared names, JavaScript's list and text operations, decimal digits;
--   Types       the data of packages/types/src/index.ts;
--   Steps       plans whose steps depend only on steps before them;
--   Planner     services/agent-orchestrator/src/planner/mission-planner.ts (createPlan is
--               create_plan) and cost-control/cost-estimator.ts beside it;
--   Scheduler   isReady, promoteReadySteps, templateByCapability, selectBatch and retryLimit of
--               services/agent-orchestrator/src/executor/mission-executor.ts;
--   Retries     executeStepWithRetries of the same file;
--   Executor    execute, executeStep, applyAdaptiveReplan, syncRemainingSteps and orderedReports of
--               the same file, in rounds that use Scheduler, Retries, SubAgents and Replanner; its
--               Result is what execute builds behind the loop, as Lifecycle's job takes it;
--   Lifecycle   services/agent-orchestrator/src/index.ts: createMission, planMission,
--               processPlanningJob, approveMission, runMission, processExecutionJob and
--               setMissionStatus, with mission-state/store.ts and dispatcher/mission-dispatcher.ts
--               beside it, LocalMissionRepository of packages/persistence/src/index.ts and
--               validateMissionPlan of packages/validators/src/index.ts;
--   Leases      the leases of steps of the same services/agent-orchestrator/src/index.ts: what the
--               patches of queueDistributedBatch, reconcileDistributedBatchLeases,
--               commitStepOutcome and processStepExecutionJob do to the execution state;
--   SubAgents   services/subagent-service/src/index.ts: templates, spawnForPlan and capacity;
--   ModelRouter  packages/model-router/src/index.ts;
--   Intelligence  assessStep, buildMissionMetrics and buildMissionGaps of
--               executor/execution-intelligence.ts;
--   Replanner   executor/adaptive-replanner.ts (apply is apply, with patch_plan for the part behind
--               its guards);
--   Validator   validator/mission-validator.ts and recovery/recovery-engine.ts beside the executor;
--   Policy      services/policy-service/src/index.ts and riskFromText of packages/security;
--   Cache       packages/cache/src/index.ts: TtlCache and the limiter's local side;
--   Queue       packages/queue/src/index.ts: InMemoryQueue;
--   Billing     services/billing-service/src/index.ts: plans, summaries and quotas;
--   Examples    concrete missions and hosts, on which the theorems are applied.
-- A function keeps its name in snake case. An update of an object in place is a new value that the
-- function returns; the loop of promoteReadySteps, which reads what it writes, passes the array on.
--
-- Parameters. What the code calls and does not define is an argument: the host's text functions
-- (JsText), its floating-point arithmetic (Arithmetic), identifiers and times (Stamps), the runs
-- of a sub-agent and what their audit throws (one answer for each attempt of each step in each
-- round), the clock, and what the persistence of the billing service returns. Counts, versions,
-- times and cents are natural numbers; only the scores of an assessment are doubles. The negative
-- results of the source are written out: a remaining quota or window stops at zero.
--
-- Bounds and fuel. The retry loop recurs on the attempts that are left, which its limit gives. A
-- drain of a queue has the number of rounds as fuel: the items of the queue are enough where the
-- processor puts none into it, and a processor that goes on putting items in has no bound. The
-- batch loop of the executor has its rounds as fuel, and the steps of the plan and 113 more are
-- enough: fourteen for each of the eight replans, which are its own round, at most twelve repairs
-- and the deferred step, and one. All other loops are recursion on a list.
--
-- Not modelled: the distributed job that waits for the batches of workers, the texts of the report
-- and of the decision log, the records of the sub-agents' runs, and all that is I/O: HTTP routes,
-- databases, Redis, Stripe, processes, browsers, remote models. Where a record of the source has
-- fields that no modelled function reads, its comment says which are left out.
pub mod Common
pub mod Types
pub mod Steps
pub mod Planner
pub mod Scheduler
pub mod Replanner
pub mod Intelligence
pub mod Retries
pub mod Policy
pub mod Cache
pub mod Queue
pub mod Billing
pub mod Validator
pub mod ModelRouter
pub mod SubAgents
pub mod Lifecycle
pub mod Leases
pub mod Executor
pub mod Examples
