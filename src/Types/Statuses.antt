-- ===== src/Types/Statuses.antt =====
-- packages/types/src/index.ts: the states of missions, steps and approvals, and the stages of a plan, with their equality.
use jean_bot.Common.{ℕ, zero, suc, String, ◌≡◌, refl, ◌↔◌, true, Eq, nat_beq}
use jean_bot.Types.Codes.{codes_beq_iff}

pub data MissionStatus : Type 0 where
  draft queued_for_planning planned awaiting_approval queued_for_execution : MissionStatus
  running blocked completed failed cancelled : MissionStatus

pub data StepStatus : Type 0 where
  pending ready running completed failed skipped : StepStatus

abbrev step_status_code : StepStatus → ℕ
step_status_code StepStatus.pending = 0
step_status_code StepStatus.ready = 1
step_status_code StepStatus.running = 2
step_status_code StepStatus.completed = 3
step_status_code StepStatus.failed = 4
step_status_code StepStatus.skipped = 5

abbrev step_status_at : ℕ → StepStatus
step_status_at zero = StepStatus.pending
step_status_at (suc zero) = StepStatus.ready
step_status_at (suc (suc zero)) = StepStatus.running
step_status_at (suc (suc (suc zero))) = StepStatus.completed
step_status_at (suc (suc (suc (suc zero)))) = StepStatus.failed
step_status_at _ = StepStatus.skipped

step_status_at-code : (a : StepStatus) → step_status_at (step_status_code a) ≡ a
step_status_at-code StepStatus.pending = refl
step_status_at-code StepStatus.ready = refl
step_status_at-code StepStatus.running = refl
step_status_at-code StepStatus.completed = refl
step_status_at-code StepStatus.failed = refl
step_status_at-code StepStatus.skipped = refl

pub step_status_beq_iff :
    (a b : StepStatus) → (nat_beq (step_status_code a) (step_status_code b) ≡ true) ↔ (a ≡ b)
step_status_beq_iff = codes_beq_iff step_status_code step_status_at step_status_at-code

instance abbrev pub step_status_eq : Eq StepStatus
step_status_eq = record {
  beq = λ a b. nat_beq (step_status_code a) (step_status_code b);
  beq_iff = step_status_beq_iff;
}

pub data Stage : Type 0 where
  preflight analysis execution verification delivery : Stage

abbrev stage_code : Stage → ℕ
stage_code Stage.preflight = 0
stage_code Stage.analysis = 1
stage_code Stage.execution = 2
stage_code Stage.verification = 3
stage_code Stage.delivery = 4

abbrev stage_at : ℕ → Stage
stage_at zero = Stage.preflight
stage_at (suc zero) = Stage.analysis
stage_at (suc (suc zero)) = Stage.execution
stage_at (suc (suc (suc zero))) = Stage.verification
stage_at _ = Stage.delivery

stage_at-code : (a : Stage) → stage_at (stage_code a) ≡ a
stage_at-code Stage.preflight = refl
stage_at-code Stage.analysis = refl
stage_at-code Stage.execution = refl
stage_at-code Stage.verification = refl
stage_at-code Stage.delivery = refl

pub stage_beq_iff : (a b : Stage) → (nat_beq (stage_code a) (stage_code b) ≡ true) ↔ (a ≡ b)
stage_beq_iff = codes_beq_iff stage_code stage_at stage_at-code

instance abbrev pub stage_eq : Eq Stage
stage_eq = record { beq = λ a b. nat_beq (stage_code a) (stage_code b); beq_iff = stage_beq_iff }

pub data ApprovalStatus : Type 0 where
  pending approved rejected : ApprovalStatus

pub data ExecutionMode : Type 0 where
  local distributed : ExecutionMode

abbrev mission_status_code : MissionStatus → ℕ
mission_status_code MissionStatus.draft = 0
mission_status_code MissionStatus.queued_for_planning = 1
mission_status_code MissionStatus.planned = 2
mission_status_code MissionStatus.awaiting_approval = 3
mission_status_code MissionStatus.queued_for_execution = 4
mission_status_code MissionStatus.running = 5
mission_status_code MissionStatus.blocked = 6
mission_status_code MissionStatus.completed = 7
mission_status_code MissionStatus.failed = 8
mission_status_code MissionStatus.cancelled = 9

abbrev mission_status_at : ℕ → MissionStatus
mission_status_at zero = MissionStatus.draft
mission_status_at (suc zero) = MissionStatus.queued_for_planning
mission_status_at (suc (suc zero)) = MissionStatus.planned
mission_status_at (suc (suc (suc zero))) = MissionStatus.awaiting_approval
mission_status_at (suc (suc (suc (suc zero)))) = MissionStatus.queued_for_execution
mission_status_at (suc (suc (suc (suc (suc zero))))) = MissionStatus.running
mission_status_at (suc (suc (suc (suc (suc (suc zero)))))) = MissionStatus.blocked
mission_status_at (suc (suc (suc (suc (suc (suc (suc zero))))))) = MissionStatus.completed
mission_status_at (suc (suc (suc (suc (suc (suc (suc (suc zero)))))))) = MissionStatus.failed
mission_status_at _ = MissionStatus.cancelled

mission_status_at-code : (a : MissionStatus) → mission_status_at (mission_status_code a) ≡ a
mission_status_at-code MissionStatus.draft = refl
mission_status_at-code MissionStatus.queued_for_planning = refl
mission_status_at-code MissionStatus.planned = refl
mission_status_at-code MissionStatus.awaiting_approval = refl
mission_status_at-code MissionStatus.queued_for_execution = refl
mission_status_at-code MissionStatus.running = refl
mission_status_at-code MissionStatus.blocked = refl
mission_status_at-code MissionStatus.completed = refl
mission_status_at-code MissionStatus.failed = refl
mission_status_at-code MissionStatus.cancelled = refl

pub mission_status_beq_iff :
    (a b : MissionStatus)
    → (nat_beq (mission_status_code a) (mission_status_code b) ≡ true) ↔ (a ≡ b)
mission_status_beq_iff = codes_beq_iff mission_status_code mission_status_at mission_status_at-code

instance abbrev pub mission_status_eq : Eq MissionStatus
mission_status_eq = record {
  beq = λ a b. nat_beq (mission_status_code a) (mission_status_code b);
  beq_iff = mission_status_beq_iff;
}

abbrev pub mission_status_name : MissionStatus → String
mission_status_name MissionStatus.draft = "draft"
mission_status_name MissionStatus.queued_for_planning = "queued_for_planning"
mission_status_name MissionStatus.planned = "planned"
mission_status_name MissionStatus.awaiting_approval = "awaiting_approval"
mission_status_name MissionStatus.queued_for_execution = "queued_for_execution"
mission_status_name MissionStatus.running = "running"
mission_status_name MissionStatus.blocked = "blocked"
mission_status_name MissionStatus.completed = "completed"
mission_status_name MissionStatus.failed = "failed"
mission_status_name MissionStatus.cancelled = "cancelled"

abbrev approval_status_code : ApprovalStatus → ℕ
approval_status_code ApprovalStatus.pending = 0
approval_status_code ApprovalStatus.approved = 1
approval_status_code ApprovalStatus.rejected = 2

abbrev approval_status_at : ℕ → ApprovalStatus
approval_status_at zero = ApprovalStatus.pending
approval_status_at (suc zero) = ApprovalStatus.approved
approval_status_at _ = ApprovalStatus.rejected

approval_status_at-code : (a : ApprovalStatus) → approval_status_at (approval_status_code a) ≡ a
approval_status_at-code ApprovalStatus.pending = refl
approval_status_at-code ApprovalStatus.approved = refl
approval_status_at-code ApprovalStatus.rejected = refl

pub approval_status_beq_iff :
    (a b : ApprovalStatus)
    → (nat_beq (approval_status_code a) (approval_status_code b) ≡ true) ↔ (a ≡ b)
approval_status_beq_iff =
    codes_beq_iff approval_status_code approval_status_at approval_status_at-code

instance abbrev pub approval_status_eq : Eq ApprovalStatus
approval_status_eq = record {
  beq = λ a b. nat_beq (approval_status_code a) (approval_status_code b);
  beq_iff = approval_status_beq_iff;
}
