-- ===== src/Types/Outcomes.antt =====
-- packages/types/src/index.ts: failure classes and the words of the decision log, with their equality.
use jean_bot.Common.{ℕ, zero, suc, ◌≡◌, refl, ◌↔◌, true, Eq, nat_beq}
use jean_bot.Types.Codes.{codes_beq_iff}

pub data FailureClass : Type 0 where
  none tooling verification coverage policy runtime : FailureClass

abbrev failure_class_code : FailureClass → ℕ
failure_class_code FailureClass.none = 0
failure_class_code FailureClass.tooling = 1
failure_class_code FailureClass.verification = 2
failure_class_code FailureClass.coverage = 3
failure_class_code FailureClass.policy = 4
failure_class_code FailureClass.runtime = 5

abbrev failure_class_at : ℕ → FailureClass
failure_class_at zero = FailureClass.none
failure_class_at (suc zero) = FailureClass.tooling
failure_class_at (suc (suc zero)) = FailureClass.verification
failure_class_at (suc (suc (suc zero))) = FailureClass.coverage
failure_class_at (suc (suc (suc (suc zero)))) = FailureClass.policy
failure_class_at _ = FailureClass.runtime

failure_class_at-code : (a : FailureClass) → failure_class_at (failure_class_code a) ≡ a
failure_class_at-code FailureClass.none = refl
failure_class_at-code FailureClass.tooling = refl
failure_class_at-code FailureClass.verification = refl
failure_class_at-code FailureClass.coverage = refl
failure_class_at-code FailureClass.policy = refl
failure_class_at-code FailureClass.runtime = refl

pub failure_class_beq_iff :
    (a b : FailureClass) → (nat_beq (failure_class_code a) (failure_class_code b) ≡ true) ↔ (a ≡ b)
failure_class_beq_iff = codes_beq_iff failure_class_code failure_class_at failure_class_at-code

instance abbrev pub failure_class_eq : Eq FailureClass
failure_class_eq = record {
  beq = λ a b. nat_beq (failure_class_code a) (failure_class_code b);
  beq_iff = failure_class_beq_iff;
}

pub data Severity : Type 0 where
  info warning critical : Severity

pub data Scope : Type 0 where
  mission step plan policy recovery : Scope

pub data Category : Type 0 where
  assessment retry replan escalation checkpoint approval completion failure : Category

abbrev category_code : Category → ℕ
category_code Category.assessment = 0
category_code Category.retry = 1
category_code Category.replan = 2
category_code Category.escalation = 3
category_code Category.checkpoint = 4
category_code Category.approval = 5
category_code Category.completion = 6
category_code Category.failure = 7

abbrev category_at : ℕ → Category
category_at zero = Category.assessment
category_at (suc zero) = Category.retry
category_at (suc (suc zero)) = Category.replan
category_at (suc (suc (suc zero))) = Category.escalation
category_at (suc (suc (suc (suc zero)))) = Category.checkpoint
category_at (suc (suc (suc (suc (suc zero))))) = Category.approval
category_at (suc (suc (suc (suc (suc (suc zero)))))) = Category.completion
category_at _ = Category.failure

category_at-code : (a : Category) → category_at (category_code a) ≡ a
category_at-code Category.assessment = refl
category_at-code Category.retry = refl
category_at-code Category.replan = refl
category_at-code Category.escalation = refl
category_at-code Category.checkpoint = refl
category_at-code Category.approval = refl
category_at-code Category.completion = refl
category_at-code Category.failure = refl

pub category_beq_iff :
    (a b : Category) → (nat_beq (category_code a) (category_code b) ≡ true) ↔ (a ≡ b)
category_beq_iff = codes_beq_iff category_code category_at category_at-code

instance abbrev pub category_eq : Eq Category
category_eq = record {
  beq = λ a b. nat_beq (category_code a) (category_code b);
  beq_iff = category_beq_iff;
}

pub data ArtifactKind : Type 0 where
  report checkpoint log data_file plan : ArtifactKind
