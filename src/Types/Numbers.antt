-- ===== src/Types/Numbers.antt =====
-- JavaScript's numbers and the order of the calls that the host answers.
use Prim.Native.Nat.{ℕ}
use Prim.Native.String.{String}
use mathlib.Core.Bool.{Bool}

-- An IEEE 754 double, by its 64-bit pattern. Only the scores of a step need fractions: counts,
-- versions and money in cents are natural numbers.
pub data Double : Type 0 where
  of_bits : ℕ → Double

-- The host's floating-point arithmetic, which the code calls and does not define. `decimal n k` is
-- the literal n / 10 ^ k, `of_nat` an integer, `to_fixed k x` is `Number(x.toFixed(k))`.
pub record Arithmetic : Type 0 where
  pub decimal : ℕ → ℕ → Double
  pub of_nat : ℕ → Double
  pub add : Double → Double → Double
  pub sub : Double → Double → Double
  pub mul : Double → Double → Double
  pub div : Double → Double → Double
  pub min : Double → Double → Double
  pub max : Double → Double → Double
  pub lt : Double → Double → Bool
  pub le : Double → Double → Bool
  pub to_fixed : ℕ → Double → Double

-- What the i-th call of `crypto.randomUUID()` and of `new Date().toISOString()` returns within one
-- operation.
pub record Stamps : Type 0 where
  pub uuid : ℕ → String
  pub iso : ℕ → String
