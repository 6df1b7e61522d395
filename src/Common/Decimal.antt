-- ===== src/Common/Decimal.antt =====
-- The decimal digits of a number, as a template literal prints it, and their reading back.
use Prim.Native.Nat.{ℕ, zero, suc, ◌+◌, ◌-◌, ◌*◌, ◌/◌, ◌%◌, ◌<◌}
use Prim.Native.Char.{code}
use Prim.Native.String
use Prim.Native.String.{String}
use mathlib.Core.Path.{◌≡◌, refl, sym, ap, ◌∙◌}
use mathlib.Core.Logic.{inl, inr}
use native.Mathlib.Omega.{arith}
use text.Mathlib.TextLemmas.{nil-append, cons-append}
use jean_bot.Common.Tests.{ltb, if◌then◌else◌, Bool-cases}

abbrev digit : ℕ → String
digit zero = "0"
digit (suc zero) = "1"
digit (suc (suc zero)) = "2"
digit (suc (suc (suc zero))) = "3"
digit (suc (suc (suc (suc zero)))) = "4"
digit (suc (suc (suc (suc (suc zero))))) = "5"
digit (suc (suc (suc (suc (suc (suc zero)))))) = "6"
digit (suc (suc (suc (suc (suc (suc (suc zero))))))) = "7"
digit (suc (suc (suc (suc (suc (suc (suc (suc zero)))))))) = "8"
digit _ = "9"

-- Any fuel above the number is enough.
decimal_from : ℕ → ℕ → String
decimal_from zero n = ""
decimal_from (suc fuel) n =
    let longer = String.◌++◌ (decimal_from fuel (n / 10)) (digit (n % 10)) in
    if ltb n 10 then digit n else longer

unfoldable pub decimal : ℕ → String
unfolding decimal_from
decimal n = decimal_from (suc n) n

abbrev value : ℕ → String → ℕ
value acc String.[] = acc
value acc (String.◌∷◌ c s) = value (acc * 10 + (code c - 48)) s

value-append : (acc : ℕ) (s t : String) → value acc (String.◌++◌ s t) ≡ value (value acc s) t
value-append acc String.[] t = rw nil-append
value-append acc (String.◌∷◌ c s) t = rw cons-append (value-append (acc * 10 + (code c - 48)) s t)

value-digit : (acc d : ℕ) → d < 10 → value acc (digit d) ≡ acc * 10 + d
value-digit acc zero h = omega arith
value-digit acc (suc zero) h = omega arith
value-digit acc (suc (suc zero)) h = omega arith
value-digit acc (suc (suc (suc zero))) h = omega arith
value-digit acc (suc (suc (suc (suc zero)))) h = omega arith
value-digit acc (suc (suc (suc (suc (suc zero))))) h = omega arith
value-digit acc (suc (suc (suc (suc (suc (suc zero)))))) h = omega arith
value-digit acc (suc (suc (suc (suc (suc (suc (suc zero))))))) h = omega arith
value-digit acc (suc (suc (suc (suc (suc (suc (suc (suc zero)))))))) h = omega arith
value-digit acc (suc (suc (suc (suc (suc (suc (suc (suc (suc zero))))))))) h = omega arith
value-digit acc (suc (suc (suc (suc (suc (suc (suc (suc (suc (suc d)))))))))) h =
    absurd (omega arith)

value-decimal_from : (fuel n : ℕ) → n < fuel → value 0 (decimal_from fuel n) ≡ n
unfolding decimal_from
value-decimal_from zero n h = elim h [ ]
value-decimal_from (suc fuel) n h = elim (Bool-cases (ltb n 10)) [
  | inl small ↦ rw small (value-digit 0 n (ground arith) ∙ omega arith)
  | inr large ↦
      let shorter : n / 10 < fuel = ground arith in
      rw (large, value-append)
        (rw (value-decimal_from fuel (n / 10) shorter)
          (value-digit (n / 10) (n % 10) (omega arith) ∙ omega arith))
]

-- Different numbers print differently.
pub decimal-injective : (n m : ℕ) → decimal n ≡ decimal m → n ≡ m
unfolding decimal
decimal-injective n m e =
    sym (value-decimal_from (suc n) n (omega arith))
    ∙ ap (value 0) e
    ∙ value-decimal_from (suc m) m (omega arith)

decimal_test : decimal 1207 ≡ "1207"
unfolding decimal
decimal_test = refl
