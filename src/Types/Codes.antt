-- ===== src/Types/Codes.antt =====
-- Equality of the string unions: by the numbers of their words.
use jean_bot.Common.{ℕ, ◌≡◌, sym, ap, ◌∙◌, ◌↔◌, true, nat_beq, nat_beq_iff}

-- The equality of an enum goes by the numbers of its words.
pub codes_beq_iff :
    {A : Type 0} (code : A → ℕ) (at : ℕ → A)
    → ((a : A) → at (code a) ≡ a)
    → (a b : A) → (nat_beq (code a) (code b) ≡ true) ↔ (a ≡ b)
codes_beq_iff code at back a b = (
  λ h. sym (back a) ∙ ap at ((nat_beq_iff (code a) (code b)).0 h) ∙ back b,
  λ e. (nat_beq_iff (code a) (code b)).1 (ap code e),
)
