-- ===== src/Retries/Paths.antt =====
-- The ways through one round of the retry loop, and the attempt that is taken at their end.
use jean_bot.Common.{
  ℕ, zero, suc, ◌+◌, ◌≡◌, refl, Bool, true, false, not, ◌&&◌, Option, none, some, List, arith,
  if◌then◌else◌, leb, ltb, is_some,
}
use jean_bot.Retries.{Thrown, Event, Settled, accepted, guarded}

abbrev pub taken : Settled → Option ℕ
taken (accepted a) = some a.attempts
taken _ = none

pub taken-guarded :
    (o : Option Thrown) (handler : Thrown → List Event × Settled) (next : List Event × Settled)
    (t : Option ℕ)
    → ((e : Thrown) → taken (handler e).1 ≡ t)
    → taken (guarded o handler next).1 ≡ (if is_some o then t else taken next.1)
taken-guarded none handler next t h = refl
taken-guarded (some e) handler next t h = h e

pub taken-if :
    (b : Bool) (x y : List Event × Settled)
    → taken (if b then x else y).1 ≡ (if b then taken x.1 else taken y.1)
taken-if true x y = refl
taken-if false x y = refl

-- The three ways out of a judged round, by what the audit, the gate and the limit say.
pub judged_paths :
    (limit left attempt : ℕ) (unlogged bad retryable unscheduled lost : Bool)
    (kept later : Option ℕ)
    → attempt + left ≡ limit
    → (bad ≡ true → retryable ≡ true)
    → (left ≡ 0 → later ≡ none)
    → (if unlogged
        then if lost then none else later
        else if bad && retryable && ltb attempt limit
        then if unscheduled then if lost then none else later else later
        else if bad && leb limit attempt
        then if lost then none else later
        else kept)
      ≡ (if not unlogged && not bad
          then kept
          else if not (not unlogged && bad && not unscheduled) && lost
          then none
          else later)
judged_paths limit left attempt true bad retryable unscheduled lost kept later h r n = refl
judged_paths limit left attempt false false retryable unscheduled lost kept later h r n = refl
judged_paths limit left attempt false true false unscheduled lost kept later h r n = cc (r refl)
judged_paths limit left attempt false true true true lost kept later h r n = ground arith
judged_paths limit zero attempt false true true false lost kept later h r n = ground (arith, n refl)
judged_paths limit (suc left) attempt false true true false lost kept later h r n = ground arith

-- What is taken by one of three ways.
pub taken-choice :
    (b c : Bool) (x y z : List Event × Settled) (s t u : Option ℕ)
    → taken x.1 ≡ s
    → taken y.1 ≡ t
    → taken z.1 ≡ u
    → taken (if b then x else if c then y else z).1 ≡ (if b then s else if c then t else u)
taken-choice true c x y z s t u p q r = p
taken-choice false true x y z s t u p q r = q
taken-choice false false x y z s t u p q r = r
