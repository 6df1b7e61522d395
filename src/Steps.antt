-- ===== src/Steps.antt =====
-- What a list of plan steps may depend on: the order that the planner builds, the replanner keeps
-- and the executor needs.
use jean_bot.Common.{
  String, ◌≡◌, refl, true, List, [], ◌∷◌, ◌++◌, map, beq_refl, string_eq, includes, All, arith,
}
use jean_bot.Types.{MissionStep}

abbrev pub ids : List MissionStep → List String
ids steps = map (λ s. s.id) steps

-- Every identifier of the second list stands in the first.
abbrev pub Within : List String → List String → Type 0
Within seen wanted = All (λ d. includes seen d ≡ true) wanted

-- Each step depends only on `seen` and on the steps that stand before it.
abbrev pub IsOrdered : List String → List MissionStep → Type 0
IsOrdered seen [] = Unit
IsOrdered seen (s ∷ steps) = Within seen s.depends_on × IsOrdered (s.id ∷ seen) steps

-- The identifiers that are known behind a list of steps.
abbrev pub after : List String → List MissionStep → List String
after seen [] = seen
after seen (s ∷ steps) = after (s.id ∷ seen) steps

abbrev pub Extends : List String → List String → Type 0
Extends seen more = (d : String) → includes seen d ≡ true → includes more d ≡ true

pub includes-cons :
    (a d : String) (seen : List String) → includes seen d ≡ true → includes (a ∷ seen) d ≡ true
includes-cons a d seen h = ground arith

pub includes-cons_self : (a : String) (seen : List String) → includes (a ∷ seen) a ≡ true
includes-cons_self a seen = ground (arith, beq_refl a)

pub Extends-cons :
    (a : String) (seen more : List String) → Extends seen more → Extends (a ∷ seen) (a ∷ more)
Extends-cons a seen more h d = ground (arith, h d)

pub Within-Extends :
    (seen more wanted : List String) → Extends seen more → Within seen wanted → Within more wanted
Within-Extends seen more [] h w = tt
Within-Extends seen more (d ∷ ds) h w = (h d w.0, Within-Extends seen more ds h w.1)

pub IsOrdered-Extends :
    (seen more : List String) (steps : List MissionStep)
    → Extends seen more
    → IsOrdered seen steps
    → IsOrdered more steps
IsOrdered-Extends seen more [] h w = tt
IsOrdered-Extends seen more (s ∷ steps) h w = (
  Within-Extends seen more s.depends_on h w.0,
  IsOrdered-Extends (s.id ∷ seen) (s.id ∷ more) steps (Extends-cons s.id seen more h) w.1,
)

pub IsOrdered-append :
    (seen : List String) (xs ys : List MissionStep)
    → IsOrdered seen xs
    → IsOrdered (after seen xs) ys
    → IsOrdered seen (xs ++ ys)
IsOrdered-append seen [] ys h k = k
IsOrdered-append seen (s ∷ xs) ys h k = (h.0, IsOrdered-append (s.id ∷ seen) xs ys h.1 k)

pub IsOrdered-prefix :
    (seen : List String) (xs ys : List MissionStep) → IsOrdered seen (xs ++ ys) → IsOrdered seen xs
IsOrdered-prefix seen [] ys h = tt
IsOrdered-prefix seen (s ∷ xs) ys h = (h.0, IsOrdered-prefix (s.id ∷ seen) xs ys h.1)

pub IsOrdered-suffix :
    (seen : List String) (xs ys : List MissionStep)
    → IsOrdered seen (xs ++ ys)
    → IsOrdered (after seen xs) ys
IsOrdered-suffix seen [] ys h = h
IsOrdered-suffix seen (s ∷ xs) ys h = IsOrdered-suffix (s.id ∷ seen) xs ys h.1

pub Extends-after : (seen : List String) (xs : List MissionStep) → Extends seen (after seen xs)
Extends-after seen [] d h = h
Extends-after seen (s ∷ xs) d h = Extends-after (s.id ∷ seen) xs d (includes-cons s.id d seen h)

pub Extends-after_both :
    (seen more : List String) (xs : List MissionStep)
    → Extends seen more
    → Extends (after seen xs) (after more xs)
Extends-after_both seen more [] h = h
Extends-after_both seen more (s ∷ xs) h =
    Extends-after_both (s.id ∷ seen) (s.id ∷ more) xs (Extends-cons s.id seen more h)

-- All that a list of steps adds is known behind it.
pub Within-after : (seen : List String) (xs : List MissionStep) → Within (after seen xs) (ids xs)
Within-after seen [] = tt
Within-after seen (s ∷ xs) = (
  Extends-after (s.id ∷ seen) xs s.id (includes-cons_self s.id seen),
  Within-after (s.id ∷ seen) xs,
)

pub ids-append : (xs ys : List MissionStep) → ids (xs ++ ys) ≡ ids xs ++ ids ys
ids-append [] ys = refl
ids-append (s ∷ xs) ys = rw (ids-append xs ys)
