-- ===== src/Common/Lists.antt =====
-- JavaScript's array operations on lists, with tests into `Bool` and native numbers.
use Prim.Native.Nat.{ℕ, suc, ◌+◌, ◌≤◌}
use mathlib.Core.Path.{◌≡◌, refl}
use mathlib.Core.Logic.{inl, inr}
use mathlib.Core.Bool.{Bool, true, false, not, ◌&&◌, ◌||◌}
use mathlib.Core.Option.{Option, none, some}
use mathlib.Core.List.{List, [], ◌∷◌, ◌++◌}
use native.Mathlib.Omega.{arith}
use jean_bot.Common.Tests.{if◌then◌else◌, Bool-cases}
use jean_bot.Common.Classes.{Eq, ◌==◌, beq_refl}

module _ {ℓ} {A : Type ℓ} where
  abbrev pub length : List A → ℕ
  length [] = 0
  length (x ∷ xs) = suc (length xs)

  abbrev pub filter : (A → Bool) → List A → List A
  filter p [] = []
  filter p (x ∷ xs) = let rest = filter p xs in if p x then x ∷ rest else rest

  abbrev pub any : (A → Bool) → List A → Bool
  any p [] = false
  any p (x ∷ xs) = p x || any p xs

  abbrev pub all : (A → Bool) → List A → Bool
  all p [] = true
  all p (x ∷ xs) = p x && all p xs

  -- `xs.find(p)`, with `undefined` as `none`.
  abbrev pub find : (A → Bool) → List A → Option A
  find p [] = none
  find p (x ∷ xs) = if p x then some x else find p xs

  abbrev pub All {κ} : (A → Type κ) → List A → Type κ
  All P [] = Unit
  All P (x ∷ xs) = P x × All P xs

  -- How many elements pass a test: `xs.filter(p).length`.
  abbrev pub count : (A → Bool) → List A → ℕ
  count p xs = length (filter p xs)

  pub length-append : (xs ys : List A) → length (xs ++ ys) ≡ length xs + length ys
  length-append [] ys = omega arith
  length-append (x ∷ xs) ys = omega (arith, length-append xs ys)

  pub length-filter-le : (p : A → Bool) (xs : List A) → length (filter p xs) ≤ length xs
  length-filter-le p [] = omega arith
  length-filter-le p (x ∷ xs) = ground (arith, length-filter-le p xs)

  pub find-eq-some : (p : A → Bool) (xs : List A) {a : A} → find p xs ≡ some a → p a ≡ true
  find-eq-some p [] h = cc
  find-eq-some p (x ∷ xs) {a} h = ground (arith, find-eq-some p xs {a = a})

module _ {ℓ κ} {A : Type ℓ} (P : A → Type κ) where
  pub All-concat : (xs : List A) (x : A) → All P xs → P x → All P (xs ++ x ∷ [])
  All-concat [] x h p = (p, tt)
  All-concat (y ∷ xs) x h p = (h.0, All-concat xs x h.1 p)

  pub All-append : (xs ys : List A) → All P xs → All P ys → All P (xs ++ ys)
  All-append [] ys h k = k
  All-append (x ∷ xs) ys h k = (h.0, All-append xs ys h.1 k)

module _ {ℓ} {A : Type ℓ} ⦃e : Eq A⦄ where
  -- `xs.includes(a)`.
  abbrev pub includes : List A → A → Bool
  includes [] a = false
  includes (x ∷ xs) a = x == a || includes xs a

  -- The loop of `[...new Set(xs)]`, which keeps the first of equal elements; `seen` is the set.
  abbrev pub unique_from : List A → List A → List A
  unique_from seen [] = []
  unique_from seen (x ∷ xs) =
      let fresh = x ∷ unique_from (x ∷ seen) xs in
      let again = unique_from seen xs in if includes seen x then again else fresh

  abbrev pub unique : List A → List A
  unique xs = unique_from [] xs

module _ {ℓ} {A : Type ℓ} where
  count-le :
      (p q : A → Bool) (xs : List A) → ((a : A) → q a ≡ true → p a ≡ true) → count q xs ≤ count p xs
  count-le p q [] h = omega arith
  count-le p q (x ∷ xs) h = ground (arith, h x, count-le p q xs h)

module _ {ℓ} {A : Type ℓ} ⦃e : Eq A⦄ where
  -- A test that fails at an element of the list, where a weaker one holds, counts fewer.
  pub count-lt :
      (p q : A → Bool) (xs : List A) (x : A)
      → ((a : A) → q a ≡ true → p a ≡ true)
      → includes xs x ≡ true
      → p x ≡ true
      → q x ≡ false
      → suc (count q xs) ≤ count p xs
  count-lt p q [] x h m px qx = cc
  count-lt p q (y ∷ xs) x h m px qx = elim (Bool-cases (y == x)) [
    | inl here ↦
        let same : y ≡ x = (e.beq_iff y x).0 here in
        let py : p y ≡ true = rw same px in
        let qy : q y ≡ false = rw same qx in rw (py, qy) (omega (arith, count-le p q xs h))
    | inr later ↦ ground (arith, h y, count-lt p q xs x h (rw later at m) px qx)
  ]

  unseen-cons :
      (seen : List A) (x a : A) → not (includes (x ∷ seen) a) ≡ true → not (includes seen a) ≡ true
  unseen-cons seen x a h = ground arith

  -- A list without repetitions is no longer than a list of all its elements.
  pub length-unique_from :
      (all_elements seen xs : List A)
      → ((a : A) → includes all_elements a ≡ true)
      → length (unique_from seen xs) ≤ count (λ a. not (includes seen a)) all_elements
  length-unique_from all_elements seen [] h = omega arith
  length-unique_from all_elements seen (x ∷ xs) h = elim (Bool-cases (includes seen x)) [
    | inl old ↦ rw old (length-unique_from all_elements seen xs h)
    | inr new ↦
        let fewer =
          count-lt (λ a. not (includes seen a)) (λ a. not (includes (x ∷ seen) a)) all_elements x
            (unseen-cons seen x) (h x) (rw new refl) (rw (beq_refl x) refl) in
        rw new (omega (arith, fewer, length-unique_from all_elements (x ∷ seen) xs h))
  ]

  pub length-unique_from-le : (seen xs : List A) → length (unique_from seen xs) ≤ length xs
  length-unique_from-le seen [] = omega arith
  length-unique_from-le seen (x ∷ xs) =
      ground (arith, length-unique_from-le seen xs, length-unique_from-le (x ∷ seen) xs)
