-- ===== src/Queue/Drain.antt =====
-- Draining a queue in memory with a processor that puts nothing into it.
use jean_bot.Common.{
  ℕ, zero, suc, ◌≤◌, ◌≡◌, refl, sym, ap, ◌∙◌, Bool, true, false, List, [], ◌∷◌, ◌++◌, arith, length,
  if◌then◌else◌, Bool-cases, inl, inr,
}
use mathlib.Core.List.{append-nil, append_assoc}
use jean_bot.Queue.{
  enqueue, dequeue, size, Processed, resolved, rejected, Drained, drained, threw, unfinished, drain,
}

module _ {A : Type 0} where
  -- Putting items into a queue, one after the other.
  abbrev pub enqueue_all : List A → List A → List A
  enqueue_all items [] = items
  enqueue_all items (x ∷ xs) = enqueue_all (enqueue x items) xs

  pub enqueue_all-append : (xs items : List A) → enqueue_all items xs ≡ items ++ xs
  unfolding enqueue
  enqueue_all-append [] items = sym (append-nil items)
  enqueue_all-append (x ∷ xs) items =
      enqueue_all-append xs (items ++ x ∷ []) ∙ append_assoc items (x ∷ []) xs

  -- The items in front of the first one that is not truthy, and those behind it.
  abbrev pub truthy_front : (A → Bool) → List A → List A
  truthy_front truthy [] = []
  truthy_front truthy (x ∷ xs) = if truthy x then x ∷ truthy_front truthy xs else []

  abbrev pub behind_falsy : (A → Bool) → List A → List A
  behind_falsy truthy [] = []
  behind_falsy truthy (x ∷ xs) = if truthy x then behind_falsy truthy xs else xs

module _ {A : Type 0} {S : Type 0} where
  -- What a round does with the item that it takes, by the test of the item.
  abbrev pub after_dequeue :
      ℕ → (A → Bool) → (A → S → List A → Processed A S) → S → List A → A → Bool → Drained A S
  after_dequeue fuel truthy processor state rest item false = drained state rest
  after_dequeue fuel truthy processor state rest item true = elim (processor item state rest) [
    | rejected after left ↦ threw after left
    | resolved after left ↦ drain fuel truthy processor after left
  ]

  -- Handling the items of a list from the first to the last.
  abbrev pub handled : (A → S → S) → S → List A → S
  handled handle state [] = state
  handled handle state (item ∷ items) = handled handle (handle item state) items

  pub drain-zero :
      (truthy : A → Bool) (processor : A → S → List A → Processed A S) (state : S) (item : A)
      (items : List A)
      → drain zero truthy processor state (item ∷ items) ≡ unfinished state (item ∷ items)
  unfolding drain size
  drain-zero truthy processor state item items = ground arith

  pub drain-nonempty :
      (fuel : ℕ) (truthy : A → Bool) (processor : A → S → List A → Processed A S) (state : S)
      (item : A) (items : List A)
      → drain (suc fuel) truthy processor state (item ∷ items)
        ≡ after_dequeue fuel truthy processor state items item (truthy item)
  unfolding drain dequeue size
  drain-nonempty fuel truthy processor state item items = ground arith

  drain-handled :
      (truthy : A → Bool) (handle : A → S → S) (fuel : ℕ) (state : S) (items : List A)
      → length items ≤ fuel
      → drain fuel truthy (λ item s rest. resolved (handle item s) rest) state items
        ≡ drained (handled handle state (truthy_front truthy items)) (behind_falsy truthy items)
  unfolding drain dequeue size
  drain-handled truthy handle zero state [] h = refl
  drain-handled truthy handle zero state (item ∷ items) h = absurd (omega (arith, h))
  drain-handled truthy handle (suc fuel) state [] h = refl
  drain-handled truthy handle (suc fuel) state (item ∷ items) h =
      drain-nonempty fuel truthy (λ item s rest. resolved (handle item s) rest) state item items
      ∙ elim (Bool-cases (truthy item)) [
        | inl keeps ↦
            rw keeps (drain-handled truthy handle fuel (handle item state) items (omega (arith, h)))
        | inr falsy ↦ rw falsy refl
      ]

  -- A processor that never throws and puts nothing into the queue handles the items in the order in
  -- which they were put in, each of them once, up to the first that is not truthy; that one is
  -- dropped, and those behind it stay in the queue. The rounds have to be no fewer than the items.
  pub drain-enqueue_all :
      (truthy : A → Bool) (handle : A → S → S) (fuel : ℕ) (state : S) (items : List A)
      → size items ≤ fuel
      → drain fuel truthy
          (λ item s rest. resolved (handle item s) rest)
          state
          (enqueue_all [] items)
        ≡ drained (handled handle state (truthy_front truthy items)) (behind_falsy truthy items)
  unfolding size
  drain-enqueue_all truthy handle fuel state items h =
      ap (drain fuel truthy (λ item s rest. resolved (handle item s) rest) state)
        (enqueue_all-append items [])
      ∙ drain-handled truthy handle fuel state items h
