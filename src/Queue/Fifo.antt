-- ===== src/Queue/Fifo.antt =====
-- Draining a queue in memory with a processor that puts items into it while it runs.
use jean_bot.Common.{
  ℕ, zero, suc, ◌+◌, ◌≤◌, ◌≡◌, refl, sym, ap, ◌∙◌, Bool, true, false, List, [], ◌∷◌, ◌++◌, arith,
  length, All, All-concat, if◌then◌else◌, Bool-cases, if-cases, inl, inr, length-append,
}
use mathlib.Core.List.{append-nil, append_assoc}
use jean_bot.Queue.{
  dequeue, size, Processed, resolved, rejected, Drained, drained, threw, unfinished, drain,
}
use jean_bot.Queue.Drain.{enqueue_all, enqueue_all-append, drain-zero, drain-nonempty}

-- What a processor does with an item: the state after it, the items that it puts into the queue,
-- and whether its promise is rejected.
pub record Handling (A S : Type 0) : Type 0 where
  pub after : S
  pub puts : List A
  pub fails : Bool

-- The state with the items that were taken out of the queue and those that were put in, so far.
pub record Ledger (A S : Type 0) : Type 0 where
  pub state : S
  pub taken : List A
  pub put : List A

module _ {A : Type 0} {S : Type 0} where
  abbrev pub ledger_of : Drained A (Ledger A S) → Ledger A S
  ledger_of (drained l items) = l
  ledger_of (threw l items) = l
  ledger_of (unfinished l items) = l

  abbrev pub left_of : Drained A (Ledger A S) → List A
  left_of (drained l items) = items
  left_of (threw l items) = items
  left_of (unfinished l items) = items

  abbrev pub is_drained : Drained A (Ledger A S) → Bool
  is_drained (drained l items) = true
  is_drained _ = false

  abbrev pub is_unfinished : Drained A (Ledger A S) → Bool
  is_unfinished (unfinished l items) = true
  is_unfinished _ = false

  abbrev written : A → Handling A S → Ledger A S → Ledger A S
  written item h l = record { state = h.after; taken = l.taken ++ item ∷ []; put = l.put ++ h.puts }

  -- A processor that puts items into the queue, and the ledger of what it does.
  abbrev pub puts_into : (A → S → Handling A S) → A → Ledger A S → List A → Processed A (Ledger A S)
  puts_into handle item l rest =
      let h = handle item l.state in
      if h.fails
      then rejected (written item h l) (enqueue_all rest h.puts)
      else resolved (written item h l) (enqueue_all rest h.puts)

  -- The items that were taken, those that were dropped and those that are left are the items of the
  -- start and those that were put in, in this order. Only truthy items are taken. At most one item
  -- is dropped, which is not truthy. A drain that ended by itself and dropped none leaves none, and
  -- one that ran out of its rounds took an item in each of them.
  pub record IsFifo (truthy : A → Bool) (items : List A) (rounds : ℕ) (end : Drained A (Ledger A S))
      : Type 0 where
    pub dropped : List A
    pub balance : (ledger_of end).taken ++ (dropped ++ left_of end) ≡ items ++ (ledger_of end).put
    pub taken_truthy : All (λ a. truthy a ≡ true) (ledger_of end).taken
    pub dropped_falsy : All (λ a. truthy a ≡ false) dropped
    pub one_dropped : length dropped ≤ 1
    pub emptied : is_drained end ≡ true → dropped ≡ [] → left_of end ≡ []
    pub busy : is_unfinished end ≡ true → length (ledger_of end).taken ≡ rounds

  balance-written :
      (item : A) (rest items : List A) (h : Handling A S) (l : Ledger A S)
      → l.taken ++ item ∷ rest ≡ items ++ l.put
      → (written item h l).taken ++ enqueue_all rest h.puts ≡ items ++ (written item h l).put
  balance-written item rest items h l e =
      ap (λ q. (l.taken ++ item ∷ []) ++ q) (enqueue_all-append h.puts rest)
      ∙ append_assoc l.taken (item ∷ []) (rest ++ h.puts)
      ∙ sym (append_assoc l.taken (item ∷ rest) h.puts)
      ∙ ap (λ q. q ++ h.puts) e
      ∙ append_assoc items l.put h.puts

  -- An end that drops nothing.
  end-IsFifo :
      (truthy : A → Bool) (items : List A) (rounds : ℕ) (end : Drained A (Ledger A S))
      → (ledger_of end).taken ++ left_of end ≡ items ++ (ledger_of end).put
      → All (λ a. truthy a ≡ true) (ledger_of end).taken
      → (is_drained end ≡ true → left_of end ≡ [])
      → (is_unfinished end ≡ true → length (ledger_of end).taken ≡ rounds)
      → IsFifo truthy items rounds end
  end-IsFifo truthy items rounds end e t stop busy = record {
    dropped = [];
    balance = e;
    taken_truthy = t;
    dropped_falsy = tt;
    one_dropped = omega arith;
    emptied = λ d n. stop d;
    busy = busy;
  }

  drain-ledger :
      (truthy : A → Bool) (handle : A → S → Handling A S) (items : List A) (rounds fuel : ℕ)
      (l : Ledger A S) (queue : List A)
      → l.taken ++ queue ≡ items ++ l.put
      → All (λ a. truthy a ≡ true) l.taken
      → length l.taken + fuel ≡ rounds
      → IsFifo truthy items rounds (drain fuel truthy (puts_into handle) l queue)
  unfolding drain dequeue size
  drain-ledger truthy handle items rounds zero l [] e t n =
      end-IsFifo truthy items rounds _ e t (λ d. refl) (λ u. cc u)
  drain-ledger truthy handle items rounds zero l (item ∷ rest) e t n =
      rw (drain-zero truthy (puts_into handle) l item rest) (
        end-IsFifo truthy items rounds (unfinished l (item ∷ rest)) e t (λ d. cc d)
          (λ u. omega (arith, n)))
  drain-ledger truthy handle items rounds (suc fuel) l [] e t n =
      end-IsFifo truthy items rounds _ e t (λ d. refl) (λ u. cc u)
  drain-ledger truthy handle items rounds (suc fuel) l (item ∷ rest) e t n =
      let h = handle item l.state in
      let balance = balance-written item rest items h l e in
      rw (drain-nonempty fuel truthy (puts_into handle) l item rest)
        (elim (Bool-cases (truthy item)) [
          | inl keeps ↦
              let taken = All-concat (λ a. truthy a ≡ true) l.taken item t keeps in
              rw keeps (
                if-cases
                  (λ (p : Processed A (Ledger A S)). IsFifo truthy items rounds (elim p [
                    | rejected after left ↦ threw after left
                    | resolved after left ↦ drain fuel truthy (puts_into handle) after left
                  ]))
                  h.fails
                  (λ fails. end-IsFifo truthy items rounds _ balance taken (λ d. cc d) (λ u. cc u))
                  (λ goes.
                    drain-ledger truthy handle items rounds fuel (written item h l)
                      (enqueue_all rest h.puts) balance taken
                      (omega (arith, n, length-append l.taken (item ∷ [])))))
          | inr falsy ↦ rw falsy (record {
            dropped = item ∷ [];
            balance = e;
            taken_truthy = t;
            dropped_falsy = (falsy, tt);
            one_dropped = omega arith;
            emptied = λ d n. cc n;
            busy = λ u. cc u;
          })
        ])

  -- However many items the processor puts into the queue while it runs, and whether or not it
  -- throws, the drain is first in, first out, after any number of rounds: the items that were
  -- taken, then at most one that was dropped as it is not truthy, then those that are left, are the
  -- items of the start followed by those that were put in, in the order in which they were put in.
  -- A drain that ends by itself leaves nothing unless it dropped an item, and one that runs out of
  -- its rounds took an item in each of them.
  pub drain-IsFifo :
      (truthy : A → Bool) (handle : A → S → Handling A S) (fuel : ℕ) (state : S) (items : List A)
      → IsFifo truthy items fuel (
          drain fuel truthy
            (puts_into handle)
            (record { state = state; taken = []; put = [] })
            (enqueue_all [] items))
  drain-IsFifo truthy handle fuel state items =
      drain-ledger truthy handle items fuel fuel (record { state = state; taken = []; put = [] })
        (enqueue_all [] items) (enqueue_all-append items [] ∙ sym (append-nil items)) tt
        (omega arith)
