-- ===== src/Queue.antt =====
-- packages/queue/src/index.ts: the queues in memory. A `Map` of queues is a function of the kind;
-- the timers are the kinds that are consumed.
pub mod Drain
pub mod Fifo
use jean_bot.Common.{
  ℕ, zero, suc, ◌+◌, ◌≡◌, refl, ◌↔◌, String, Bool, true, false, Option, none, some, List, [], ◌∷◌,
  ◌++◌, if◌then◌else◌, ◌==◌, nat_eq, length, or_default, filter, not, ltb,
}

pub data QueueJobKind : Type 0 where
  mission_plan mission_execute mission_step_execute : QueueJobKind
  heartbeat_trigger audit_flush memory_refresh : QueueJobKind

-- The payload is the handler's affair.
pub record QueueJob {ℓ} (P : Type ℓ) : Type ℓ where
  pub id : String
  pub kind : QueueJobKind
  pub tenant_id : Option String
  pub workspace_id : Option String
  pub mission_id : Option String
  pub payload : P
  pub attempts : ℕ
  pub max_attempts : ℕ
  pub created_at : String

module _ {ℓ} {A : Type ℓ} where
  unfoldable pub enqueue : A → List A → List A
  enqueue item items = items ++ item ∷ []

  unfoldable pub dequeue : List A → List A × Option A
  dequeue [] = ([], none)
  dequeue (item ∷ items) = (items, some item)

  unfoldable pub size : List A → ℕ
  size items = length items

-- How the promise of a call of the processor ends, with the state and the queue that it leaves.
pub data Processed {ℓ} (A S : Type ℓ) : Type ℓ where
  resolved : S → List A → Processed A S
  rejected : S → List A → Processed A S

-- How a drain ends. At `unfinished` the rounds have run out.
pub data Drained {ℓ} (A S : Type ℓ) : Type ℓ where
  drained : S → List A → Drained A S
  threw : S → List A → Drained A S
  unfinished : S → List A → Drained A S

module _ {ℓ} {A : Type ℓ} {S : Type ℓ} where
  -- `drain`. `truthy` is JavaScript's test of an item. The processor may put items into the queue
  -- while it runs, so what it does is a function of an item, a state and the queue. The fuel is
  -- the number of rounds.
  unfoldable pub drain :
      ℕ → (A → Bool) → (A → S → List A → Processed A S) → S → List A → Drained A S
  unfolding dequeue size
  drain zero truthy processor state items =
      if size items == 0 then drained state items else unfinished state items
  drain (suc fuel) truthy processor state items =
      let rest = (dequeue items).0 in
      let round : Drained A S = elim (dequeue items).1 [
        | none ↦ drained state rest
        | some next ↦ elim (truthy next) [
          | false ↦ drained state rest
          | true ↦ elim (processor next state rest) [
            | rejected after left ↦ threw after left
            | resolved after left ↦ drain fuel truthy processor after left
          ]
        ]
      ] in
      if size items == 0 then drained state items else round
