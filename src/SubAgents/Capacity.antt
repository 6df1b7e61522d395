-- ===== src/SubAgents/Capacity.antt =====
-- How many runs may be active at once.
use mathlib.Core.Path.{subst}
use jean_bot.Common.{
  ℕ, ◌+◌, ◌≤◌, String, ◌≡◌, refl, ap, true, false, not, some, List, [], ◌∷◌, ◌++◌, arith, ◌==◌,
  string_eq, Bool-cases, if-cases, length, includes, beq_refl, length-append, length-filter-le,
  or_default, inl, inr,
}
use jean_bot.Scheduler.{SubAgentTemplate}
use jean_bot.SubAgents.{
  at_least, normalize_timeout, CapacityTicket, ActiveRuns, add_id, drop_id, change, claim_run,
  release_run, has_capacity, try_claim, capability_key,
}

-- However the template sets its timeout, a run is given from five seconds to fifteen minutes, and
-- a timeout in between is kept.
pub normalize_timeout_bounds :
    (t : SubAgentTemplate)
    → (5000 ≤ normalize_timeout t)
      × (normalize_timeout t ≤ 900000)
      × ((ms : ℕ) → t.timeout_ms ≡ some ms → 5000 ≤ ms → ms ≤ 900000 → normalize_timeout t ≡ ms)
unfolding normalize_timeout
normalize_timeout_bounds t =
    (ground arith, ground arith, λ ms set low high. rw set (ground (arith, low, high)))

drop_id-other : (id : String) (ids : List String) → includes ids id ≡ false → drop_id id ids ≡ ids
drop_id-other id [] h = refl
drop_id-other id (x ∷ xs) h = elim (Bool-cases (x == id)) [
  | inl same ↦ cc (rw same at h)
  | inr other ↦ rw other (ap (λ l. x ∷ l) (drop_id-other id xs (rw other at h)))
]

drop_id-append :
    (id : String) (ids : List String) → includes ids id ≡ false → drop_id id (ids ++ id ∷ []) ≡ ids
drop_id-append id [] h = rw (beq_refl id) refl
drop_id-append id (x ∷ xs) h = elim (Bool-cases (x == id)) [
  | inl same ↦ cc (rw same at h)
  | inr other ↦ rw other (ap (λ l. x ∷ l) (drop_id-append id xs (rw other at h)))
]

drop_id-add_id :
    (id : String) (ids : List String) → includes ids id ≡ false → drop_id id (add_id id ids) ≡ ids
drop_id-add_id id ids h = rw h (drop_id-append id ids h)

change-change :
    (key id : String) (sets : String → List String)
    → ((k : String) → includes (sets k) id ≡ false)
    → (k : String) → change key (drop_id id) (change key (add_id id) sets) k ≡ sets k
change-change key id sets fresh k = elim (Bool-cases (k == key)) [
  | inl here ↦ rw here (drop_id-add_id id (sets k) (fresh k))
  | inr other ↦ rw other refl
]

-- A run whose id is in no set, when it is claimed and released, leaves the sets of every
-- workspace and of every capability as they were.
pub release_run-claim_run :
    (ticket : CapacityTicket) (active : ActiveRuns)
    → ((w : String) → includes (active.by_workspace w) ticket.run_id ≡ false)
    → ((k : String) → includes (active.by_capability k) ticket.run_id ≡ false)
    → ((w : String)
        → (release_run ticket (claim_run ticket active)).by_workspace w ≡ active.by_workspace w)
      × ((k : String)
          → (release_run ticket (claim_run ticket active)).by_capability k ≡ active.by_capability k)
unfolding release_run claim_run
release_run-claim_run ticket active fresh_run fresh_key = (
  change-change ticket.workspace_id ticket.run_id active.by_workspace fresh_run,
  change-change (capability_key ticket.workspace_id ticket.capability) ticket.run_id
      active.by_capability fresh_key,
)

-- What claims and releases make of the sets, when no request allows more than `parallelism` runs
-- in a workspace and no template more than `room` of its capability.
pub data Reach (parallelism room : ℕ) : ActiveRuns → Type 0 where
  start : Reach parallelism room (record { by_workspace = λ w. []; by_capability = λ k. [] })
  claim :
      (ticket : CapacityTicket) (t : SubAgentTemplate) (limit : ℕ) {active after : ActiveRuns}
      → Reach parallelism room active
      → limit ≤ parallelism
      → t.max_parallel_tasks ≤ room
      → try_claim ticket t limit active ≡ some after
      → Reach parallelism room after
  release :
      (ticket : CapacityTicket) {active : ActiveRuns}
      → Reach parallelism room active
      → Reach parallelism room (release_run ticket active)

pub record IsWithin (parallelism room : ℕ) (active : ActiveRuns) : Type 0 where
  pub workspaces : (w : String) → length (active.by_workspace w) ≤ at_least 1 parallelism
  pub capabilities : (k : String) → length (active.by_capability k) ≤ at_least 1 room

length-add_id : (id : String) (ids : List String) → length (add_id id ids) ≤ length ids + 1
length-add_id id ids =
    if-cases (λ l. length l ≤ length ids + 1) (includes ids id) (λ h. omega arith)
      (λ h. omega (arith, length-append ids (id ∷ [])))

length-drop_id : (id : String) (ids : List String) → length (drop_id id ids) ≤ length ids
length-drop_id id ids = length-filter-le (λ i. not (i == id)) ids

change_bound :
    (key : String) (f : List String → List String) (sets : String → List String) (most : ℕ)
    → ((k : String) → length (sets k) ≤ most)
    → length (f (sets key)) ≤ most
    → (k : String) → length (change key f sets k) ≤ most
change_bound key f sets most h changed k = elim (Bool-cases (k == key)) [
  | inl here ↦ let same : k ≡ key = (string_eq.beq_iff k key).0 here in rw (here, same) changed
  | inr other ↦ rw other (h k)
]

has_capacity-room :
    (active : ActiveRuns) (ticket : CapacityTicket) (t : SubAgentTemplate) (limit : ℕ)
    → has_capacity active ticket.workspace_id ticket.capability t limit ≡ true
    → (length (active.by_workspace ticket.workspace_id) + 1 ≤ at_least 1 limit)
      × (length (active.by_capability (capability_key ticket.workspace_id ticket.capability)) + 1
          ≤ at_least 1 t.max_parallel_tasks)
unfolding has_capacity
has_capacity-room active ticket t limit h = (ground (arith, h), ground (arith, h))

module _ (parallelism room : ℕ) where
  claim_run-IsWithin :
      (ticket : CapacityTicket) (t : SubAgentTemplate) (limit : ℕ) (active : ActiveRuns)
      → IsWithin parallelism room active
      → limit ≤ parallelism
      → t.max_parallel_tasks ≤ room
      → has_capacity active ticket.workspace_id ticket.capability t limit ≡ true
      → IsWithin parallelism room (claim_run ticket active)
  unfolding claim_run
  claim_run-IsWithin ticket t limit active h few_runs few_tasks free =
      let key = capability_key ticket.workspace_id ticket.capability in
      let left = has_capacity-room active ticket t limit free in
      record {
        workspaces =
            change_bound ticket.workspace_id (add_id ticket.run_id) active.by_workspace
              (at_least 1 parallelism) h.workspaces
              (ground (
                arith,
                left.0,
                length-add_id ticket.run_id (active.by_workspace ticket.workspace_id),
              ));
        capabilities =
            change_bound key (add_id ticket.run_id) active.by_capability (at_least 1 room)
              h.capabilities
              (ground (arith, left.1, length-add_id ticket.run_id (active.by_capability key)));
      }

  release_run-IsWithin :
      (ticket : CapacityTicket) (active : ActiveRuns)
      → IsWithin parallelism room active
      → IsWithin parallelism room (release_run ticket active)
  unfolding release_run
  release_run-IsWithin ticket active h =
      let key = capability_key ticket.workspace_id ticket.capability in
      record {
        workspaces =
            change_bound ticket.workspace_id (drop_id ticket.run_id) active.by_workspace
              (at_least 1 parallelism) h.workspaces
              (omega (
                arith,
                length-drop_id ticket.run_id (active.by_workspace ticket.workspace_id),
                h.workspaces ticket.workspace_id,
              ));
        capabilities =
            change_bound key (drop_id ticket.run_id) active.by_capability (at_least 1 room)
              h.capabilities
              (omega (
                arith,
                length-drop_id ticket.run_id (active.by_capability key),
                h.capabilities key,
              ));
      }

  try_claim-IsWithin :
      (ticket : CapacityTicket) (t : SubAgentTemplate) (limit : ℕ) (active after : ActiveRuns)
      → IsWithin parallelism room active
      → limit ≤ parallelism
      → t.max_parallel_tasks ≤ room
      → try_claim ticket t limit active ≡ some after
      → IsWithin parallelism room after
  unfolding try_claim
  try_claim-IsWithin ticket t limit active after h few_runs few_tasks e =
      elim (Bool-cases (has_capacity active ticket.workspace_id ticket.capability t limit)) [
        | inl free ↦
            let claimed : some (claim_run ticket active) ≡ some after = rw free at e in
            subst (IsWithin parallelism room) (ap (λ o. or_default o active) claimed)
              (claim_run-IsWithin ticket t limit active h few_runs few_tasks free)
        | inr full ↦ cc (rw full at e)
      ]

-- In every state that claims and releases lead to, a workspace has at most as many active runs as
-- the largest limit that a request gave (at least one), and a capability in a workspace at most as
-- many as the largest room of a template (at least one).
pub Reach-IsWithin :
    (parallelism room : ℕ) {active : ActiveRuns}
    → Reach parallelism room active
    → IsWithin parallelism room active
Reach-IsWithin parallelism room start = record {
  workspaces = λ w. ground arith;
  capabilities = λ k. ground arith;
}
Reach-IsWithin parallelism room (claim ticket t limit {active} {after} before runs tasks e) =
    try_claim-IsWithin parallelism room ticket t limit active after
      (Reach-IsWithin parallelism room before) runs tasks e
Reach-IsWithin parallelism room (release ticket {active} before) =
    release_run-IsWithin parallelism room ticket active (Reach-IsWithin parallelism room before)
