-- ===== src/Scheduler/Batches.antt =====
-- What `selectBatch` promises: bounds on the batch, and that it is never empty in vain.
use jean_bot.Common.{
  ℕ, ◌+◌, ◌-◌, ◌≤◌, ◌<◌, refl, ◌≢◌, List, [], ◌∷◌, arith, leb, ◌==◌, Bool-cases, inl, inr, length,
  count, All,
}
use jean_bot.Types.{Capability, MissionStep, capability_eq}
use jean_bot.Scheduler.{
  SubAgentTemplate, at_least_one, bump, limit_for, select_from, select_batch, retry_limit,
}

module _ (limits : Capability → ℕ) (max_batch : ℕ) where
  length-select_from :
      (counts : Capability → ℕ) (taken : ℕ) (ready : List MissionStep)
      → length (select_from limits max_batch counts taken ready) ≤ max_batch - taken
  unfolding select_from
  length-select_from counts taken [] = omega arith
  length-select_from counts taken (s ∷ rest) = ground (
    arith,
    length-select_from counts taken rest,
    length-select_from (bump counts s.capability) (taken + 1) rest,
  )

  count-select_from :
      (c : Capability) (counts : Capability → ℕ) (taken : ℕ) (ready : List MissionStep)
      → counts c ≤ limits c
      → counts c + count (λ s. s.capability == c) (select_from limits max_batch counts taken ready)
        ≤ limits c
  unfolding select_from
  count-select_from c counts taken [] h = omega arith
  count-select_from c counts taken (s ∷ rest) h = ground (
    arith,
    count-select_from c counts taken rest,
    count-select_from c (bump counts s.capability) (taken + 1) rest,
    capability_eq.beq_iff s.capability c,
    capability_eq.beq_iff c s.capability,
  )

  All-select_from :
      (P : MissionStep → Type 0) (counts : Capability → ℕ) (taken : ℕ) (ready : List MissionStep)
      → All P ready
      → All P (select_from limits max_batch counts taken ready)
  unfolding select_from
  All-select_from P counts taken [] h = tt
  All-select_from P counts taken (s ∷ rest) h = elim (Bool-cases (leb max_batch taken)) [
    | inl full ↦ rw full tt
    | inr room ↦ elim (Bool-cases (leb (limits s.capability) (counts s.capability))) [
      | inl busy ↦ rw (room, busy) (All-select_from P counts taken rest h.1)
      | inr free ↦
          rw (room, free) (h.0, All-select_from P (bump counts s.capability) (taken + 1) rest h.1)
    ]
  ]

-- A batch holds at most `max(1, maxParallelism)` steps, and of each capability at most as many as
-- its template runs in parallel (one, where there is no template or it says less).
pub select_batch_bounds :
    (ready : List MissionStep) (templates : List SubAgentTemplate) (max_parallelism : ℕ)
    (c : Capability)
    → (length (select_batch ready templates max_parallelism) ≤ at_least_one max_parallelism)
      × (count (λ s. s.capability == c) (select_batch ready templates max_parallelism)
          ≤ limit_for templates c)
unfolding select_batch
select_batch_bounds ready templates m c = (
  omega (arith, length-select_from (limit_for templates) (at_least_one m) (λ c. 0) 0 ready),
  omega (
    arith,
    count-select_from (limit_for templates) (at_least_one m) c (λ c. 0) 0 ready (omega arith),
  ),
)

limit_for-pos : (templates : List SubAgentTemplate) (c : Capability) → 0 < limit_for templates c
unfolding limit_for
limit_for-pos templates c = ground arith

-- What holds of every ready step holds of every step of the batch, and the batch is not empty if
-- any step is ready.
pub select_batch-ne-nil :
    (P : MissionStep → Type 0) (ready : List MissionStep) (templates : List SubAgentTemplate)
    (max_parallelism : ℕ)
    → All P ready
    → ready ≢ []
    → All P (select_batch ready templates max_parallelism)
      × (select_batch ready templates max_parallelism ≢ [])
unfolding select_batch select_from
select_batch-ne-nil P [] templates m h some_ready = absurd (some_ready refl)
select_batch-ne-nil P (s ∷ rest) templates m h some_ready = (
  All-select_from (limit_for templates) (at_least_one m) P (λ c. 0) 0 (s ∷ rest) h,
  ground (arith, limit_for-pos templates s.capability),
)

-- A step is tried once, twice or three times.
pub retry_limit_bounds : (step : MissionStep) → (1 ≤ retry_limit step) × (retry_limit step ≤ 3)
unfolding retry_limit
retry_limit_bounds step = ground arith
