-- ===== src/Leases/Attempts.antt =====
-- One lease for each step, and at most three attempts.
use jean_bot.Common.{
  suc, ◌+◌, ◌≤◌, String, Bool, not, ◌≡◌, refl, sym, ap, ◌∙◌, List, [], ◌∷◌, ◌++◌, map,
  if◌then◌else◌, ◌==◌, string_eq, length, count, filter, All, All-concat, Bool-cases, if-cases, inl,
  inr, arith,
}
use jean_bot.Types.{StepExecutionLeaseRecord, mission_status_eq}
use jean_bot.Leases.Records.{replace_lease, update_leases}

abbrev pub Leases : Type 0
Leases = List StepExecutionLeaseRecord

abbrev pub is_for : String → StepExecutionLeaseRecord → Bool
is_for id lease = lease.step_id == id

abbrev pub InBudget : StepExecutionLeaseRecord → Type 0
InBudget lease = (1 ≤ lease.attempt) × (lease.attempt ≤ 3)

-- A step has at most one lease, and the attempts are between one and three.
pub record AreLeased (leases : Leases) : Type 0 where
  pub single : (id : String) → count (is_for id) leases ≤ 1
  pub budget : All InBudget leases

pub count-append-one :
    (id : String) (leases : Leases) (l : StepExecutionLeaseRecord)
    → count (is_for id) (leases ++ l ∷ [])
      ≡ count (is_for id) leases + (if l.step_id == id then 1 else 0)
count-append-one id [] l = ground arith
count-append-one id (m ∷ leases) l = ground (arith, count-append-one id leases l)

count-others-le :
    (id step_id : String) (leases : Leases)
    → count (is_for id) (filter (λ l. not (l.step_id == step_id)) leases) ≤ count (is_for id) leases
count-others-le id step_id [] = omega arith
count-others-le id step_id (l ∷ leases) = elim (Bool-cases (l.step_id == step_id)) [
  | inl same ↦ rw same (ground (arith, count-others-le id step_id leases))
  | inr other ↦ rw other (ground (arith, count-others-le id step_id leases))
]

count-others :
    (step_id : String) (leases : Leases)
    → count (is_for step_id) (filter (λ l. not (l.step_id == step_id)) leases) ≡ 0
count-others step_id [] = refl
count-others step_id (l ∷ leases) = elim (Bool-cases (l.step_id == step_id)) [
  | inl same ↦ rw same (count-others step_id leases)
  | inr other ↦ rw other (rw other (count-others step_id leases))
]

All-others :
    (step_id : String) (leases : Leases)
    → All InBudget leases
    → All InBudget (filter (λ l. not (l.step_id == step_id)) leases)
All-others step_id [] h = tt
All-others step_id (l ∷ leases) h =
    if-cases (All InBudget) (not (l.step_id == step_id))
      (λ other. (h.0, All-others step_id leases h.1)) (λ same. All-others step_id leases h.1)

pub replace_lease-AreLeased :
    (lease : StepExecutionLeaseRecord) (leases : Leases)
    → InBudget lease
    → AreLeased leases
    → AreLeased (replace_lease lease leases)
unfolding replace_lease
replace_lease-AreLeased lease leases b h =
    let others =
      filter (λ (l : StepExecutionLeaseRecord). not (l.step_id == lease.step_id)) leases in
    record {
      single = λ id. elim (Bool-cases (lease.step_id == id)) [
        | inl here ↦
            let same : lease.step_id ≡ id = (string_eq.beq_iff lease.step_id id).0 here in
            let gone : count (is_for id) others ≡ 0 =
              ap (λ i. count (is_for i) others) (sym same) ∙ count-others lease.step_id leases in
            rw (count-append-one id others lease, here) (omega (arith, gone))
        | inr later ↦
            rw (count-append-one id others lease, later)
              (omega (arith, count-others-le id lease.step_id leases, h.single id))
      ];
      budget = All-concat InBudget others lease (All-others lease.step_id leases h.budget) b;
    }

module _ (step_id : String) (change : StepExecutionLeaseRecord → StepExecutionLeaseRecord)
    (same_step : (l : StepExecutionLeaseRecord) → (change l).step_id ≡ l.step_id)
    (same_attempt : (l : StepExecutionLeaseRecord) → (change l).attempt ≡ l.attempt) where
  abbrev changed : StepExecutionLeaseRecord → StepExecutionLeaseRecord
  changed l = if l.step_id == step_id then change l else l

  changed_step : (l : StepExecutionLeaseRecord) → (changed l).step_id ≡ l.step_id
  changed_step l =
      if-cases (λ (m : StepExecutionLeaseRecord). m.step_id ≡ l.step_id) (l.step_id == step_id)
        (λ here. same_step l) (λ other. refl)

  changed_attempt : (l : StepExecutionLeaseRecord) → (changed l).attempt ≡ l.attempt
  changed_attempt l =
      if-cases (λ (m : StepExecutionLeaseRecord). m.attempt ≡ l.attempt) (l.step_id == step_id)
        (λ here. same_attempt l) (λ other. refl)

  count-changed :
      (id : String) (leases : Leases)
      → count (is_for id) (map changed leases) ≡ count (is_for id) leases
  count-changed id [] = refl
  count-changed id (l ∷ leases) =
      ap
        (λ i. length (
          if i == id
          then changed l ∷ filter (is_for id) (map changed leases)
          else filter (is_for id) (map changed leases)))
        (changed_step l)
      ∙ elim (Bool-cases (l.step_id == id)) [
        | inl here ↦ rw here (ap suc (count-changed id leases))
        | inr other ↦ rw other (count-changed id leases)
      ]

  All-changed : (leases : Leases) → All InBudget leases → All InBudget (map changed leases)
  All-changed [] h = tt
  All-changed (l ∷ leases) h = (
    (omega (arith, h.0, changed_attempt l), omega (arith, h.0, changed_attempt l)),
    All-changed leases h.1,
  )

  pub update_leases-AreLeased :
      (leases : Leases) → AreLeased leases → AreLeased (update_leases step_id change leases)
  unfolding update_leases
  update_leases-AreLeased leases h = record {
    single = λ id. omega (arith, count-changed id leases, h.single id);
    budget = All-changed leases h.budget;
  }
