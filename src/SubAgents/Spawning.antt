-- ===== src/SubAgents/Spawning.antt =====
-- Which templates a plan gets.
use mathlib.Core.Path.{subst}
use jean_bot.Common.{
  ℕ, ◌≤◌, String, ◌≡◌, refl, sym, ap, ◌∙◌, Bool, true, ◌||◌, some, List, [], ◌∷◌, map, arith, ◌==◌,
  Bool-cases, if-cases, is_some, or_default, Option-cases, inl, inr, any,
}
use jean_bot.Types.{Capability, MissionStep, MissionPlan, capability_eq}
use jean_bot.Scheduler.{SubAgentTemplate, template_for}
use jean_bot.ModelRouter.{ProviderEnvironment}
use jean_bot.SubAgents.{
  parallel_tasks, template_for_capability, count_in, capability_counts, comes_before, insert_count,
  sort_counts, spawn_for_plan, template_definition,
}

parallel_tasks_bounds :
    (own count : ℕ) → (1 ≤ parallel_tasks own count) × (parallel_tasks own count ≤ 4)
unfolding parallel_tasks
parallel_tasks_bounds own count = ground arith

abbrev has_count : Capability → List (Capability × ℕ) → Bool
has_count c entries = any (λ e. e.0 == c) entries

has_count-count_in :
    (c d : Capability) (entries : List (Capability × ℕ))
    → has_count c (count_in d entries) ≡ (has_count c entries || d == c)
unfolding count_in
has_count-count_in c d [] = ground arith
has_count-count_in c d (e ∷ entries) = elim (Bool-cases (e.0 == d)) [
  | inl here ↦
      let same : e.0 ≡ d = (capability_eq.beq_iff e.0 d).0 here in
      rw (here, sym same) (ground arith)
  | inr later ↦ rw later (ground (arith, has_count-count_in c d entries))
]

has_count-capability_counts :
    (c : Capability) (counts : List (Capability × ℕ)) (steps : List MissionStep)
    → (has_count c counts || any (λ s. s.capability == c) steps) ≡ true
    → has_count c (capability_counts counts steps) ≡ true
unfolding capability_counts
has_count-capability_counts c counts [] h = ground arith
has_count-capability_counts c counts (s ∷ steps) h =
    has_count-capability_counts c (count_in s.capability counts) steps
      (rw (has_count-count_in c s.capability counts) (ground (arith, h)))

or-swap : (a b d : Bool) → (a || (b || d)) ≡ (b || (a || d))
or-swap a b d = ground arith

module _ (name_before : String → String → Bool) (c : Capability) where
  has_count-insert_count :
      (e : Capability × ℕ) (entries : List (Capability × ℕ))
      → has_count c (insert_count name_before e entries) ≡ (e.0 == c || has_count c entries)
  unfolding insert_count
  has_count-insert_count e [] = refl
  has_count-insert_count e (f ∷ entries) =
      if-cases (λ l. has_count c l ≡ (e.0 == c || (f.0 == c || has_count c entries)))
        (comes_before name_before e f) (λ first. refl)
        (λ behind.
          ap (λ b. f.0 == c || b) (has_count-insert_count e entries)
          ∙ or-swap (f.0 == c) (e.0 == c) (has_count c entries))

  has_count-sort_counts :
      (entries : List (Capability × ℕ))
      → has_count c (sort_counts name_before entries) ≡ has_count c entries
  unfolding sort_counts
  has_count-sort_counts [] = refl
  has_count-sort_counts (e ∷ entries) =
      has_count-insert_count e (sort_counts name_before entries)
      ∙ ap (λ b. e.0 == c || b) (has_count-sort_counts entries)

module _ (env : ProviderEnvironment) (c : Capability) where
  -- A template of the capability, with room for one to four runs.
  pub record IsTemplateFor (t : SubAgentTemplate) : Type 0 where
    pub special : t.specialization ≡ c
    pub some_room : 1 ≤ t.max_parallel_tasks
    pub few : t.max_parallel_tasks ≤ 4

  template_for_capability-IsTemplateFor :
      (count : ℕ) → IsTemplateFor (template_for_capability env c count)
  unfolding template_for_capability
  template_for_capability-IsTemplateFor count =
      let room = parallel_tasks_bounds (template_definition c).max_parallel_tasks count in
      record { special = refl; some_room = room.0; few = room.1 }

module _ (env : ProviderEnvironment) (c : Capability) where
  abbrev spawned : List (Capability × ℕ) → List SubAgentTemplate
  spawned entries = map (λ e. template_for_capability env e.0 e.1) entries

  spawned_special :
      (e : Capability × ℕ) → (template_for_capability env e.0 e.1).specialization ≡ e.0
  unfolding template_for_capability
  spawned_special e = refl

  template_for-IsTemplateFor :
      (entries : List (Capability × ℕ)) (t : SubAgentTemplate)
      → template_for c (spawned entries) ≡ some t
      → IsTemplateFor env c t
  unfolding template_for template_for_capability
  template_for-IsTemplateFor [] t h = cc
  template_for-IsTemplateFor (e ∷ entries) t h =
      elim (Option-cases (template_for c (spawned entries))) [
        | inr (later, found) ↦ template_for-IsTemplateFor entries t (found ∙ rw found at h)
        | inl missing ↦ elim (Bool-cases (e.0 == c)) [
          | inl here ↦
              let same : e.0 ≡ c = (capability_eq.beq_iff e.0 c).0 here in
              let made = template_for_capability env e.0 e.1 in
              let given : some made ≡ some t = rw (missing, spawned_special e, here) at h in
              subst (IsTemplateFor env c) (ap (λ o. or_default o made) given) (
                subst (λ d. IsTemplateFor env c (template_for_capability env d e.1)) (sym same)
                  (template_for_capability-IsTemplateFor env c e.1))
          | inr other ↦ cc (rw (missing, spawned_special e, other) at h)
        ]
      ]

  template_for-is_some :
      (entries : List (Capability × ℕ))
      → has_count c entries ≡ true
      → is_some (template_for c (spawned entries)) ≡ true
  unfolding template_for
  template_for-is_some [] h = cc
  template_for-is_some (e ∷ entries) h = elim (Option-cases (template_for c (spawned entries))) [
    | inr (later, found) ↦ rw found refl
    | inl missing ↦ elim (Bool-cases (e.0 == c)) [
      | inl here ↦ rw (missing, spawned_special e, here) refl
      | inr other ↦ cc (rw missing at (template_for-is_some entries (rw other at h)))
    ]
  ]

-- Every step of a plan finds, among the templates that are spawned for the plan, one for its
-- capability, with room for one to four runs at once.
pub spawn_for_plan-template :
    (env : ProviderEnvironment) (name_before : String → String → Bool) (plan : MissionPlan)
    (c : Capability)
    → any (λ s. s.capability == c) plan.steps ≡ true
    → (t : SubAgentTemplate) × (template_for c (spawn_for_plan env name_before plan) ≡ some t)
      × IsTemplateFor env c t
unfolding spawn_for_plan
spawn_for_plan-template env name_before plan c h =
    let counts = sort_counts name_before (capability_counts [] plan.steps) in
    let counted : has_count c counts ≡ true =
      has_count-sort_counts name_before c (capability_counts [] plan.steps)
      ∙ has_count-capability_counts c [] plan.steps h in
    elim (Option-cases (template_for c (spawned env c counts))) [
      | inl missing ↦ cc (rw missing at (template_for-is_some env c counts counted))
      | inr (t, found) ↦ (t, found, template_for-IsTemplateFor env c counts t found)
    ]
