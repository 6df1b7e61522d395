-- ===== src/Lifecycle/Planned.antt =====
-- What a planning job makes of a mission.
use jean_bot.Common.{
  ◌+◌, String, true, ◌≡◌, refl, ap, some, List, [], ◌∷◌, map, ◌==◌, string_eq, or_default, all,
  Bool-cases, inl, inr, includes, JsText,
}
use jean_bot.Steps.{
  IsOrdered, ids, Within, Extends, Within-Extends, includes-cons, includes-cons_self,
}
use jean_bot.Types.{
  MissionPlan, MissionStep, PolicyDecision, Stamps, MissionObjective, approval_status_eq,
  mission_status_eq,
}
use jean_bot.Policy.{evaluate_mission}
use jean_bot.Planner.{create_plan}
use jean_bot.Planner.Order.{plan_steps-IsOrdered}
use jean_bot.Lifecycle.Store.{MissionStateStore, returned, save, get, append_transition}
use jean_bot.Lifecycle.Planning.{
  PlanningHost, assign, assigned_step, planned_record, planned_status, process_planning_job,
  plan_validated, plan_accepted, validate_mission_plan,
}

Extends-both :
    (id : String) (seen whole : List String)
    → includes whole id ≡ true
    → Extends seen whole
    → Extends (id ∷ seen) whole
Extends-both id seen whole first h d m = elim (Bool-cases (id == d)) [
  | inl here ↦ let same : id ≡ d = (string_eq.beq_iff id d).0 here in rw⁻¹ same first
  | inr later ↦ h d (rw later at m)
]

module _ (whole : List String) where
  knows_all :
      (wanted : List String) → Within whole wanted → all (λ d. includes whole d) wanted ≡ true
  knows_all [] h = refl
  knows_all (d ∷ ds) h = rw (h.0) (knows_all ds h.1)

  known_dependencies :
      (seen : List String) (steps : List MissionStep)
      → Extends seen whole
      → Extends (ids steps) whole
      → IsOrdered seen steps
      → all (λ step. all (λ d. includes whole d) step.depends_on) steps ≡ true
  known_dependencies seen [] h k o = refl
  known_dependencies seen (step ∷ steps) h k o =
      let first : includes whole step.id ≡ true =
        k step.id (includes-cons_self step.id (ids steps)) in
      rw (knows_all step.depends_on (Within-Extends seen whole step.depends_on h o.0)) (
        known_dependencies (step.id ∷ seen) steps (Extends-both step.id seen whole first h)
          (λ d m. k d (includes-cons step.id d (ids steps) m)) o.1)

create_plan-IsOrdered :
    (js : JsText) (now : String) (objective : MissionObjective) (d : PolicyDecision)
    → IsOrdered [] (create_plan js now objective d).steps
unfolding create_plan
create_plan-IsOrdered js now objective d = plan_steps-IsOrdered objective d

-- `validateMissionPlan` accepts what the planner makes, where the schema does.
validate_mission_plan-create_plan :
    (host : PlanningHost) (now : String) (objective : MissionObjective) (d : PolicyDecision)
    → host.schema_accepts (create_plan host.js now objective d) ≡ true
    → validate_mission_plan host.schema_accepts (create_plan host.js now objective d)
      ≡ some (create_plan host.js now objective d)
unfolding validate_mission_plan
validate_mission_plan-create_plan host now objective d h =
    rw
      (
        h,
        known_dependencies (ids (create_plan host.js now objective d).steps) []
            (create_plan host.js now objective d).steps (λ e m. cc m) (λ e m. m)
            (create_plan-IsOrdered host.js now objective d),
      )
      refl

assigned-IsOrdered :
    (seen : List String) (steps : List MissionStep)
    → IsOrdered seen steps
    → IsOrdered seen (map assigned_step steps)
assigned-IsOrdered seen [] h = tt
assigned-IsOrdered seen (step ∷ steps) h = (h.0, assigned-IsOrdered (step.id ∷ seen) steps h.1)

module _ (host : PlanningHost) (stamps : Stamps) (s : MissionStateStore) where
  abbrev decided : PolicyDecision
  decided = evaluate_mission host.js s.persisted.objective

  abbrev made : MissionPlan
  made = create_plan host.js (stamps.iso 0) s.persisted.objective decided

  -- What planning makes of a mission: its status follows the decision, and its plan has the next
  -- version and steps that depend only on steps before them.
  pub record IsPlanned (t : MissionStateStore) : Type 0 where
    pub status : t.persisted.status ≡ planned_status decided
    pub version : t.persisted.plan_version ≡ some (or_default s.persisted.plan_version 0 + 1)
    pub plan : MissionPlan
    pub stored : t.persisted.plan ≡ some plan
    pub same : plan.version ≡ t.persisted.plan_version
    pub ordered : IsOrdered [] plan.steps
    pub objective : t.persisted.objective ≡ s.persisted.objective

  plan_accepted-IsPlanned : IsPlanned (plan_accepted host stamps decided made (get s))
  unfolding plan_accepted planned_record assign save append_transition get
  plan_accepted-IsPlanned = record {
    status = refl;
    version = refl;
    plan =
        (assign host
          (record made { version = some (or_default s.persisted.plan_version 0 + 1) })).0;
    stored = refl;
    same = refl;
    ordered =
        assigned-IsOrdered [] made.steps
          (create_plan-IsOrdered host.js (stamps.iso 0) s.persisted.objective decided);
    objective = refl;
  }

  -- A planning job never throws where the schema accepts the plan: no dependency of the plan is
  -- unknown. It leaves the mission planned, or awaiting an approval where the policy requires one,
  -- under the same objective, with the next plan version and a plan of ordered steps.
  pub process_planning_job-IsPlanned :
      host.schema_accepts made ≡ true
      → (t : MissionStateStore) × (process_planning_job host stamps s ≡ returned t) × IsPlanned t
  unfolding process_planning_job
  process_planning_job-IsPlanned h = (
    plan_accepted host stamps decided made (get s),
    ap (λ o. plan_validated host stamps decided o (get s))
        (validate_mission_plan-create_plan host (stamps.iso 0) s.persisted.objective decided h),
    plan_accepted-IsPlanned,
  )
