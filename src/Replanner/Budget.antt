-- ===== src/Replanner/Budget.antt =====
-- The limits of the replanner: how often it replans, and how many steps it adds.
use mathlib.Core.Option
use jean_bot.Common.{
  Option-cases, ℕ, suc, ◌+◌, ◌≤◌, String, ◌≡◌, refl, ap, true, Option, none, some, List, [], ◌∷◌,
  ◌++◌, map, arith, includes, length, length-append, unique, length-unique_from,
  length-unique_from-le, ◌==◌, string_eq, Bool-cases, inl, inr, JsText,
}
use jean_bot.Types.{
  Arithmetic, Stamps, ToolKind, FailureClass, MissionStep, MissionRecord, StepExecutionDiagnostics,
  tool_kind_eq,
}
use jean_bot.Replanner.Kinds.{catalog, kinds_in, parse_missing_kinds}
use jean_bot.Replanner.Blueprints.{
  RemediationBlueprint, evidence_blueprint, class_blueprints, diagnosed_blueprints, or_fallback,
  remediation_blueprints, blueprint_eq,
}
use jean_bot.Replanner.Plan.{
  StepExecutionFailureContext, remediation_chain, build_remediation_steps, splice_at, deferred_step,
}

includes-catalog : (kind : ToolKind) → includes catalog kind ≡ true
includes-catalog ToolKind.filesystem = refl
includes-catalog ToolKind.terminal = refl
includes-catalog ToolKind.browser = refl
includes-catalog ToolKind.search = refl
includes-catalog ToolKind.memory = refl
includes-catalog ToolKind.communication = refl
includes-catalog ToolKind.automation = refl
includes-catalog ToolKind.knowledge = refl
includes-catalog ToolKind.policy = refl
includes-catalog ToolKind.audit = refl

length-parse_missing_kinds :
    (js : JsText) (d : Option StepExecutionDiagnostics) → length (parse_missing_kinds js d) ≤ 10
unfolding parse_missing_kinds
length-parse_missing_kinds js none = omega arith
length-parse_missing_kinds js (some d) =
    length-unique_from catalog [] (kinds_in js d.missing_signals) includes-catalog

length-map : {A B : Type 0} (f : A → B) (xs : List A) → length (map f xs) ≡ length xs
length-map f [] = refl
length-map f (x ∷ xs) = omega (arith, length-map f xs)

length-class_blueprints :
    (step : MissionStep) (missing : List ToolKind) (c : FailureClass)
    → length (class_blueprints step missing c) ≤ 1
unfolding class_blueprints
length-class_blueprints step missing FailureClass.none = omega arith
length-class_blueprints step missing _ = omega arith

length-diagnosed_blueprints :
    (step : MissionStep) (missing : List ToolKind) (d : Option StepExecutionDiagnostics)
    → length (diagnosed_blueprints step missing d) ≤ 2
unfolding diagnosed_blueprints
length-diagnosed_blueprints step missing none = omega arith
length-diagnosed_blueprints step missing (some d) = ground (
  arith,
  length-append (class_blueprints step missing d.failure_class) [],
  length-class_blueprints step missing d.failure_class,
)

length-or_fallback :
    (step : MissionStep) (bs : List RemediationBlueprint)
    → length bs ≤ 12
    → (1 ≤ length (or_fallback step bs)) × (length (or_fallback step bs) ≤ 12)
length-or_fallback step [] h = omega arith
length-or_fallback step (b ∷ bs) h = omega arith

unique-pos : (bs : List RemediationBlueprint) → 1 ≤ length bs → 1 ≤ length (unique bs)
unique-pos [] h = omega arith
unique-pos (b ∷ bs) h = omega arith

-- For every failure there is at least one repair, and there are at most twelve.
pub remediation_blueprints_bounds :
    (js : JsText) (step : MissionStep) (d : Option StepExecutionDiagnostics)
    (error_message : String)
    → (1 ≤ length (remediation_blueprints js step d error_message))
      × (length (remediation_blueprints js step d error_message) ≤ 12)
unfolding remediation_blueprints
remediation_blueprints_bounds js step d error_message =
    let missing = parse_missing_kinds js d in
    let evidence = map (evidence_blueprint js step error_message) missing in
    let diagnosed = diagnosed_blueprints step missing d in
    let few : length (evidence ++ diagnosed) ≤ 12 = omega (
      arith,
      length-append evidence diagnosed,
      length-map (evidence_blueprint js step error_message) missing,
      length-parse_missing_kinds js d,
      length-diagnosed_blueprints step missing d,
    ) in
    let (one, twelve) = length-or_fallback step (evidence ++ diagnosed) few in
    let all_blueprints = or_fallback step (evidence ++ diagnosed) in
    (unique-pos all_blueprints one, omega (arith, length-unique_from-le [] all_blueprints))

length-remediation_chain :
    (js : JsText) (mission_id : String) (version : ℕ) (failed : MissionStep) (index : ℕ)
    (cursor : List String) (bs : List RemediationBlueprint)
    → length (remediation_chain js mission_id version failed index cursor bs) ≡ length bs
unfolding remediation_chain
length-remediation_chain js mission_id version failed index cursor [] = refl
length-remediation_chain js mission_id version failed index cursor (b ∷ bs) =
    ap suc (length-remediation_chain js mission_id version failed (index + 1) _ bs)

module _ (js : JsText) (num : Arithmetic) (stamps : Stamps) (mission : MissionRecord)
    (failure : StepExecutionFailureContext) where
  pub length-build_remediation_steps :
      (version : ℕ)
      → (1 ≤ length (build_remediation_steps js mission failure version))
        × (length (build_remediation_steps js mission failure version) ≤ 12)
  unfolding build_remediation_steps
  length-build_remediation_steps version =
      let (one, twelve) =
        remediation_blueprints_bounds js failure.step failure.diagnostics failure.error_message in
      let same =
        length-remediation_chain js mission.objective.id version failure.step 1
          failure.step.depends_on
          (remediation_blueprints js failure.step failure.diagnostics failure.error_message) in
      (omega arith, omega arith)

-- The splice adds the chain to the plan.
pub length-splice_at :
    (id : String) (chain steps out : List MissionStep)
    → splice_at id (λ s. chain ++ deferred_step chain s ∷ []) steps ≡ some out
    → length out ≡ length steps + length chain
unfolding splice_at
length-splice_at id chain [] out e = cc
length-splice_at id chain (s ∷ steps) out e =
    let last = deferred_step chain s ∷ [] in
    elim (Bool-cases (s.id == id)) [
      | inl here ↦
          let same : some ((chain ++ last) ++ steps) ≡ some out = rw here at e in
          omega (
            arith,
            ap length (Option.some-injective ((chain ++ last) ++ steps) out same),
            length-append (chain ++ last) steps,
            length-append chain last,
          )
      | inr later ↦
          elim (Option-cases (splice_at id (λ t. chain ++ deferred_step chain t ∷ []) steps)) [
            | inl missed ↦ absurd (Option.none-ne-some out (rw (later, missed) at e))
            | inr (rest, found) ↦
                let same : some (s ∷ rest) ≡ some out = rw (later, found) at e in
                omega (
                  arith,
                  ap length (Option.some-injective (s ∷ rest) out same),
                  length-splice_at id chain steps rest found,
                )
          ]
    ]
