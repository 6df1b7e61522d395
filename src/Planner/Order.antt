-- ===== src/Planner/Order.antt =====
-- A plan of the planner is ordered: each step depends only on steps that stand before it.
use jean_bot.Common.{
  ℕ, ◌+◌, String, ◌≡◌, true, List, [], ◌∷◌, ◌++◌, string_eq, Bool-cases, inl, inr, includes, length,
  unique,
}
use jean_bot.Types.{Capability, MissionObjective, PolicyDecision, capability_eq}
use jean_bot.Steps.{
  ids, Within, IsOrdered, after, IsOrdered-append, Extends-after, Within-after, Within-Extends,
  includes-cons, includes-cons_self,
}
use jean_bot.Planner.{
  step_id, safety_checkpoint, is_covered, execution_steps, opening_steps, closing_steps, waits_for,
  needs_checkpoint, needs_coordination, working_steps, plan_steps,
}

execution_steps-IsOrdered :
    (id barrier : String) (index : ℕ) (caps : List Capability) (seen : List String)
    → includes seen barrier ≡ true
    → IsOrdered seen (execution_steps id barrier index caps)
unfolding execution_steps
execution_steps-IsOrdered id barrier index [] seen h = tt
execution_steps-IsOrdered id barrier index (c ∷ cs) seen h = elim (Bool-cases (is_covered c)) [
  | inl skip ↦ rw skip (execution_steps-IsOrdered id barrier index cs seen h)
  | inr take ↦
      let more = step_id id index ∷ seen in
      rw take (
        (h, tt),
        execution_steps-IsOrdered id barrier (index + 1) cs more
            (includes-cons (step_id id index) barrier seen h),
      )
]

-- A chain of two steps: the second waits for the first.
chained : (a : String) (seen : List String) → Within (a ∷ seen) (a ∷ [])
chained a seen = (includes-cons_self a seen, tt)

opening_steps-IsOrdered : (id : String) → IsOrdered [] (opening_steps id)
unfolding opening_steps
opening_steps-IsOrdered id = (
  tt,
  (
    chained (step_id id 1) [],
    (
      chained (step_id id 2) (step_id id 1 ∷ []),
      (chained (step_id id 3) (step_id id 2 ∷ step_id id 1 ∷ []), tt),
    ),
  ),
)

closing_steps-IsOrdered :
    (id : String) (index : ℕ) (awaited seen : List String)
    → Within seen awaited
    → IsOrdered seen (closing_steps id index awaited)
unfolding closing_steps
closing_steps-IsOrdered id index awaited seen h = (
  h,
  (
    chained (step_id id index) seen,
    (chained (step_id id (index + 1)) (step_id id index ∷ seen), tt),
  ),
)

Within-waits_for :
    (seen : List String) (barrier : String) (wanted : List String)
    → includes seen barrier ≡ true
    → Within seen wanted
    → Within seen (waits_for barrier wanted)
Within-waits_for seen barrier [] h k = (h, tt)
Within-waits_for seen barrier (i ∷ is) h k = k

Within-append :
    (seen xs ys : List String) → Within seen xs → Within seen ys → Within seen (xs ++ ys)
Within-append seen [] ys h k = k
Within-append seen (x ∷ xs) ys h k = (h.0, Within-append seen xs ys h.1 k)

working_steps-IsOrdered :
    (id barrier : String) (index : ℕ) (caps : List Capability) (seen : List String)
    → includes seen barrier ≡ true
    → IsOrdered seen (working_steps id barrier index caps)
unfolding working_steps
working_steps-IsOrdered id barrier index caps seen h =
    let work = execution_steps id barrier index caps in
    let worked = execution_steps-IsOrdered id barrier index caps seen h in
    let known = after seen work in
    let next = index + length work in
    let barrier_known = Extends-after seen work barrier h in
    let awaited =
      Within-waits_for known barrier (ids work) barrier_known (Within-after seen work) in
    let c = step_id id next in
    let all_known =
      Within-append (c ∷ known) (ids work) (c ∷ [])
        (Within-Extends known (c ∷ known) (ids work) (λ d. includes-cons c d known)
          (Within-after seen work))
        (chained c known) in
    elim (Bool-cases (needs_coordination caps)) [
      | inl needed ↦ rw needed (
          IsOrdered-append seen work _ worked (
            awaited,
            closing_steps-IsOrdered id (next + 1) (ids work ++ c ∷ []) (c ∷ known) all_known,
          ))
      | inr free ↦ rw free (
          IsOrdered-append seen work _ worked
            (closing_steps-IsOrdered id next (waits_for barrier (ids work)) known awaited))
    ]

opening-includes : (id : String) → includes (after [] (opening_steps id)) (step_id id 4) ≡ true
unfolding opening_steps
opening-includes id =
    includes-cons_self (step_id id 4) (step_id id 3 ∷ step_id id 2 ∷ step_id id 1 ∷ [])

-- Whatever the objective and the policy's decision, each step of a new plan depends only on steps
-- that stand before it in the plan.
pub plan_steps-IsOrdered :
    (objective : MissionObjective) (decision : PolicyDecision)
    → IsOrdered [] (plan_steps objective decision)
unfolding plan_steps
plan_steps-IsOrdered objective decision =
    let id = objective.id in
    let caps = unique objective.required_capabilities in
    let opened = after [] (opening_steps id) in
    let planned : includes opened (step_id id 4) ≡ true = opening-includes id in
    elim (Bool-cases (needs_checkpoint objective decision)) [
      | inl careful ↦ rw careful (
          IsOrdered-append [] (opening_steps id)
            (safety_checkpoint id 5 (step_id id 4) ∷ working_steps id (step_id id 5) 6 caps)
            (opening_steps-IsOrdered id)
            (
              (planned, tt),
              working_steps-IsOrdered id (step_id id 5) 6 caps (step_id id 5 ∷ opened)
                  (includes-cons_self (step_id id 5) opened),
            ))
      | inr direct ↦ rw direct (
          IsOrdered-append [] (opening_steps id) _ (opening_steps-IsOrdered id)
            (working_steps-IsOrdered id (step_id id 4) 5 caps opened planned))
    ]
