-- ===== src/Scheduler/Promotion.antt =====
-- `promoteReadySteps` writes into the array that it reads; still every step is judged by the array
-- as it was before the loop.
use jean_bot.Common.{
  String, ◌≡◌, refl, sym, ap, ◌∙◌, Bool, List, [], ◌∷◌, ◌++◌, map, arith, ◌==◌, string_eq, find,
  all,
}
use mathlib.Core.List.{append_assoc, append-nil}
use jean_bot.Types.{StepStatus, MissionStep, step_status_eq}
use jean_bot.Scheduler.{is_completed, is_ready, promoted, promote_from, promote_ready_steps}

-- Two lists of steps of which the same are complete, for every identifier.
abbrev SameCompleted : List MissionStep → List MissionStep → Type 0
SameCompleted xs ys =
    (id : String)
    → is_completed (find (λ c. c.id == id) xs) ≡ is_completed (find (λ c. c.id == id) ys)

all-eq : {A : Type 0} (p q : A → Bool) (xs : List A) → ((a : A) → p a ≡ q a) → all p xs ≡ all q xs
all-eq p q [] h = refl
all-eq p q (x ∷ xs) h = ground (arith, h x, all-eq p q xs h)

is_ready-SameCompleted :
    (step : MissionStep) (xs ys : List MissionStep)
    → SameCompleted xs ys
    → is_ready step xs ≡ is_ready step ys
unfolding is_ready
is_ready-SameCompleted step xs ys h = ground (
  arith,
  all-eq (λ d. is_completed (find (λ c. c.id == d) xs))
      (λ d. is_completed (find (λ c. c.id == d) ys)) step.depends_on h,
)

promoted-completed :
    (step : MissionStep) (steps : List MissionStep)
    → ((promoted step steps).id ≡ step.id)
      × (((promoted step steps).status == StepStatus.completed)
          ≡ (step.status == StepStatus.completed))
unfolding promoted
promoted-completed step steps = ground arith

promoted-SameCompleted :
    (step : MissionStep) (xs ys : List MissionStep)
    → SameCompleted xs ys
    → promoted step xs ≡ promoted step ys
unfolding promoted
promoted-SameCompleted step xs ys h = rw (is_ready-SameCompleted step xs ys h)

SameCompleted-replace :
    (done rest : List MissionStep) (s t : MissionStep)
    → s.id ≡ t.id
    → (s.status == StepStatus.completed) ≡ (t.status == StepStatus.completed)
    → SameCompleted (done ++ s ∷ rest) (done ++ t ∷ rest)
SameCompleted-replace [] rest s t same kept id = ground arith
SameCompleted-replace (d ∷ done) rest s t same kept id =
    ground (arith, SameCompleted-replace done rest s t same kept id)

promote_from-eq-map :
    (start done rest : List MissionStep)
    → SameCompleted (done ++ rest) start
    → promote_from done rest ≡ done ++ map (λ s. promoted s start) rest
unfolding promote_from
promote_from-eq-map start done [] h = sym (append-nil done)
promote_from-eq-map start done (s ∷ rest) h =
    let array = done ++ s ∷ rest in
    let s' = promoted s array in
    let (same, kept) = promoted-completed s array in
    let grown : (done ++ s' ∷ []) ++ rest ≡ done ++ s' ∷ rest = append_assoc done (s' ∷ []) rest in
    let still : SameCompleted ((done ++ s' ∷ []) ++ rest) start =
      λ id. rw grown (SameCompleted-replace done rest s' s same kept id ∙ h id) in
    promote_from-eq-map start (done ++ s' ∷ []) rest still
    ∙ append_assoc done (s' ∷ []) (map (λ t. promoted t start) rest)
    ∙ ap (λ t. done ++ t ∷ map (λ u. promoted u start) rest)
        (promoted-SameCompleted s array start h)

-- Although the loop writes into the array that it reads, it does to every step what it would do
-- by looking at the array as it was before the loop.
pub promote_ready_steps-eq-map :
    (steps : List MissionStep) → promote_ready_steps steps ≡ map (λ s. promoted s steps) steps
unfolding promote_ready_steps
promote_ready_steps-eq-map steps = promote_from-eq-map steps [] steps (λ id. refl)
