-- ===== src/Examples/Services.antt =====
-- Policy, cache, queue and billing.
use jean_bot.Common.{
  ℕ, ◌+◌, ◌*◌, ◌≡◌, ◌≤◌, ◌<◌, refl, String, false, Option, none, some, [], ◌∷◌, ◌-◌, Bool, ◌==◌,
  nat_eq, length, leb, ltb, includes, All, arith,
}
use jean_bot.Types.{Capability, capability_eq}
use jean_bot.Policy.{severity_index, risk_from_text, mission_text, evaluate_mission}
use jean_bot.Policy.Risk.{AtMost, evaluate_mission-risk}
use jean_bot.Policy.Approval.{evaluate_mission-automatic}
use jean_bot.Cache.{CacheEntry, SlidingWindowLimit, get, set, consume_window, in_window}
use jean_bot.Cache.Expiry.{get-set}
use jean_bot.Cache.Windows.{granted, granted-bounds}
use jean_bot.Queue.{enqueue, dequeue, size, resolved, drained, drain}
use jean_bot.Queue.Drain.{handled, enqueue_all, truthy_front, behind_falsy, drain-enqueue_all}
use jean_bot.Queue.Fifo.{Handling, puts_into, IsFifo, drain-IsFifo}
use jean_bot.Billing.{
  BillingQuotaResource, Quotas, amount, WorkspaceBillingSnapshot, WorkspaceQuotaOverrideRecord,
  WorkspaceBillingSubscriptionRecord, LimitValue, whole, build_quota_status, assert_within_quota,
  workspace_summary, free_plan,
}
use jean_bot.Billing.Quota.{is_within, assert_within_quota-remaining, assert_within_quota-override}
use jean_bot.Examples.{host_text, audit_objective}

evaluate_mission-risk_example :
    (severity_index (risk_from_text host_text (mission_text host_text audit_objective))
      ≤ severity_index (evaluate_mission host_text audit_objective).risk)
    × All
        (AtMost (evaluate_mission host_text audit_objective).risk)
        (evaluate_mission host_text audit_objective).rule_hits
evaluate_mission-risk_example = evaluate_mission-risk host_text audit_objective refl

audit_automatic : (evaluate_mission host_text audit_objective).approval_required ≡ false
unfolding evaluate_mission
audit_automatic = refl

evaluate_mission-automatic_example :
    (severity_index (evaluate_mission host_text audit_objective).risk ≤ 1)
    × ((evaluate_mission host_text audit_objective).rule_hits ≡ [])
    × ((evaluate_mission host_text audit_objective).blocked_actions ≡ [])
    × (includes audit_objective.required_capabilities Capability.finance ≡ false)
    × (includes audit_objective.required_capabilities Capability.communication ≡ false)
evaluate_mission-automatic_example =
    evaluate_mission-automatic host_text audit_objective audit_automatic

abbrev empty_store : String → Option (CacheEntry ℕ)
empty_store key = none

get-set_example :
    (105 ≤ 100 + 10 → (get (set empty_store "k" 7 10 100) "k" 105).1 ≡ some 7)
    × (100 + 10 < 105
        → ((get (set empty_store "k" 7 10 100) "k" 105).1 ≡ none)
          × ((again : ℕ) → (get (get (set empty_store "k" 7 10 100) "k" 105).0 "k" again).1 ≡ none))
get-set_example = get-set "k" empty_store 7 10 100 105

abbrev two_per_ten : SlidingWindowLimit
two_per_ten = record { limit = 2; window_ms = 10; segment = none }

granted-bounds_example :
    length (in_window 10 16 (granted "u" two_per_ten [] [] (1 ∷ 2 ∷ 3 ∷ 12 ∷ 15 ∷ []))) ≤ 2
granted-bounds_example =
    granted-bounds "u" two_per_ten (1 ∷ 2 ∷ 3 ∷ 12 ∷ 15 ∷ []) 16
      (omega arith, (omega arith, (omega arith, (omega arith, (omega arith, tt))))) (omega arith)

third_refused : granted "u" two_per_ten [] [] (1 ∷ 2 ∷ 3 ∷ 12 ∷ 15 ∷ []) ≡ 1 ∷ 2 ∷ 12 ∷ 15 ∷ []
unfolding granted consume_window
third_refused = refl

-- Zero is not truthy.
abbrev is_truthy : ℕ → Bool
is_truthy n = ltb 0 n

drain-enqueue_all_example :
    drain 5 is_truthy
      (λ item s rest. resolved (s * 10 + item) rest)
      0
      (enqueue_all [] (1 ∷ 2 ∷ 0 ∷ 3 ∷ []))
    ≡ drained
        (handled (λ item s. s * 10 + item) 0 (truthy_front is_truthy (1 ∷ 2 ∷ 0 ∷ 3 ∷ [])))
        (behind_falsy is_truthy (1 ∷ 2 ∷ 0 ∷ 3 ∷ []))
unfolding size
drain-enqueue_all_example =
    drain-enqueue_all is_truthy (λ item s. s * 10 + item) 5 0 (1 ∷ 2 ∷ 0 ∷ 3 ∷ []) (omega arith)

stopped_at_zero :
    drain 5 is_truthy (λ item s rest. resolved (s * 10 + item) rest) 0 (1 ∷ 2 ∷ 0 ∷ 3 ∷ [])
    ≡ drained 12 (3 ∷ [])
unfolding drain dequeue size
stopped_at_zero = refl

-- An item n puts the item n - 1 behind the others, and the processor throws at 7.
abbrev again : ℕ → ℕ → Handling ℕ ℕ
again item s = record { after = s + 1; puts = (item - 1) ∷ []; fails = item == 7 }

drain-IsFifo_example : IsFifo is_truthy (2 ∷ 1 ∷ []) 9 (
    drain 9 is_truthy
      (puts_into again)
      (record { state = 0; taken = []; put = [] })
      (enqueue_all [] (2 ∷ 1 ∷ [])))
drain-IsFifo_example = drain-IsFifo is_truthy again 9 0 (2 ∷ 1 ∷ [])

taken_in_order :
    drain 9 is_truthy (puts_into again) (record { state = 0; taken = []; put = [] }) (2 ∷ 1 ∷ [])
    ≡ drained (record { state = 3; taken = 2 ∷ 1 ∷ 1 ∷ []; put = 1 ∷ 0 ∷ 0 ∷ [] }) (0 ∷ [])
unfolding drain dequeue size enqueue
taken_in_order = refl

abbrev used : Quotas
used = record {
  missions = 24;
  memories = 0;
  knowledge_documents = 0;
  automations = 0;
  browser_minutes = 0;
  terminal_seconds = 0;
}

abbrev subscription : WorkspaceBillingSubscriptionRecord
subscription = record {
  workspace_id = "w1";
  tenant_id = none;
  plan_id = "free";
  stripe_customer_id = none;
  stripe_subscription_id = none;
  created_at = "";
  updated_at = "";
}

abbrev snapshot : WorkspaceBillingSnapshot
snapshot = (workspace_summary false "w1" subscription used [] none "").0

assert_within_quota-remaining_example :
    is_within (assert_within_quota (snapshot, free_plan) BillingQuotaResource.missions 1)
    ≡ leb 1 (amount (build_quota_status snapshot).remaining BillingQuotaResource.missions)
assert_within_quota-remaining_example =
    assert_within_quota-remaining snapshot free_plan BillingQuotaResource.missions 1 (omega arith)

abbrev thirty_missions : BillingQuotaResource → Option LimitValue
thirty_missions BillingQuotaResource.missions = some (whole 30)
thirty_missions _ = none

abbrev more_missions : WorkspaceQuotaOverrideRecord
more_missions = record {
  workspace_id = "w1";
  tenant_id = none;
  limits = thirty_missions;
  reason = none;
  updated_by = none;
  created_at = "";
  updated_at = "";
}

assert_within_quota-override_example :
    is_within (
      assert_within_quota
        (workspace_summary false "w1" subscription used [] (some more_missions) "")
        BillingQuotaResource.missions
        6)
    ≡ leb (24 + 6) 30
assert_within_quota-override_example =
    assert_within_quota-override false "w1" subscription used [] more_missions ""
      BillingQuotaResource.missions 6 30 refl
