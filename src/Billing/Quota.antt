-- ===== src/Billing/Quota.antt =====
-- What a check against the quota promises, and how an override changes the limits.
use jean_bot.Common.{
  ℕ, ◌+◌, ◌-◌, ◌≤◌, ◌≡◌, refl, ap, sym, ◌∙◌, Bool, true, false, some, List, arith, leb,
  if◌then◌else◌, String, string_eq,
}
use jean_bot.Billing.{
  BillingQuotaResource, Quotas, amount, WorkspaceBillingSnapshot, BillingPlanRecord,
  build_quota_status, Checked, within, exceeded, assert_within_quota, apply_quota_override,
  overridden, WorkspaceQuotaOverrideRecord, plan_for, base_limits_for, workspace_summary,
  UsageEventRecord, WorkspaceBillingSubscriptionRecord, whole,
}

abbrev pub is_within : Checked → Bool
is_within (within status) = true
is_within (exceeded details) = false

amount-remaining :
    (snapshot : WorkspaceBillingSnapshot) (resource : BillingQuotaResource)
    → amount (build_quota_status snapshot).remaining resource
      ≡ amount snapshot.limits resource - amount snapshot.usage resource
unfolding build_quota_status
amount-remaining snapshot BillingQuotaResource.missions = refl
amount-remaining snapshot BillingQuotaResource.memories = refl
amount-remaining snapshot BillingQuotaResource.knowledge_documents = refl
amount-remaining snapshot BillingQuotaResource.automations = refl
amount-remaining snapshot BillingQuotaResource.browser_minutes = refl
amount-remaining snapshot BillingQuotaResource.terminal_seconds = refl

is_within-if :
    (b : Bool) (x y : Checked)
    → is_within x ≡ true
    → is_within y ≡ false
    → is_within (if b then x else y) ≡ b
is_within-if true x y p q = p
is_within-if false x y p q = q

-- A request for at least one unit of a resource is within the quota exactly when it is no more than
-- what the quota status reports as remaining of that resource.
pub assert_within_quota-remaining :
    (snapshot : WorkspaceBillingSnapshot) (plan : BillingPlanRecord)
    (resource : BillingQuotaResource) (increment : ℕ)
    → 1 ≤ increment
    → is_within (assert_within_quota (snapshot, plan) resource increment)
      ≡ leb increment (amount (build_quota_status snapshot).remaining resource)
unfolding assert_within_quota
assert_within_quota-remaining snapshot plan resource increment h =
    let same : leb (amount snapshot.usage resource + increment) (amount snapshot.limits resource)
        ≡ leb increment (amount snapshot.limits resource - amount snapshot.usage resource) =
      ground (arith, h) in
    is_within-if _ _ _ refl refl
    ∙ same
    ∙ ap (leb increment) (sym (amount-remaining snapshot resource))

amount-apply_quota_override :
    (limits : Quotas) (o : WorkspaceQuotaOverrideRecord) (resource : BillingQuotaResource)
    → amount (apply_quota_override limits (some o)) resource
      ≡ overridden (amount limits resource) (o.limits resource)
unfolding apply_quota_override
amount-apply_quota_override limits o BillingQuotaResource.missions = refl
amount-apply_quota_override limits o BillingQuotaResource.memories = refl
amount-apply_quota_override limits o BillingQuotaResource.knowledge_documents = refl
amount-apply_quota_override limits o BillingQuotaResource.automations = refl
amount-apply_quota_override limits o BillingQuotaResource.browser_minutes = refl
amount-apply_quota_override limits o BillingQuotaResource.terminal_seconds = refl

-- Where an override gives a whole number that is not negative for a resource, a request is checked against that number,
-- whatever the plan of the workspace is, and however many units are asked for.
pub assert_within_quota-override :
    (has_stripe : Bool) (workspace_id : String) (subscription : WorkspaceBillingSubscriptionRecord)
    (usage : Quotas) (events : List UsageEventRecord) (o : WorkspaceQuotaOverrideRecord)
    (now : String) (resource : BillingQuotaResource) (increment most : ℕ)
    → o.limits resource ≡ some (whole most)
    → is_within (
        assert_within_quota
          (workspace_summary has_stripe workspace_id subscription usage events (some o) now)
          resource
          increment)
      ≡ leb (amount usage resource + increment) most
unfolding assert_within_quota workspace_summary overridden
assert_within_quota-override has_stripe workspace_id subscription usage events o now resource
      increment most h =
    let base = base_limits_for (plan_for subscription.plan_id) in
    is_within-if _ _ _ refl refl
    ∙ ap (leb (amount usage resource + increment))
        (amount-apply_quota_override base o resource ∙ ap (overridden (amount base resource)) h)
