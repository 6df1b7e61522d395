-- ===== src/Billing.antt =====
-- services/billing-service/src/index.ts: plans, quotas and what a workspace may still use. What
-- the persistence returns is an argument. Amounts are whole numbers; a limit of an override is
-- a whole number, or a value that the filter of applyQuotaOverride passes over.
mod Plans
pub mod Quota
unfoldable pub use Plans.*
use jean_bot.Common.{
  ℕ, ◌+◌, ◌-◌, ◌*◌, String, Bool, true, false, ◌&&◌, Option, none, some, List, [], ◌∷◌,
  if◌then◌else◌, ltb, leb, ◌==◌, string_eq, length, filter, find, or_default, is_some, template,
}

pub record WorkspaceBillingSnapshot : Type 0 where
  pub workspace_id : String
  pub tenant_id : Option String
  pub plan_id : String
  pub mode : ProviderMode
  pub customer_id : Option String
  pub subscription_id : Option String
  pub portal_url : String
  pub usage : Quotas
  pub limits : Quotas
  pub recent_usage_events : List UsageEventRecord
  pub quota_override : Option WorkspaceQuotaOverrideRecord
  pub stripe_sync : StripeSync
  pub updated_at : String

pub record WorkspaceQuotaStatus : Type 0 where
  pub workspace_id : String
  pub tenant_id : Option String
  pub plan_id : String
  pub usage : Quotas
  pub limits : Quotas
  pub remaining : Quotas
  pub exceeded : List BillingQuotaResource
  pub near_limit : List BillingQuotaResource
  pub override_applied : Bool
  pub updated_at : String

-- The first plan stands for an unknown one.
unfoldable pub plan_for : String → BillingPlanRecord
unfolding billing_plans free_plan
plan_for plan_id = or_default (find (λ plan. plan.id == plan_id) billing_plans) free_plan

unfoldable pub provider_mode : Bool → WorkspaceBillingSubscriptionRecord → ProviderMode
provider_mode has_stripe subscription =
    if has_stripe && is_some subscription.stripe_customer_id
    then ProviderMode.live
    else ProviderMode.synthetic

unfoldable pub is_near_limit : Quotas → Quotas → BillingQuotaResource → Bool
is_near_limit usage limits resource =
    ltb 0 (amount limits resource) && leb (8 * amount limits resource) (10 * amount usage resource)

unfoldable pub build_quota_status : WorkspaceBillingSnapshot → WorkspaceQuotaStatus
unfolding is_near_limit
build_quota_status snapshot = record {
  workspace_id = snapshot.workspace_id;
  tenant_id = snapshot.tenant_id;
  plan_id = snapshot.plan_id;
  usage = snapshot.usage;
  limits = snapshot.limits;
  remaining = record {
    missions = snapshot.limits.missions - snapshot.usage.missions;
    memories = snapshot.limits.memories - snapshot.usage.memories;
    knowledge_documents = snapshot.limits.knowledge_documents - snapshot.usage.knowledge_documents;
    automations = snapshot.limits.automations - snapshot.usage.automations;
    browser_minutes = snapshot.limits.browser_minutes - snapshot.usage.browser_minutes;
    terminal_seconds = snapshot.limits.terminal_seconds - snapshot.usage.terminal_seconds;
  };
  exceeded = filter (λ r. ltb (amount snapshot.limits r) (amount snapshot.usage r)) quota_resources;
  near_limit = filter (is_near_limit snapshot.usage snapshot.limits) quota_resources;
  override_applied = is_some snapshot.quota_override;
  updated_at = snapshot.updated_at;
}

unfoldable pub base_limits_for : BillingPlanRecord → Quotas
base_limits_for plan = record {
  missions = plan.mission_runs;
  memories = plan.memory_records;
  knowledge_documents = plan.knowledge_documents;
  automations = plan.active_automations;
  browser_minutes = plan.browser_live_minutes;
  terminal_seconds = plan.terminal_execution_seconds;
}

-- `typeof value === "number"`, `Number.isFinite(value)`, `value >= 0`.
unfoldable pub is_number : LimitValue → Bool
is_number not_numeric = false
is_number _ = true

unfoldable pub is_finite : LimitValue → Bool
is_finite (whole n) = true
is_finite (below_zero n) = true
is_finite _ = false

unfoldable pub is_at_least_zero : LimitValue → Bool
is_at_least_zero (whole n) = true
is_at_least_zero positive_infinity = true
is_at_least_zero _ = false

-- The test of the filter.
unfoldable pub is_usable : LimitValue → Bool
unfolding is_number is_finite is_at_least_zero
is_usable value = is_number value && is_finite value && is_at_least_zero value

-- The number of a value that passes the filter.
abbrev number_or : ℕ → LimitValue → ℕ
number_or base (whole n) = n
number_or base _ = base

-- An entry that passes the filter replaces the plan's limit.
unfoldable pub overridden : ℕ → Option LimitValue → ℕ
unfolding is_usable
overridden base none = base
overridden base (some value) = if is_usable value then number_or base value else base

unfoldable pub apply_quota_override : Quotas → Option WorkspaceQuotaOverrideRecord → Quotas
unfolding overridden
apply_quota_override limits none = limits
apply_quota_override limits (some o) = record {
  missions = overridden limits.missions (o.limits BillingQuotaResource.missions);
  memories = overridden limits.memories (o.limits BillingQuotaResource.memories);
  knowledge_documents =
      overridden limits.knowledge_documents (o.limits BillingQuotaResource.knowledge_documents);
  automations = overridden limits.automations (o.limits BillingQuotaResource.automations);
  browser_minutes =
      overridden limits.browser_minutes (o.limits BillingQuotaResource.browser_minutes);
  terminal_seconds =
      overridden limits.terminal_seconds (o.limits BillingQuotaResource.terminal_seconds);
}

abbrev count_status : (UsageEventRecord → Bool) → List UsageEventRecord → ℕ
count_status p events = length (filter p events)

abbrev stripe_sync_of : List UsageEventRecord → StripeSync
stripe_sync_of events = record {
  pending = count_status (λ e. is_status e.stripe_sync_status StripeSyncStatus.pending) events;
  synced = count_status (λ e. is_status e.stripe_sync_status StripeSyncStatus.synced) events;
  failed = count_status (λ e. is_status e.stripe_sync_status StripeSyncStatus.failed) events;
  skipped = count_status (λ e. is_status e.stripe_sync_status StripeSyncStatus.skipped) events;
}

-- `getWorkspaceSummary`, from the subscription, the usage, the first 25 events and the override that
-- it reads, and the time.
unfoldable pub workspace_summary :
    Bool
    → String
    → WorkspaceBillingSubscriptionRecord
    → Quotas
    → List UsageEventRecord
    → Option WorkspaceQuotaOverrideRecord
    → String
    → WorkspaceBillingSnapshot × BillingPlanRecord
unfolding plan_for provider_mode apply_quota_override base_limits_for
workspace_summary has_stripe workspace_id subscription usage events quota_override now =
    let plan = plan_for subscription.plan_id in
    (
      record {
        workspace_id = workspace_id;
        tenant_id = subscription.tenant_id;
        plan_id = plan.id;
        mode = provider_mode has_stripe subscription;
        customer_id = subscription.stripe_customer_id;
        subscription_id = subscription.stripe_subscription_id;
        portal_url = template (
            "https://billing.jeanbot.local/workspaces/" ∷ subscription.workspace_id ∷ "?plan="
            ∷ plan.id ∷ []);
        usage = usage;
        limits = apply_quota_override (base_limits_for plan) quota_override;
        recent_usage_events = events;
        quota_override = quota_override;
        stripe_sync = stripe_sync_of events;
        updated_at = now;
      },
      plan,
    )

-- The details of the error `quota_exceeded`, whose status code is 409.
pub record QuotaExceeded : Type 0 where
  pub workspace_id : String
  pub resource : BillingQuotaResource
  pub plan_id : String
  pub current : ℕ
  pub requested : ℕ
  pub limit : ℕ

pub data Checked : Type 0 where
  within : WorkspaceQuotaStatus → Checked
  exceeded : QuotaExceeded → Checked

-- `assertWithinQuota`, from the summary that it reads.
unfoldable pub assert_within_quota :
    WorkspaceBillingSnapshot × BillingPlanRecord → BillingQuotaResource → ℕ → Checked
unfolding build_quota_status
assert_within_quota summary resource increment =
    let snapshot = summary.0 in
    let limit = amount snapshot.limits resource in
    if leb (amount snapshot.usage resource + increment) limit
    then within (build_quota_status snapshot)
    else exceeded (record {
      workspace_id = snapshot.workspace_id;
      resource = resource;
      plan_id = summary.1.id;
      current = amount snapshot.usage resource;
      requested = increment;
      limit = limit;
    })
