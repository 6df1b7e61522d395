-- ===== src/Billing/Plans.antt =====
-- The plans of services/billing-service/src/index.ts and the billing records of
-- packages/types/src/index.ts. Metadata of an event is left out: nothing here reads it.
use jean_bot.Common.{ℕ, true, false, String, Bool, Option, List, [], ◌∷◌}

pub data StripeSyncStatus : Type 0 where
  pending synced failed skipped : StripeSyncStatus

abbrev pub is_status : StripeSyncStatus → StripeSyncStatus → Bool
is_status StripeSyncStatus.pending StripeSyncStatus.pending = true
is_status StripeSyncStatus.synced StripeSyncStatus.synced = true
is_status StripeSyncStatus.failed StripeSyncStatus.failed = true
is_status StripeSyncStatus.skipped StripeSyncStatus.skipped = true
is_status _ _ = false

pub record BillingPlanRecord : Type 0 where
  pub id : String
  pub name : String
  pub monthly_usd : ℕ
  pub mission_runs : ℕ
  pub memory_records : ℕ
  pub knowledge_documents : ℕ
  pub active_automations : ℕ
  pub browser_live_minutes : ℕ
  pub terminal_execution_seconds : ℕ
  pub features : List String

pub data BillingQuotaResource : Type 0 where
  missions memories knowledge_documents automations : BillingQuotaResource
  browser_minutes terminal_seconds : BillingQuotaResource

pub data ProviderMode : Type 0 where
  live synthetic : ProviderMode

pub record UsageEventRecord : Type 0 where
  pub id : String
  pub workspace_id : String
  pub tenant_id : Option String
  pub metric : BillingQuotaResource
  pub quantity : ℕ
  pub source_service : String
  pub source_entity_id : String
  pub timestamp : String
  pub stripe_sync_status : StripeSyncStatus
  pub stripe_error : Option String
  pub billable : Bool
  pub metered_at : String

pub record WorkspaceBillingSubscriptionRecord : Type 0 where
  pub workspace_id : String
  pub tenant_id : Option String
  pub plan_id : String
  pub stripe_customer_id : Option String
  pub stripe_subscription_id : Option String
  pub created_at : String
  pub updated_at : String

-- What a request may hold as a limit: a number, which is n, or -(n + 1), or one of the three that
-- are not finite, or a value of another type. A number with a fraction is not one of the amounts of
-- this model.
pub data LimitValue : Type 0 where
  whole : ℕ → LimitValue
  below_zero : ℕ → LimitValue
  positive_infinity negative_infinity not_a_number : LimitValue
  not_numeric : LimitValue

pub record WorkspaceQuotaOverrideRecord : Type 0 where
  pub workspace_id : String
  pub tenant_id : Option String
  pub limits : BillingQuotaResource → Option LimitValue
  pub reason : Option String
  pub updated_by : Option String
  pub created_at : String
  pub updated_at : String

-- The records under `usage`, `limits` and `remaining`.
pub record Quotas : Type 0 where
  pub missions : ℕ
  pub memories : ℕ
  pub knowledge_documents : ℕ
  pub automations : ℕ
  pub browser_minutes : ℕ
  pub terminal_seconds : ℕ

-- `quotas[resource]`.
abbrev pub amount : Quotas → BillingQuotaResource → ℕ
amount q BillingQuotaResource.missions = q.missions
amount q BillingQuotaResource.memories = q.memories
amount q BillingQuotaResource.knowledge_documents = q.knowledge_documents
amount q BillingQuotaResource.automations = q.automations
amount q BillingQuotaResource.browser_minutes = q.browser_minutes
amount q BillingQuotaResource.terminal_seconds = q.terminal_seconds

pub record StripeSync : Type 0 where
  pub pending : ℕ
  pub synced : ℕ
  pub failed : ℕ
  pub skipped : ℕ

abbrev pub quota_resources : List BillingQuotaResource
quota_resources =
    missions ∷ memories ∷ knowledge_documents ∷ automations ∷ browser_minutes ∷ terminal_seconds
    ∷ []

unfoldable pub free_plan : BillingPlanRecord
free_plan = record {
  id = "free";
  name = "Free";
  monthly_usd = 0;
  mission_runs = 25;
  memory_records = 250;
  knowledge_documents = 50;
  active_automations = 2;
  browser_live_minutes = 60;
  terminal_execution_seconds = 600;
  features = "Core orchestration" ∷ "Synthetic providers" ∷ "Single workspace" ∷ [];
}

abbrev builder_plan : BillingPlanRecord
builder_plan = record {
  id = "builder";
  name = "Builder";
  monthly_usd = 29;
  mission_runs = 250;
  memory_records = 5000;
  knowledge_documents = 1000;
  active_automations = 25;
  browser_live_minutes = 1000;
  terminal_execution_seconds = 25000;
  features = "Priority queueing" ∷ "Live communication adapters" ∷ "Expanded storage" ∷ [];
}

abbrev team_plan : BillingPlanRecord
team_plan = record {
  id = "team";
  name = "Team";
  monthly_usd = 99;
  mission_runs = 2500;
  memory_records = 50000;
  knowledge_documents = 10000;
  active_automations = 250;
  browser_live_minutes = 10000;
  terminal_execution_seconds = 250000;
  features = "Shared tenants" ∷ "Advanced approvals" ∷ "Larger mission concurrency" ∷ [];
}

abbrev enterprise_plan : BillingPlanRecord
enterprise_plan = record {
  id = "enterprise";
  name = "Enterprise";
  monthly_usd = 499;
  mission_runs = 50000;
  memory_records = 1000000;
  knowledge_documents = 100000;
  active_automations = 10000;
  browser_live_minutes = 250000;
  terminal_execution_seconds = 5000000;
  features = "Custom limits" ∷ "Dedicated support" ∷ "Private runtime isolation" ∷ [];
}

unfoldable pub billing_plans : List BillingPlanRecord
unfolding free_plan
billing_plans = free_plan ∷ builder_plan ∷ team_plan ∷ enterprise_plan ∷ []
