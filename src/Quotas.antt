-- ===== src/Quotas.antt =====
-- src/quotas.js: `getEffectiveQuota`, `checkQuota` and `limitReachedEmailData`, with
-- `setBillingStatus` of src/db.js, on the tables of tenants and of usage counters. Times are numbers,
-- and a tenant's configuration is one that parses. The period and the reset time, which the answers
-- only carry along, are left out of them.
pub mod Check
pub mod Transition
mod Tests
use web_resource_ledger.Prelude.{
  ℕ, zero, suc, ◌+◌, List, [], ◌∷◌, Option, none, some, Bool, true, false, not, ◌&&◌, ltb, leb,
  if◌then◌else◌,
}
use web_resource_ledger.Prelude.Texts.{Text, text_eq}

-- The three values of `billing_status` that `setBillingStatus` admits.
pub data BillingStatus : Type 0 where
  active grace_period blocked : BillingStatus

-- A quota, or Infinity.
pub data Limit : Type 0 where
  at_most : ℕ → Limit
  infinity : Limit

pub record Quota : Type 0 where
  pub captures_per_month : Limit
  pub quota_bytes : Limit

-- `tenantConfig.quotas`, where each number may be missing.
pub record Overrides : Type 0 where
  pub captures_override : Option ℕ
  pub bytes_override : Option ℕ

-- A row of `tenants`; `billing_status` may be NULL, and `quotas` is what the configuration holds.
pub record Tenant : Type 0 where
  pub tenant_id : Text
  pub billing_status : Option BillingStatus
  pub grace_period_end : Option ℕ
  pub payment_method_added_at : Option ℕ
  pub eidas_qualified : Bool
  pub quotas : Option Overrides

-- A row of `usage_counters`.
pub record Usage : Type 0 where
  pub usage_tenant : Text
  pub usage_period : Text
  pub capture_count : ℕ
  pub storage_bytes : ℕ

pub record Database : Type 0 where
  pub tenants : List Tenant
  pub usage_counters : List Usage

pub data Refusal : Type 0 where
  tenant_not_found billing_blocked capture_limit payment_required storage_limit : Refusal

-- What `checkQuota` returns, by its `reason` or as allowed.
pub data Answer : Type 0 where
  refused : Refusal → Answer
  -- reason, limit, used, requested
  over_captures : Refusal → ℕ → ℕ → ℕ → Answer
  -- limit, used, has a payment method
  over_storage : ℕ → ℕ → Bool → Answer
  -- captures and bytes used, has a payment method, is qualified
  allowed_in_grace : ℕ → ℕ → Bool → Bool → Answer
  allowed : Quota → ℕ → ℕ → BillingStatus → Bool → Bool → Answer

abbrev pub free_capture_limit : ℕ
free_capture_limit = 200

abbrev pub free_storage_limit : ℕ
free_storage_limit = 10737418240

abbrev pub is_some {ℓ} : {A : Type ℓ} → Option A → Bool
is_some none = false
is_some (some a) = true

abbrev pub or_default {ℓ} : {A : Type ℓ} → Option A → A → A
or_default none d = d
or_default (some a) d = a

-- `override ?? default`
abbrev pub or_limit : Option ℕ → Limit → Limit
or_limit none d = d
or_limit (some n) d = at_most n

abbrev pub default_quota : Bool → Quota
default_quota true = record { captures_per_month = infinity; quota_bytes = infinity }
default_quota false = record {
  captures_per_month = at_most free_capture_limit;
  quota_bytes = at_most free_storage_limit;
}

unfoldable pub get_effective_quota : Bool → Option Overrides → Quota
get_effective_quota has_payment_method none = default_quota has_payment_method
get_effective_quota has_payment_method (some quotas) = record {
  captures_per_month =
      or_limit quotas.captures_override (default_quota has_payment_method).captures_per_month;
  quota_bytes = or_limit quotas.bytes_override (default_quota has_payment_method).quota_bytes;
}

unfoldable pub find_tenant : Text → List Tenant → Option Tenant
find_tenant id [] = none
find_tenant id (t ∷ tenants) = if text_eq t.tenant_id id then some t else find_tenant id tenants

unfoldable pub find_usage : Text → Text → List Usage → Option Usage
find_usage id period [] = none
find_usage id period (u ∷ usages) =
    if text_eq u.usage_tenant id && text_eq u.usage_period period
    then some u
    else find_usage id period usages

abbrev pub count_of : Option Usage → ℕ
count_of none = 0
count_of (some u) = u.capture_count

abbrev pub bytes_of : Option Usage → ℕ
bytes_of none = 0
bytes_of (some u) = u.storage_bytes

-- `setBillingStatus(db, id, 'blocked')`: only a tenant in its grace period is updated.
abbrev pub block_row : Tenant → Tenant
block_row t = elim t.billing_status [
  | none ↦ t
  | some status ↦ elim status [
    | active ↦ t
    | grace_period ↦ record t { billing_status = some blocked }
    | blocked ↦ t
  ]
]

unfoldable pub block_tenant : Text → List Tenant → List Tenant
block_tenant id [] = []
block_tenant id (t ∷ tenants) =
    let rest = block_tenant id tenants in (if text_eq t.tenant_id id then block_row t else t) ∷ rest

-- `gracePeriodEnd && new Date(gracePeriodEnd) < new Date()`
abbrev pub is_expired : Option ℕ → ℕ → Bool
is_expired none now = false
is_expired (some end) now = ltb end now

-- `limit !== Infinity && n > limit`, and the same with `>=`.
abbrev pub exceeds : ℕ → Limit → Bool
exceeds n (at_most limit) = ltb limit n
exceeds n infinity = false

abbrev pub reaches : ℕ → Limit → Bool
reaches n (at_most limit) = leb limit n
reaches n infinity = false

-- The number of a limit that was found finite.
abbrev pub limit_number : Limit → ℕ
limit_number (at_most limit) = limit
limit_number infinity = 0

-- The capture and storage limits, for a tenant that is neither blocked nor in its grace period.
unfoldable pub check_limits : Tenant → Option Usage → ℕ → Answer
check_limits tenant usage count =
    let has_payment_method = is_some tenant.payment_method_added_at in
    let quota = get_effective_quota has_payment_method tenant.quotas in
    let capture_count = count_of usage in
    let storage_bytes = bytes_of usage in
    if exceeds (capture_count + count) quota.captures_per_month
    then over_captures (if has_payment_method then capture_limit else payment_required)
        (limit_number quota.captures_per_month) capture_count count
    else if reaches storage_bytes quota.quota_bytes
    then over_storage (limit_number quota.quota_bytes) storage_bytes has_payment_method
    else allowed quota capture_count storage_bytes (or_default tenant.billing_status active)
        has_payment_method tenant.eidas_qualified

-- The answer and the database after it: an expired grace period blocks the tenant.
unfoldable pub check_tenant : Database → Text → Tenant → Option Usage → ℕ → ℕ → Answer × Database
check_tenant db id tenant usage now count = elim (or_default tenant.billing_status active) [
  | blocked ↦ (refused billing_blocked, db)
  | grace_period ↦
      if is_expired tenant.grace_period_end now
      then (refused billing_blocked, record db { tenants = block_tenant id db.tenants })
      else (
        allowed_in_grace (count_of usage) (bytes_of usage) (is_some tenant.payment_method_added_at)
            tenant.eidas_qualified,
        db,
      )
  | active ↦ (check_limits tenant usage count, db)
]

unfoldable pub check_quota : Database → Text → (period : Text) (now count : ℕ) → Answer × Database
check_quota db id period now count = elim (find_tenant id db.tenants) [
  | none ↦ (refused tenant_not_found, db)
  | some tenant ↦ check_tenant db id tenant (find_usage id period db.usage_counters) now count
]

-- What an e-mail about a reached limit is sent about: the resource, what is used, the limit.
pub data LimitEmail : Type 0 where
  captures_email storage_email : ℕ → ℕ → LimitEmail

-- Only the refusal for storage carries `hasPaymentMethod`.
unfoldable pub limit_reached_email_data : Answer → Option LimitEmail
limit_reached_email_data (refused reason) = none
limit_reached_email_data (over_captures payment_required limit used requested) =
    if leb limit used then some (captures_email used limit) else none
limit_reached_email_data (over_captures reason limit used requested) = none
limit_reached_email_data (over_storage limit used has_payment_method) =
    if has_payment_method then none else some (storage_email used limit)
limit_reached_email_data (allowed_in_grace captures bytes has_payment_method qualified) = none
limit_reached_email_data (allowed quota captures bytes status has_payment_method qualified) = none
