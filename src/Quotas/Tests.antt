-- ===== src/Quotas/Tests.antt =====
-- A tenant in its grace period, and one with free captures.
use web_resource_ledger.Prelude.{◌≡◌, ◌↔◌, refl, [], ◌∷◌, none, some, true, false}
use web_resource_ledger.Prelude.Texts.{Text, codes, text_eq}
use web_resource_ledger.Quotas.{
  BillingStatus, active, grace_period, blocked, Tenant, Database, refused, billing_blocked,
  over_captures, payment_required, find_tenant, find_usage, block_tenant, check_limits,
  check_tenant, check_quota, get_effective_quota,
}
use web_resource_ledger.Quotas.Check.{is_allowed, MayCapture, check_quota_iff}

abbrev tenant : Text → BillingStatus → Tenant
tenant id status = record {
  tenant_id = id;
  billing_status = some status;
  grace_period_end = some 100;
  payment_method_added_at = none;
  eidas_qualified = false;
  quotas = none;
}

abbrev db : Database
db = record {
  tenants = tenant (codes "a") grace_period ∷ tenant (codes "b") active ∷ [];
  usage_counters =
      record {
        usage_tenant = codes "b";
        usage_period = codes "2026-01";
        capture_count = 199;
        storage_bytes = 5;
      }
      ∷ [];
}

expired_blocks : check_quota db (codes "a") (codes "2026-01") 101 1 ≡ (
  refused billing_blocked,
  record db { tenants = tenant (codes "a") blocked ∷ tenant (codes "b") active ∷ [] },
)
unfolding check_quota check_tenant find_tenant block_tenant text_eq
expired_blocks = refl

two_are_too_many :
    (check_quota db (codes "b") (codes "2026-01") 101 2).0
    ≡ over_captures payment_required 200 199 2
unfolding check_quota check_tenant check_limits get_effective_quota find_tenant find_usage text_eq
two_are_too_many = refl

check_quota_iff_example :
    (is_allowed (check_quota db (codes "b") (codes "2026-01") 101 1).0 ≡ true) ↔ (
      (t : Tenant) × (find_tenant (codes "b") db.tenants ≡ some t)
      × MayCapture t (find_usage (codes "b") (codes "2026-01") db.usage_counters) 101 1)
check_quota_iff_example = check_quota_iff db (codes "b") (codes "2026-01") 101 1
