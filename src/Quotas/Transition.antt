-- ===== src/Quotas/Transition.antt =====
-- src/quotas.js: what a check writes, and the e-mail about a reached limit.
use web_resource_ledger.Prelude.{
  ℕ, ◌≡◌, refl, ap, sym, ◌∙◌, List, [], ◌∷◌, some, true, false, inl, inr, if◌then◌else◌, Bool-cases,
  Option-cases,
}
use web_resource_ledger.Prelude.Texts.{Text, text_eq, text_eq_iff}
use web_resource_ledger.Quotas.{
  active, grace_period, blocked, Tenant, Database, billing_blocked, tenant_not_found, Answer,
  refused, allowed_in_grace, is_some, or_default, find_tenant, find_usage, count_of, bytes_of,
  block_row, block_tenant, is_expired, check_limits, check_tenant, check_quota,
}
use web_resource_ledger.Quotas.Check.{Status-cases}

-- Blocking changes the status of the tenant's row, when it is in its grace period.
same_id : (t : Tenant) → (block_row t).tenant_id ≡ t.tenant_id
same_id t = elim (Option-cases t.billing_status) [
  | inl e ↦ rw e
  | inr (s, e) ↦ elim (Status-cases s) [
    | inl f ↦ rw (e, f)
    | inr (inl f) ↦ rw (e, f)
    | inr (inr f) ↦ rw (e, f)
  ]
]

pub find-block_tenant :
    (id : Text) (tenants : List Tenant) (t : Tenant)
    → find_tenant id tenants ≡ some t
    → find_tenant id (block_tenant id tenants) ≡ some (block_row t)
unfolding find_tenant block_tenant
find-block_tenant id [] t h = cc
find-block_tenant id (row ∷ tenants) t h = elim (Bool-cases (text_eq row.tenant_id id)) [
  | inl here ↦
      let this : row ≡ t = let k : some row ≡ some t = rw (here, find_tenant) at h in cc in
      let still : text_eq (block_row row).tenant_id id ≡ true =
        ap (λ i. text_eq i id) (same_id row) ∙ here in
      rw here (rw still (ap (λ r. some (block_row r)) this))
  | inr other ↦ rw other (rw other (find-block_tenant id tenants t (rw (other, find_tenant) at h)))
]

pub find-block_other :
    (id other : Text) (tenants : List Tenant)
    → text_eq id other ≡ false
    → find_tenant other (block_tenant id tenants) ≡ find_tenant other tenants
unfolding find_tenant block_tenant
find-block_other id other [] h = refl
find-block_other id other (row ∷ tenants) h = elim (Bool-cases (text_eq row.tenant_id id)) [
  | inl here ↦
      let not_other : text_eq row.tenant_id other ≡ false =
        ap (λ i. text_eq i other) ((text_eq_iff row.tenant_id id).0 here) ∙ h in
      let still : text_eq (block_row row).tenant_id other ≡ false =
        ap (λ i. text_eq i other) (same_id row) ∙ not_other in
      rw here (rw (still, not_other) (find-block_other id other tenants h))
  | inr elsewhere ↦ rw elsewhere (
      ap (λ r. if text_eq row.tenant_id other then some row else r)
        (find-block_other id other tenants h))
]

-- A blocked row stays blocked, so a second check of the same tenant is refused.
module _ (db : Database) (id period : Text) (now count : ℕ) where
  abbrev after : Database
  after = (check_quota db id period now count).1

  pub status_of_blocked :
      (t : Tenant)
      → or_default t.billing_status active ≡ grace_period
      → or_default (block_row t).billing_status active ≡ blocked
  status_of_blocked t e = elim (Option-cases t.billing_status) [
    | inl f ↦ let impossible : active ≡ grace_period = rw f at e in cc
    | inr (s, f) ↦ let g : s ≡ grace_period = rw f at e in rw (f, g)
  ]

  again_blocked :
      (t : Tenant)
      → find_tenant id db.tenants ≡ some t
      → or_default t.billing_status active ≡ grace_period
      → check_quota (record db { tenants = block_tenant id db.tenants }) id period now count
        ≡ (refused billing_blocked, record db { tenants = block_tenant id db.tenants })
  unfolding check_quota check_tenant
  again_blocked t found e =
      rw (find-block_tenant id db.tenants t found, status_of_blocked t e, check_quota, check_tenant)

  repeated :
      (r : Answer × Database)
      → check_quota db id period now count ≡ r
      → check_quota r.1 id period now count ≡ r
      → check_quota (check_quota db id period now count).1 id period now count
        ≡ check_quota db id period now count
  repeated r settled again =
      ap (λ q. check_quota q.1 id period now count) settled ∙ again ∙ sym settled

  unchanged :
      (answer : Answer)
      → check_quota db id period now count ≡ (answer, db)
      → check_quota (check_quota db id period now count).1 id period now count
        ≡ check_quota db id period now count
  unchanged answer settled = repeated (answer, db) settled settled

  -- A check that is repeated at the same time gives the same answer and changes nothing more, also
  -- when the first one has blocked the tenant.
  pub check_quota_again :
      check_quota (check_quota db id period now count).1 id period now count
      ≡ check_quota db id period now count
  unfolding check_quota check_tenant
  check_quota_again = elim (Option-cases (find_tenant id db.tenants)) [
    | inl e ↦ unchanged (refused tenant_not_found) (rw (e, check_quota))
    | inr (t, e) ↦ elim (Status-cases (or_default t.billing_status active)) [
      | inl f ↦
          unchanged (check_limits t (find_usage id period db.usage_counters) count)
            (rw (e, f, check_quota, check_tenant))
      | inr (inr f) ↦ unchanged (refused billing_blocked) (rw (e, f, check_quota, check_tenant))
      | inr (inl f) ↦ elim (Bool-cases (is_expired t.grace_period_end now)) [
        | inr g ↦
            unchanged
              (allowed_in_grace (count_of (find_usage id period db.usage_counters))
                (bytes_of (find_usage id period db.usage_counters))
                (is_some t.payment_method_added_at) t.eidas_qualified)
              (rw (e, f, g, check_quota, check_tenant))
        | inl g ↦
            repeated (refused billing_blocked, record db { tenants = block_tenant id db.tenants })
              (rw (e, f, g, check_quota, check_tenant)) (again_blocked t e f)
      ]
    ]
  ]

  -- A check never changes another tenant.
  pub check_quota-other :
      (other : Text)
      → text_eq id other ≡ false
      → find_tenant other (check_quota db id period now count).1.tenants
        ≡ find_tenant other db.tenants
  unfolding check_quota check_tenant
  check_quota-other other h = elim (Option-cases (find_tenant id db.tenants)) [
    | inl e ↦ rw (e, check_quota)
    | inr (t, e) ↦ elim (Status-cases (or_default t.billing_status active)) [
      | inl f ↦ rw (e, f, check_quota, check_tenant)
      | inr (inr f) ↦ rw (e, f, check_quota, check_tenant)
      | inr (inl f) ↦ elim (Bool-cases (is_expired t.grace_period_end now)) [
        | inr g ↦ rw (e, f, g, check_quota, check_tenant)
        | inl g ↦ rw (e, f, g, check_quota, check_tenant) (find-block_other id other db.tenants h)
      ]
    ]
  ]
