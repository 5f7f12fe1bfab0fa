-- ===== src/Quotas/Check.antt =====
-- src/quotas.js: who may capture.
use web_resource_ledger.Prelude.{
  ℕ, ◌+◌, ◌≤◌, ◌<◌, ◌≡◌, ◌↔◌, refl, sym, ◌∙◌, Option, some, Bool, true, false, ◌⊎◌, inl, inr,
  Bool-cases, Option-cases, arith,
}
use web_resource_ledger.Prelude.Texts.{Text}
use web_resource_ledger.Quotas.{
  BillingStatus, active, grace_period, blocked, Limit, at_most, infinity, Quota, Tenant, Usage,
  Database, Answer, refused, over_captures, over_storage, allowed_in_grace, allowed, is_some,
  or_default, get_effective_quota, find_tenant, find_usage, count_of, bytes_of, is_expired, exceeds,
  reaches, check_limits, check_tenant, check_quota,
}

abbrev pub is_allowed : Answer → Bool
is_allowed (refused reason) = false
is_allowed (over_captures reason limit used requested) = false
is_allowed (over_storage limit used has_payment_method) = false
is_allowed (allowed_in_grace captures bytes has_payment_method qualified) = true
is_allowed (allowed quota captures bytes status has_payment_method qualified) = true

-- A number within a limit, and strictly below it.
abbrev pub Within : ℕ → Limit → Type 0
Within n (at_most limit) = n ≤ limit
Within n infinity = Unit

abbrev pub Below : ℕ → Limit → Type 0
Below n (at_most limit) = n < limit
Below n infinity = Unit

abbrev pub quota_of : Tenant → Quota
quota_of t = get_effective_quota (is_some t.payment_method_added_at) t.quotas

-- Why a tenant may make `count` captures: it is in a grace period that has not ended, or it is active
-- and has room for them and for more bytes.
pub data MayCapture (t : Tenant) (usage : Option Usage) (now count : ℕ) : Type 0 where
  in_grace :
      or_default t.billing_status active ≡ grace_period
      → is_expired t.grace_period_end now ≡ false
      → MayCapture t usage now count
  within_quota :
      or_default t.billing_status active ≡ active
      → Within (count_of usage + count) (quota_of t).captures_per_month
      → Below (bytes_of usage) (quota_of t).quota_bytes
      → MayCapture t usage now count

pub Status-cases : (s : BillingStatus) → (s ≡ active) ⊎ (s ≡ grace_period) ⊎ (s ≡ blocked)
Status-cases active = inl refl
Status-cases grace_period = inr (inl refl)
Status-cases blocked = inr (inr refl)

exceeds-Within : (n : ℕ) (l : Limit) → (exceeds n l ≡ false) ↔ Within n l
exceeds-Within n (at_most limit) = ground arith
exceeds-Within n infinity = (λ h. tt, λ h. refl)

reaches-Below : (n : ℕ) (l : Limit) → (reaches n l ≡ false) ↔ Below n l
reaches-Below n (at_most limit) = ground arith
reaches-Below n infinity = (λ h. tt, λ h. refl)

module _ (t : Tenant) (usage : Option Usage) (now count : ℕ) where
  check_limits_iff : (is_allowed (check_limits t usage count) ≡ true) ↔ (
      Within (count_of usage + count) (quota_of t).captures_per_month
      × Below (bytes_of usage) (quota_of t).quota_bytes)
  unfolding check_limits
  check_limits_iff =
      let captures = exceeds-Within (count_of usage + count) (quota_of t).captures_per_month in
      let bytes = reaches-Below (bytes_of usage) (quota_of t).quota_bytes in
      elim (Bool-cases (exceeds (count_of usage + count) (quota_of t).captures_per_month)) [
        | inl over ↦ rw over ((λ h. cc), λ room. let no = captures.1 room.0 in cc)
        | inr e ↦ elim (Bool-cases (reaches (bytes_of usage) (quota_of t).quota_bytes)) [
          | inl full ↦ rw (e, full) ((λ h. cc), λ room. let no = bytes.1 room.1 in cc)
          | inr f ↦ rw (e, f) ((λ h. (captures.0 e, bytes.0 f)), λ room. refl)
        ]
      ]

  check_tenant_iff :
      (db : Database) (id : Text)
      → (is_allowed (check_tenant db id t usage now count).0 ≡ true) ↔ MayCapture t usage now count
  unfolding check_tenant
  check_tenant_iff db id = elim (Status-cases (or_default t.billing_status active)) [
    | inl e ↦ (
      (λ h.
          let k : is_allowed (check_limits t usage count) ≡ true = rw (e, check_tenant) at h in
          let (room, bytes) = check_limits_iff.0 k in within_quota e room bytes),
      λ may. elim may [
        | in_grace f g ↦ let impossible = sym e ∙ f in cc
        | within_quota f room bytes ↦ rw (e, check_tenant) (check_limits_iff.1 (room, bytes))
      ],
    )
    | inr (inl e) ↦ elim (Bool-cases (is_expired t.grace_period_end now)) [
      | inl over ↦ (
        (λ h. let k : false ≡ true = rw (e, over, check_tenant) at h in cc),
        λ may. elim may [
          | in_grace f g ↦ let impossible = sym over ∙ g in cc
          | within_quota f room bytes ↦ let impossible = sym e ∙ f in cc
        ],
      )
      | inr g ↦ ((λ h. in_grace e g), λ may. rw (e, g, check_tenant))
    ]
    | inr (inr e) ↦ (
      (λ h. let k : false ≡ true = rw (e, check_tenant) at h in cc),
      λ may. elim may [
        | in_grace f g ↦ let impossible = sym e ∙ f in cc
        | within_quota f room bytes ↦ let impossible = sym e ∙ f in cc
      ],
    )
  ]

-- `checkQuota` allows the captures exactly when the tenant exists and is in a grace period that has
-- not ended, or is active, would not go over its captures with them, and is below its bytes.
pub check_quota_iff :
    (db : Database) (id period : Text) (now count : ℕ)
    → (is_allowed (check_quota db id period now count).0 ≡ true) ↔ (
        (t : Tenant) × (find_tenant id db.tenants ≡ some t)
        × MayCapture t (find_usage id period db.usage_counters) now count)
unfolding check_quota
check_quota_iff db id period now count = elim (Option-cases (find_tenant id db.tenants)) [
  | inl e ↦ (
    (λ h. let k : false ≡ true = rw (e, check_quota) at h in cc),
    λ (t, found, may). let impossible = sym e ∙ found in cc,
  )
  | inr (t, e) ↦
      let here = check_tenant_iff t (find_usage id period db.usage_counters) now count db id in
      (
        (λ h. (t, e, here.0 (rw (e, check_quota) at h))),
        λ (t', found, may).
            let same =
              check_tenant_iff t' (find_usage id period db.usage_counters) now count db id in
            rw (found, check_quota) (same.1 may),
      )
]
