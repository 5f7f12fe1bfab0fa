-- ===== src/Meter/Watermarks.antt =====
-- src/meter-reporter.js: what a watermark and what a report change.

use web_resource_ledger.Prelude.{
  ℕ, ◌+◌, ◌≡◌, refl, ap₂, sym, ◌∙◌, List, [], ◌∷◌, Option, none, some, Bool, true, false, ◌&&◌,
  if◌then◌else◌, arith,
}
use web_resource_ledger.Prelude.Texts.{Text, text_eq, text_eq_iff}
use web_resource_ledger.Meter.{
  Counter, Meter, captures, eidas_timestamps, watermark, set_watermark, Counted, has_key,
  update_counters,
}

abbrev pub same_meter : Meter → Meter → Bool
same_meter captures captures = true
same_meter eidas_timestamps eidas_timestamps = true
same_meter captures eidas_timestamps = false
same_meter eidas_timestamps captures = false

abbrev pub same_key : (t p t' p' : Text) → Bool
same_key t p t' p' = text_eq t t' && text_eq p p'

-- The watermark of a row.
unfoldable pub watermark_at : Meter → Text → Text → List Counter → Option ℕ
watermark_at m t p [] = none
watermark_at m t p (c ∷ cs) = if has_key t p c then some (watermark m c) else watermark_at m t p cs

-- What Stripe has counted for a row.
unfoldable pub counted_for : Meter → Text → Text → List Counted → ℕ
counted_for m t p [] = 0
counted_for m t p (x ∷ xs) =
    (if same_meter x.meter m && same_key x.counted_tenant x.counted_period t p
      then x.event.value
      else 0)
    + counted_for m t p xs

pub same_key_refl : (t p : Text) → same_key t p t p ≡ true
same_key_refl t p = rw ((text_eq_iff t t).1 refl, (text_eq_iff p p).1 refl)

pub same_meter_refl : (m : Meter) → same_meter m m ≡ true
same_meter_refl captures = refl
same_meter_refl eidas_timestamps = refl

pub same_meter-eq : (m n : Meter) → same_meter m n ≡ true → m ≡ n
same_meter-eq captures captures h = refl
same_meter-eq eidas_timestamps eidas_timestamps h = refl
same_meter-eq captures eidas_timestamps h = cc
same_meter-eq eidas_timestamps captures h = cc

pub same_key-left : (t p t' p' : Text) → same_key t p t' p' ≡ true → t ≡ t'
same_key-left t p t' p' h = let e : text_eq t t' ≡ true = ground arith in (text_eq_iff t t').0 e

pub same_key-right : (t p t' p' : Text) → same_key t p t' p' ≡ true → p ≡ p'
same_key-right t p t' p' h = let e : text_eq p p' ≡ true = ground arith in (text_eq_iff p p').0 e

has_key-set_watermark :
    (m : Meter) (n : ℕ) (t p : Text) (c : Counter)
    → has_key t p (set_watermark m n c) ≡ has_key t p c
has_key-set_watermark captures n t p c = refl
has_key-set_watermark eidas_timestamps n t p c = refl

watermark-set_watermark :
    (m m' : Meter) (n : ℕ) (c : Counter)
    → watermark m' (set_watermark m n c) ≡ (if same_meter m m' then n else watermark m' c)
watermark-set_watermark captures captures n c = refl
watermark-set_watermark captures eidas_timestamps n c = refl
watermark-set_watermark eidas_timestamps captures n c = refl
watermark-set_watermark eidas_timestamps eidas_timestamps n c = refl

-- A row with both keys shows that they are the same.
has_key-same_key :
    (t p t' p' : Text) (c : Counter) → has_key t p c ≡ true → has_key t' p' c ≡ same_key t p t' p'
has_key-same_key t p t' p' c h =
    ap₂ (λ s q. text_eq s t' && text_eq q p') (same_key-left c.tenant_id c.period t p h)
      (same_key-right c.tenant_id c.period t p h)

-- Another row, or the other watermark of the same row.
pub other_unchanged :
    (m m' : Meter) (t p t' p' : Text) (n : ℕ) (cs : List Counter)
    → (same_meter m m' && same_key t p t' p') ≡ false
    → watermark_at m' t' p' (update_counters t p (set_watermark m n) cs) ≡ watermark_at m' t' p' cs
unfolding watermark_at update_counters
other_unchanged m m' t p t' p' n [] d = refl
other_unchanged m m' t p t' p' n (c ∷ cs) d =
    by_key (other_unchanged m m' t p t' p' n cs d) (has_key t p c) (has_key t' p' c) refl refl
  where
    by_key :
        (watermark_at m' t' p' (update_counters t p (set_watermark m n) cs)
          ≡ watermark_at m' t' p' cs)
        → (b b' : Bool) → has_key t p c ≡ b
        → has_key t' p' c ≡ b'
        → watermark_at m' t' p' (update_counters t p (set_watermark m n) (c ∷ cs))
          ≡ watermark_at m' t' p' (c ∷ cs)
    by_key rest false true e f = rw (e, f, watermark_at, update_counters)
    by_key rest false false e f = rw (e, f, watermark_at, update_counters) rest
    by_key rest true false e f =
        rw (e, has_key-set_watermark m n t' p' c, f, watermark_at, update_counters) rest
    by_key rest true true e f =
        let keys : same_key t p t' p' ≡ true = sym (has_key-same_key t p t' p' c e) ∙ f in
        let meters : same_meter m m' ≡ false = ground arith in
        rw (
          e,
          has_key-set_watermark m n t' p' c,
          f,
          watermark-set_watermark m m' n c,
          meters,
          watermark_at,
          update_counters,
        )

pub own_set :
    (m : Meter) (t p : Text) (n w : ℕ) (cs : List Counter)
    → watermark_at m t p cs ≡ some w
    → watermark_at m t p (update_counters t p (set_watermark m n) cs) ≡ some n
unfolding watermark_at update_counters
own_set m t p n w [] h = cc
own_set m t p n w (c ∷ cs) h = by_key (own_set m t p n w cs) (has_key t p c) refl
  where
    by_key :
        (watermark_at m t p cs ≡ some w
          → watermark_at m t p (update_counters t p (set_watermark m n) cs) ≡ some n)
        → (b : Bool) → has_key t p c ≡ b
        → watermark_at m t p (update_counters t p (set_watermark m n) (c ∷ cs)) ≡ some n
    by_key rest true e = rw (
      e,
      has_key-set_watermark m n t p c,
      e,
      watermark-set_watermark m m n c,
      same_meter_refl m,
      watermark_at,
      update_counters,
    )
    by_key rest false e =
        rw (e, e, watermark_at, update_counters) (rest (rw (e, watermark_at) at h))

pub counted_for_other :
    (m : Meter) (t p : Text) (x : Counted) (xs : List Counted)
    → (same_meter x.meter m && same_key x.counted_tenant x.counted_period t p) ≡ false
    → counted_for m t p (x ∷ xs) ≡ counted_for m t p xs
unfolding counted_for
counted_for_other m t p x xs e = rw (e, counted_for) (omega arith)

pub counted_for_own :
    (m : Meter) (t p : Text) (x : Counted) (xs : List Counted)
    → (same_meter x.meter m && same_key x.counted_tenant x.counted_period t p) ≡ true
    → counted_for m t p (x ∷ xs) ≡ x.event.value + counted_for m t p xs
unfolding counted_for
counted_for_own m t p x xs e = rw (e, counted_for)
