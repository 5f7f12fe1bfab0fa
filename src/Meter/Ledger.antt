-- ===== src/Meter/Ledger.antt =====
-- src/meter-reporter.js: the watermarks are what Stripe has counted.
use mathlib.Core.Option
use mathlib.Core.Option.{some-injective}
use web_resource_ledger.Prelude.{
  ℕ, ◌+◌, ◌-◌, ◌≡◌, ◌<◌, refl, ap, ap₂, sym, ◌∙◌, List, [], ◌∷◌, Option, none, some, Bool, true,
  false, ◌&&◌, ltb, if◌then◌else◌, All, ◌⊎◌, inl, inr, subst, ltb→lt, Bool-cases, arith,
}
use web_resource_ledger.Prelude.Texts.{Text}
use web_resource_ledger.Meter.{
  Counter, Payer, Meter, captures, eidas_timestamps, metered, watermark, MeterEvent, event_of,
  MeterOutcome, refused, unanswered, unsaved, saved, Counted, MeterRun, after_report, report_meter,
  report_rows, report_pending_meter_events, pending_rows,
}
use web_resource_ledger.Meter.Watermarks.{
  same_meter, same_key, watermark_at, counted_for, same_key_refl, same_meter_refl, same_meter-eq,
  same_key-left, same_key-right, other_unchanged, own_set, counted_for_other, counted_for_own,
}
use web_resource_ledger.Meter.Rows.{
  DistinctCounters, DistinctRows, IsCurrent, pending_rows-All, pending_rows_distinct, All-IsCurrent,
}

-- The watermark of a row is what it was at first, with what has been counted since.
abbrev pub IsBalancedAt : List Counter → MeterRun → Meter → Text → Text → Type 0
IsBalancedAt first run m t p =
    watermark_at m t p run.counters
    ≡ Option.map (λ w. w + counted_for m t p run.counted) (watermark_at m t p first)

abbrev pub IsBalanced : List Counter → MeterRun → Type 0
IsBalanced first run = (m : Meter) (t p : Text) → IsBalancedAt first run m t p

balanced_own :
    (first : Option ℕ) (total before value : ℕ)
    → some before ≡ Option.map (λ w. w + total) first
    → some (before + value) ≡ Option.map (λ w. w + (value + total)) first
balanced_own none total before value h = cc
balanced_own (some w) total before value h =
    let e : before ≡ w + total = some-injective _ _ h in ap some (omega arith)

map_zero : (o : Option ℕ) → o ≡ Option.map (λ w. w + 0) o
map_zero none = refl
map_zero (some w) = ap some (omega arith)

and_false : (a b : Bool) → b ≡ false → (a && b) ≡ false
and_false a b h = ground arith

module _ (outcome : List MeterEvent → MeterEvent → MeterOutcome) where
  -- Another watermark than the one reported is as it was, whatever becomes of the report.
  report_meter-IsCurrent :
      (m m' : Meter) (c d : Counter) (customer : Text) (run : MeterRun)
      → (same_meter m m' && same_key c.tenant_id c.period d.tenant_id d.period) ≡ false
      → watermark_at m' d.tenant_id d.period run.counters ≡ some (watermark m' d)
      → watermark_at m' d.tenant_id d.period (report_meter outcome m c customer run).counters
        ≡ some (watermark m' d)
  unfolding report_meter
  report_meter-IsCurrent m m' c d customer run e h = by_test (ltb (watermark m c) (metered m c))
    where
      by_outcome :
          (o : MeterOutcome)
          → watermark_at m' d.tenant_id d.period
              (after_report m c (event_of m c customer) o run).counters
            ≡ some (watermark m' d)
      by_outcome refused = h
      by_outcome unanswered = h
      by_outcome unsaved = h
      by_outcome saved =
          other_unchanged m m' c.tenant_id c.period d.tenant_id d.period (metered m c) run.counters
            e
          ∙ h

      by_test :
          (b : Bool)
          → watermark_at m' d.tenant_id d.period
              (if b
                then after_report m c
                    (event_of m c customer)
                    (outcome run.calls (event_of m c customer))
                    run
                else run).counters
            ≡ some (watermark m' d)
      by_test true = by_outcome (outcome run.calls (event_of m c customer))
      by_test false = h

  abbrev counted_now : Meter → Counter → Text → Counted
  counted_now m c customer = record {
    meter = m;
    counted_tenant = c.tenant_id;
    counted_period = c.period;
    event = event_of m c customer;
  }

  saved-IsBalancedAt :
      (first : List Counter) (m : Meter) (c : Counter) (customer : Text) (run : MeterRun)
      → watermark m c < metered m c
      → watermark_at m c.tenant_id c.period run.counters ≡ some (watermark m c)
      → IsBalanced first run
      → IsBalancedAt first
          (after_report m c (event_of m c customer) saved run)
          m
          c.tenant_id
          c.period
  saved-IsBalancedAt first m c customer run lt h b =
      let t = c.tenant_id in
      let p = c.period in
      let value = metered m c - watermark m c in
      let total = counted_for m t p run.counted in
      let same : (same_meter m m && same_key t p t p) ≡ true =
        ap₂ (λ x y. x && y) (same_meter_refl m) (same_key_refl t p) in
      let whole : metered m c ≡ watermark m c + value = omega arith in
      own_set m t p (metered m c) (watermark m c) run.counters h
      ∙ ap some whole
      ∙ balanced_own (watermark_at m t p first) total (watermark m c) value (sym h ∙ b m t p)
      ∙ ap (λ k. Option.map (λ w. w + k) (watermark_at m t p first))
          (sym (counted_for_own m t p (counted_now m c customer) run.counted same))

  saved-IsBalanced :
      (first : List Counter) (m : Meter) (c : Counter) (customer : Text) (run : MeterRun)
      → watermark m c < metered m c
      → watermark_at m c.tenant_id c.period run.counters ≡ some (watermark m c)
      → IsBalanced first run
      → IsBalanced first (after_report m c (event_of m c customer) saved run)
  saved-IsBalanced first m c customer run lt h b m' t p =
      let after = after_report m c (event_of m c customer) saved run in
      elim (Bool-cases (same_meter m m' && same_key c.tenant_id c.period t p)) [
        | inr e ↦
            other_unchanged m m' c.tenant_id c.period t p (metered m c) run.counters e
            ∙ b m' t p
            ∙ ap (λ k. Option.map (λ w. w + k) (watermark_at m' t p first))
                (sym (counted_for_other m' t p (counted_now m c customer) run.counted e))
        | inl e ↦
            let meters : same_meter m m' ≡ true = ground arith in
            let keys : same_key c.tenant_id c.period t p ≡ true = ground arith in
            subst (λ n. IsBalancedAt first after n t p) (same_meter-eq m m' meters)
              (subst (λ s. IsBalancedAt first after m s p)
                (same_key-left c.tenant_id c.period t p keys)
                (subst (λ q. IsBalancedAt first after m c.tenant_id q)
                  (same_key-right c.tenant_id c.period t p keys)
                  (saved-IsBalancedAt first m c customer run lt h b)))
      ]

  -- One report, which Stripe refuses or which is done whole.
  report_meter-IsBalanced :
      ((calls : List MeterEvent) (event : MeterEvent)
        → (outcome calls event ≡ refused) ⊎ (outcome calls event ≡ saved))
      → (first : List Counter) (m : Meter) (c : Counter) (customer : Text) (run : MeterRun)
      → watermark_at m c.tenant_id c.period run.counters ≡ some (watermark m c)
      → IsBalanced first run
      → IsBalanced first (report_meter outcome m c customer run)
  unfolding report_meter
  report_meter-IsBalanced whole first m c customer run h b =
      by_test (ltb (watermark m c) (metered m c)) refl
    where
      by_outcome :
          watermark m c < metered m c
          → (o : MeterOutcome) → (o ≡ refused) ⊎ (o ≡ saved)
          → IsBalanced first (after_report m c (event_of m c customer) o run)
      by_outcome lt o (inl e) =
          subst (λ q. IsBalanced first (after_report m c (event_of m c customer) q run)) (sym e) b
      by_outcome lt o (inr e) =
          subst (λ q. IsBalanced first (after_report m c (event_of m c customer) q run)) (sym e)
            (saved-IsBalanced first m c customer run lt h b)

      by_test :
          (t : Bool)
          → ltb (watermark m c) (metered m c) ≡ t
          → IsBalanced first (
              if t
              then after_report m c
                  (event_of m c customer)
                  (outcome run.calls (event_of m c customer))
                  run
              else run)
      by_test true e =
          by_outcome (ltb→lt _ _ e) (outcome run.calls (event_of m c customer))
            (whole run.calls (event_of m c customer))
      by_test false e = b

  still-IsCurrent :
      (c : Counter) (customer : Text) (run : MeterRun) (rows : List (Counter × Text))
      → All (λ s. same_key c.tenant_id c.period s.0.tenant_id s.0.period ≡ false) rows
      → All (λ r. IsCurrent run.counters r.0) rows
      → All
          (λ r.
            IsCurrent
              (report_meter outcome eidas_timestamps c customer
                (report_meter outcome captures c customer run)).counters
              r.0)
          rows
  still-IsCurrent c customer run [] d a = tt
  still-IsCurrent c customer run (r ∷ rows) d a = (
    (λ m.
        report_meter-IsCurrent eidas_timestamps m c r.0 customer
          (report_meter outcome captures c customer run)
          (and_false (same_meter eidas_timestamps m) _ d.0)
          (report_meter-IsCurrent captures m c r.0 customer run
            (and_false (same_meter captures m) _ d.0) (a.0 m))),
    still-IsCurrent c customer run rows d.1 a.1,
  )

  -- The rows that are left, while those before them are reported.
  report_rows-IsBalanced :
      ((calls : List MeterEvent) (event : MeterEvent)
        → (outcome calls event ≡ refused) ⊎ (outcome calls event ≡ saved))
      → (first : List Counter) (rows : List (Counter × Text)) (run : MeterRun) → DistinctRows rows
      → All (λ r. IsCurrent run.counters r.0) rows
      → IsBalanced first run
      → IsBalanced first (report_rows outcome rows run)
  unfolding report_rows
  report_rows-IsBalanced whole first [] run d a b = b
  report_rows-IsBalanced whole first ((c, customer) ∷ rows) run d a b =
      let run1 = report_meter outcome captures c customer run in
      let run2 = report_meter outcome eidas_timestamps c customer run1 in
      let eidas_current =
        report_meter-IsCurrent captures eidas_timestamps c c customer run refl
          (a.0 eidas_timestamps) in
      report_rows-IsBalanced whole first rows run2 d.1 (still-IsCurrent c customer run rows d.0 a.1)
        (report_meter-IsBalanced whole first eidas_timestamps c customer run1 eidas_current
          (report_meter-IsBalanced whole first captures c customer run (a.0 captures) b))

  -- When each report is either refused by Stripe or done whole, every watermark is afterwards what it was
  -- before the run with what Stripe has counted in the run for its meter, tenant and period: no use is
  -- lost and none is counted twice. The rows of usage_counters have different keys, and the run may
  -- follow any calls.
  pub report_pending_meter_events-IsBalanced :
      ((calls : List MeterEvent) (event : MeterEvent)
        → (outcome calls event ≡ refused) ⊎ (outcome calls event ≡ saved))
      → (current previous : Text) (calls : List MeterEvent) (payers : List Payer)
        (counters : List Counter)
      → DistinctCounters counters
      → IsBalanced counters
          (report_pending_meter_events outcome current previous calls payers counters)
  unfolding report_pending_meter_events counted_for
  report_pending_meter_events-IsBalanced whole current previous calls payers counters d =
      report_rows-IsBalanced whole counters (pending_rows current previous payers counters) _
        (pending_rows_distinct current previous payers counters d)
        (pending_rows-All (IsCurrent counters) current previous payers counters
          (All-IsCurrent counters d))
        (λ m t p. map_zero (watermark_at m t p counters))
