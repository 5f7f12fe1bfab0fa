-- ===== src/Meter/Twice.antt =====
-- src/meter-reporter.js: what a report counts that is not recorded.
use mathlib.Core.List.{append_cancel_left}
use web_resource_ledger.Prelude.{
  ℕ, ◌+◌, ◌-◌, ◌≡◌, ◌≢◌, ◌<◌, refl, ap, ap₂, sym, subst, ◌∙◌, List, [], ◌∷◌, ◌++◌, map, some, true,
  false, ◌||◌, ltb, lt→ltb, ◌⊎◌, inl, inr, arith,
}
use web_resource_ledger.Prelude.Texts.{Text, codes, text_eq}
use web_resource_ledger.Prelude.Decimals.{print_decimal-injective}
use web_resource_ledger.Meter.{
  Counter, captures, eidas_timestamps, set_watermark, MeterEvent, event_of, identifier_of,
  MeterOutcome, unanswered, unsaved, saved, MeterRun, Payer, after_report, customer_of,
  pending_rows, update_counters, report_meter, report_rows, report_pending_meter_events,
}
use web_resource_ledger.Meter.Watermarks.{counted_for, counted_for_own, same_key_refl}

-- The row after more captures.
abbrev pub grown : ℕ → Counter → Counter
grown n c = record c { capture_count = n }

identifiers_differ :
    (c : Counter) (n : ℕ)
    → c.capture_count < n
    → identifier_of captures c ≢ identifier_of captures (grown n c)
unfolding identifier_of
identifiers_differ c n h e =
    let e1 = append_cancel_left (codes "wrl-meter:") _ _ e in
    let e2 = append_cancel_left c.tenant_id _ _ e1 in
    let e3 = append_cancel_left (codes ":") _ _ e2 in
    let e4 = append_cancel_left c.period _ _ e3 in
    let e5 = append_cancel_left (codes ":") _ _ e4 in
    let e6 = append_cancel_left (codes "captures") _ _ e5 in
    let e7 = append_cancel_left (codes ":") _ _ e6 in
    let same : c.capture_count ≡ n = print_decimal-injective c.capture_count n e7 in omega arith

-- The state at the start of a run.
abbrev start : List MeterEvent → List Counter → MeterRun
start calls counters = record {
  calls = calls;
  counted = [];
  counters = counters;
  reported_count = 0;
  failed_count = 0;
}

module _ (outcome : List MeterEvent → MeterEvent → MeterOutcome) where
  row_of_query :
      (c : Counter) (customer current previous : Text) (payers : List Payer)
      → c.reported_capture_count < c.capture_count
      → (text_eq c.period current || text_eq c.period previous) ≡ true
      → customer_of c.tenant_id payers ≡ some customer
      → pending_rows current previous payers (c ∷ []) ≡ (c, customer) ∷ []
  unfolding pending_rows
  row_of_query c customer current previous payers lt in_period payer =
      rw (lt→ltb c.reported_capture_count c.capture_count lt, in_period, payer, pending_rows) refl

  reported :
      (c : Counter) (customer : Text) (run : MeterRun) (o : MeterOutcome)
      → c.reported_capture_count < c.capture_count
      → outcome run.calls (event_of captures c customer) ≡ o
      → report_meter outcome captures c customer run
        ≡ after_report captures c (event_of captures c customer) o run
  unfolding report_meter
  reported c customer run o lt e =
      rw (lt→ltb c.reported_capture_count c.capture_count lt, e, report_meter)

  no_timestamps :
      (c : Counter) (customer : Text) (run : MeterRun)
      → ltb c.reported_eidas_count c.eidas_capture_count ≡ false
      → report_meter outcome eidas_timestamps c customer run ≡ run
  unfolding report_meter
  no_timestamps c customer run h = rw (h, report_meter) refl

  -- A run on a table of one row that has captures to report, and no timestamps.
  one_row :
      (c : Counter) (customer current previous : Text) (calls : List MeterEvent)
      (payers : List Payer) (o : MeterOutcome)
      → c.reported_capture_count < c.capture_count
      → ltb c.reported_eidas_count c.eidas_capture_count ≡ false
      → (text_eq c.period current || text_eq c.period previous) ≡ true
      → customer_of c.tenant_id payers ≡ some customer
      → outcome calls (event_of captures c customer) ≡ o
      → report_pending_meter_events outcome current previous calls payers (c ∷ [])
        ≡ after_report captures c (event_of captures c customer) o (start calls (c ∷ []))
  unfolding report_pending_meter_events report_rows
  one_row c customer current previous calls payers o lt no_eidas in_period payer e =
      ap (λ rows. report_rows outcome rows (start calls (c ∷ [])))
        (row_of_query c customer current previous payers lt in_period payer)
      ∙ no_timestamps c customer (report_meter outcome captures c customer (start calls (c ∷ [])))
          no_eidas
      ∙ reported c customer (start calls (c ∷ [])) o lt e

  counts_event :
      (c : Counter) (customer : Text) (run : MeterRun) (o : MeterOutcome)
      → (o ≡ unanswered) ⊎ ((o ≡ unsaved) ⊎ (o ≡ saved))
      → counted_for captures c.tenant_id c.period
          (after_report captures c (event_of captures c customer) o run).counted
        ≡ (c.capture_count - c.reported_capture_count)
          + counted_for captures c.tenant_id c.period run.counted
  counts_event c customer run o which = by_outcome which
    where
      own :
          counted_for captures c.tenant_id c.period
            (after_report captures c (event_of captures c customer) saved run).counted
          ≡ (c.capture_count - c.reported_capture_count)
            + counted_for captures c.tenant_id c.period run.counted
      own =
          counted_for_own captures c.tenant_id c.period
            (record {
              meter = captures;
              counted_tenant = c.tenant_id;
              counted_period = c.period;
              event = event_of captures c customer;
            })
            run.counted (same_key_refl c.tenant_id c.period)

      by_outcome :
          (o ≡ unanswered) ⊎ ((o ≡ unsaved) ⊎ (o ≡ saved))
          → counted_for captures c.tenant_id c.period
              (after_report captures c (event_of captures c customer) o run).counted
            ≡ (c.capture_count - c.reported_capture_count)
              + counted_for captures c.tenant_id c.period run.counted
      by_outcome (inl e) = rw (e) own
      by_outcome (inr (inl e)) = rw (e) own
      by_outcome (inr (inr e)) = rw (e) own

  nothing_before : (t p : Text) (k : ℕ) → k + counted_for captures t p [] ≡ k
  unfolding counted_for
  nothing_before t p k = omega arith

  updated :
      (c : Counter) (n : ℕ)
      → update_counters c.tenant_id c.period (set_watermark captures n) (grown n c ∷ [])
        ≡ record c { capture_count = n; reported_capture_count = n } ∷ []
  unfolding update_counters
  updated c n = rw (same_key_refl c.tenant_id c.period) refl

  abbrev pub first_run : Text → Text → List MeterEvent → List Payer → Counter → MeterRun
  first_run current previous calls payers c =
      report_pending_meter_events outcome current previous calls payers (c ∷ [])

  -- The run after, on the table that the run before left, when the tenant has come to `n` captures.
  abbrev pub next_run : Text → Text → List Payer → ℕ → MeterRun → MeterRun
  next_run current previous payers n run =
      report_pending_meter_events outcome current previous run.calls payers
        (map (grown n) run.counters)

  -- A table has only the row of a tenant for the current or the previous period, who can be billed, and has
  -- captures to report and no timestamps. When Stripe counts the report of the captures, but its answer is lost or
  -- the counter cannot be updated, and the tenant comes to more captures before the next run, whose report is
  -- answered and saved, then the next run, which reads the row again, counts the captures of the first report
  -- once more, under another identifier, so that Stripe cannot drop the repetition; and the row then says that each
  -- capture was reported.
  pub report_pending_meter_events_counts_twice :
      (c : Counter) (customer current previous : Text) (calls : List MeterEvent)
      (payers : List Payer) (n : ℕ) (o : MeterOutcome)
      → c.reported_capture_count < c.capture_count
      → c.capture_count < n
      → ltb c.reported_eidas_count c.eidas_capture_count ≡ false
      → (text_eq c.period current || text_eq c.period previous) ≡ true
      → customer_of c.tenant_id payers ≡ some customer
      → (o ≡ unanswered) ⊎ (o ≡ unsaved)
      → outcome calls (event_of captures c customer) ≡ o
      → outcome
          (calls ++ (event_of captures c customer ∷ []))
          (event_of captures (grown n c) customer)
        ≡ saved
      → (counted_for captures c.tenant_id c.period
            (first_run current previous calls payers c).counted
          ≡ c.capture_count - c.reported_capture_count)
        × (counted_for captures c.tenant_id c.period
              (next_run current previous payers n
                (first_run current previous calls payers c)).counted
            ≡ n - c.reported_capture_count)
        × ((next_run current previous payers n (first_run current previous calls payers c)).counters
            ≡ record c { capture_count = n; reported_capture_count = n } ∷ [])
        × (identifier_of captures c ≢ identifier_of captures (grown n c))
  report_pending_meter_events_counts_twice c customer current previous calls payers n o lt more
        no_eidas in_period payer which e f =
      by_outcome which
    where
      event : MeterEvent
      event = event_of captures c customer

      run1 : MeterOutcome → MeterRun
      run1 o' = after_report captures c event o' (start calls (c ∷ []))

      Twice : MeterRun → Type 0
      Twice run =
          (counted_for captures c.tenant_id c.period run.counted
            ≡ c.capture_count - c.reported_capture_count)
          × (counted_for captures c.tenant_id c.period
                (next_run current previous payers n run).counted
              ≡ n - c.reported_capture_count)
          × ((next_run current previous payers n run).counters
              ≡ record c { capture_count = n; reported_capture_count = n } ∷ [])
          × (identifier_of captures c ≢ identifier_of captures (grown n c))

      second :
          report_pending_meter_events outcome current previous
            (calls ++ (event ∷ []))
            payers
            (grown n c ∷ [])
          ≡ after_report captures
              (grown n c)
              (event_of captures (grown n c) customer)
              saved
              (start (calls ++ (event ∷ [])) (grown n c ∷ []))
      second =
          one_row (grown n c) customer current previous (calls ++ (event ∷ [])) payers saved
            (omega arith) no_eidas in_period payer f

      twice :
          (o' : MeterOutcome)
          → (o' ≡ unanswered) ⊎ ((o' ≡ unsaved) ⊎ (o' ≡ saved))
          → (run1 o').calls ≡ calls ++ (event ∷ [])
          → (run1 o').counters ≡ c ∷ []
          → outcome calls event ≡ o'
          → Twice (first_run current previous calls payers c)
      twice o' which' same_calls same_counters e' =
          let first =
            one_row c customer current previous calls payers o' lt no_eidas in_period payer e' in
          let next : next_run current previous payers n (run1 o')
              ≡ after_report captures (grown n c) (event_of captures (grown n c) customer) saved
                  (start (calls ++ (event ∷ [])) (grown n c ∷ [])) =
            ap₂
              (λ k t.
                report_pending_meter_events outcome current previous k payers (map (grown n) t))
              same_calls same_counters
            ∙ second in
          subst Twice (sym first) (
            counts_event c customer (start calls (c ∷ [])) o' which'
                ∙ nothing_before c.tenant_id c.period _,
            ap (λ r. counted_for captures c.tenant_id c.period r.counted) next
                ∙ counts_event (grown n c) customer (start (calls ++ (event ∷ [])) (grown n c ∷ []))
                    saved (inr (inr refl))
                ∙ nothing_before c.tenant_id c.period _,
            ap (λ r. r.counters) next ∙ updated c n,
            identifiers_differ c n more,
          )

      by_outcome :
          (o ≡ unanswered) ⊎ (o ≡ unsaved) → Twice (first_run current previous calls payers c)
      by_outcome (inl w) = twice unanswered (inl refl) refl refl (e ∙ w)
      by_outcome (inr w) = twice unsaved (inr (inl refl)) refl refl (e ∙ w)
