-- ===== src/Meter/Tests.antt =====
-- A tenant with use in two periods, and a report whose answer is lost.
use web_resource_ledger.Prelude.{
  ◌-◌, ◌≡◌, ◌≢◌, refl, List, [], ◌∷◌, some, true, ◌⊎◌, inl, inr, arith,
}
use web_resource_ledger.Prelude.Texts.{codes, text_eq}
use web_resource_ledger.Meter.{
  Counter, Payer, captures, MeterEvent, identifier_of, MeterOutcome, refused, unanswered, saved,
  customer_of, report_pending_meter_events,
}
use web_resource_ledger.Meter.Ledger.{IsBalanced, report_pending_meter_events-IsBalanced}
use web_resource_ledger.Meter.Watermarks.{counted_for}
use web_resource_ledger.Meter.Twice.{
  grown, first_run, next_run, report_pending_meter_events_counts_twice,
}

abbrev march : Counter
march = record {
  tenant_id = codes "t";
  period = codes "2026-03";
  capture_count = 7;
  reported_capture_count = 4;
  eidas_capture_count = 2;
  reported_eidas_count = 0;
}

abbrev february : Counter
february = record {
  tenant_id = codes "t";
  period = codes "2026-02";
  capture_count = 9;
  reported_capture_count = 8;
  eidas_capture_count = 0;
  reported_eidas_count = 0;
}

abbrev payers : List Payer
payers =
    record { id = codes "t"; stripe_customer_id = some (codes "cus_1"); has_payment_method = true }
    ∷ []

-- Stripe refuses the first call.
abbrev refuses_first : List MeterEvent → MeterEvent → MeterOutcome
refuses_first [] event = refused
refuses_first (e ∷ calls) event = saved

abbrev whole :
    (calls : List MeterEvent) (event : MeterEvent)
    → (refuses_first calls event ≡ refused) ⊎ (refuses_first calls event ≡ saved)
whole [] event = inl refl
whole (e ∷ calls) event = inr refl

report_pending_meter_events-IsBalanced_example : IsBalanced (march ∷ february ∷ []) (
    report_pending_meter_events refuses_first
      (codes "2026-03")
      (codes "2026-02")
      []
      payers
      (march ∷ february ∷ []))
unfolding text_eq
report_pending_meter_events-IsBalanced_example =
    report_pending_meter_events-IsBalanced refuses_first whole (codes "2026-03") (codes "2026-02")
      [] payers (march ∷ february ∷ []) ((refl, tt), (tt, tt))

-- The answer to the first call is lost.
abbrev loses_first : List MeterEvent → MeterEvent → MeterOutcome
loses_first [] event = unanswered
loses_first (e ∷ calls) event = saved

abbrev plain : Counter
plain = record march { eidas_capture_count = 0 }

report_pending_meter_events_counts_twice_example :
    (counted_for captures
        (codes "t")
        (codes "2026-03")
        (first_run loses_first (codes "2026-03") (codes "2026-02") [] payers plain).counted
      ≡ 7 - 4)
    × (counted_for captures
          (codes "t")
          (codes "2026-03")
          (next_run loses_first
            (codes "2026-03")
            (codes "2026-02")
            payers
            9
            (first_run loses_first (codes "2026-03") (codes "2026-02") [] payers plain)).counted
        ≡ 9 - 4)
    × ((next_run loses_first
          (codes "2026-03")
          (codes "2026-02")
          payers
          9
          (first_run loses_first (codes "2026-03") (codes "2026-02") [] payers plain)).counters
        ≡ record plain { capture_count = 9; reported_capture_count = 9 } ∷ [])
    × (identifier_of captures plain ≢ identifier_of captures (grown 9 plain))
unfolding text_eq customer_of
report_pending_meter_events_counts_twice_example =
    report_pending_meter_events_counts_twice loses_first plain (codes "cus_1") (codes "2026-03")
      (codes "2026-02") [] payers 9 unanswered (omega arith) (omega arith) refl refl refl (inl refl)
      refl refl
