-- ===== src/Meter.antt =====
-- src/meter-reporter.js: `previousPeriod` and the first pass of `reportPendingMeterEvents`, which reports
-- usage to Stripe. What becomes of a report is a parameter, a function of the calls before it. The
-- second pass, which caches amounts of invoices, and log lines are left out.
pub mod Ledger
pub mod Rows
pub mod Watermarks
pub mod Twice
mod Tests
use web_resource_ledger.Prelude.{
  ℕ, ◌+◌, ◌-◌, ◌==◌, List, [], ◌∷◌, ◌++◌, Option, none, some, Bool, true, false, ◌&&◌, ◌||◌, ltb,
  if◌then◌else◌,
}
use web_resource_ledger.Prelude.Texts.{Text, codes, text_eq}
use web_resource_ledger.Prelude.Decimals.{print_decimal}

-- A year with a month from 1 to 12.
pub record Period : Type 0 where
  pub year : ℕ
  pub month : ℕ

unfoldable pub previous_period : Period → Period
previous_period period =
    if period.month == 1
    then record { year = period.year - 1; month = 12 }
    else record { year = period.year; month = period.month - 1 }

-- A row of usage_counters; its primary key is the tenant with the period.
pub record Counter : Type 0 where
  pub tenant_id : Text
  pub period : Text
  pub capture_count : ℕ
  pub reported_capture_count : ℕ
  pub eidas_capture_count : ℕ
  pub reported_eidas_count : ℕ

-- A row of tenants.
pub record Payer : Type 0 where
  pub id : Text
  pub stripe_customer_id : Option Text
  pub has_payment_method : Bool

-- The two meters, which the source treats one after the other in the same way.
pub data Meter : Type 0 where
  captures eidas_timestamps : Meter

abbrev pub metered : Meter → Counter → ℕ
metered captures c = c.capture_count
metered eidas_timestamps c = c.eidas_capture_count

abbrev pub watermark : Meter → Counter → ℕ
watermark captures c = c.reported_capture_count
watermark eidas_timestamps c = c.reported_eidas_count

abbrev pub set_watermark : Meter → ℕ → Counter → Counter
set_watermark captures n c = record c { reported_capture_count = n }
set_watermark eidas_timestamps n c = record c { reported_eidas_count = n }

abbrev pub is_unreported : Counter → Bool
is_unreported c =
    ltb c.reported_capture_count c.capture_count || ltb c.reported_eidas_count c.eidas_capture_count

-- The customer of a tenant that has one and a payment method.
unfoldable pub customer_of : Text → List Payer → Option Text
customer_of tenant_id [] = none
customer_of tenant_id (payer ∷ payers) =
    if text_eq payer.id tenant_id
    then (if payer.has_payment_method then payer.stripe_customer_id else none)
    else customer_of tenant_id payers

abbrev pub join_customer : Counter → Option Text → List (Counter × Text) → List (Counter × Text)
join_customer c none rows = rows
join_customer c (some customer) rows = (c, customer) ∷ rows

-- The rows of the query.
unfoldable pub pending_rows :
    (current previous : Text) → List Payer → List Counter → List (Counter × Text)
pending_rows current previous payers [] = []
pending_rows current previous payers (c ∷ counters) =
    let rest = pending_rows current previous payers counters in
    if is_unreported c && (text_eq c.period current || text_eq c.period previous)
    then join_customer c (customer_of c.tenant_id payers) rest
    else rest

pub record MeterEvent : Type 0 where
  pub event_name : Text
  pub customer : Text
  pub value : ℕ
  pub identifier : Text

abbrev pub event_text : Meter → Text
event_text captures = codes "captures"
event_text eidas_timestamps = codes "eidas_timestamps"

abbrev pub identifier_text : Meter → Text
identifier_text captures = codes "captures"
identifier_text eidas_timestamps = codes "eidas"

unfoldable pub identifier_of : Meter → Counter → Text
identifier_of m c =
    codes "wrl-meter:"
    ++ (c.tenant_id
        ++ (codes ":"
            ++ (c.period
                ++ (codes ":"
                    ++ (identifier_text m ++ (codes ":" ++ print_decimal (metered m c)))))))

abbrev pub event_of : Meter → Counter → Text → MeterEvent
event_of m c customer = record {
  event_name = event_text m;
  customer = customer;
  value = metered m c - watermark m c;
  identifier = identifier_of m c;
}

-- What becomes of a report: Stripe refuses it; it is counted, and the answer is lost; it is counted and
-- answered, and the counter cannot be updated; all of it is done.
pub data MeterOutcome : Type 0 where
  refused unanswered unsaved saved : MeterOutcome

-- An event that Stripe counted, with the row it was for.
pub record Counted : Type 0 where
  pub meter : Meter
  pub counted_tenant : Text
  pub counted_period : Text
  pub event : MeterEvent

pub record MeterRun : Type 0 where
  pub calls : List MeterEvent
  pub counted : List Counted
  pub counters : List Counter
  pub reported_count : ℕ
  pub failed_count : ℕ

-- `WHERE tenant_id = ? AND period = ?`
abbrev pub has_key : Text → Text → Counter → Bool
has_key tenant_id period c = text_eq c.tenant_id tenant_id && text_eq c.period period

unfoldable pub update_counters : Text → Text → (Counter → Counter) → List Counter → List Counter
update_counters tenant_id period change [] = []
update_counters tenant_id period change (c ∷ counters) =
    (if has_key tenant_id period c then change c else c)
    ∷ update_counters tenant_id period change counters

abbrev pub after_report : Meter → Counter → MeterEvent → MeterOutcome → MeterRun → MeterRun
after_report m c event refused run = record run {
  calls = run.calls ++ (event ∷ []);
  failed_count = run.failed_count + 1;
}
after_report m c event unanswered run = record run {
  calls = run.calls ++ (event ∷ []);
  counted =
      record { meter = m; counted_tenant = c.tenant_id; counted_period = c.period; event = event }
      ∷ run.counted;
  failed_count = run.failed_count + 1;
}
after_report m c event unsaved run = record run {
  calls = run.calls ++ (event ∷ []);
  counted =
      record { meter = m; counted_tenant = c.tenant_id; counted_period = c.period; event = event }
      ∷ run.counted;
  failed_count = run.failed_count + 1;
}
after_report m c event saved run = record run {
  calls = run.calls ++ (event ∷ []);
  counted =
      record { meter = m; counted_tenant = c.tenant_id; counted_period = c.period; event = event }
      ∷ run.counted;
  counters = update_counters c.tenant_id c.period (set_watermark m (metered m c)) run.counters;
  reported_count = run.reported_count + 1;
}

module _ (outcome : List MeterEvent → MeterEvent → MeterOutcome) where
  unfoldable pub report_meter : Meter → Counter → Text → MeterRun → MeterRun
  report_meter m c customer run =
      if ltb (watermark m c) (metered m c)
      then after_report m c (event_of m c customer) (outcome run.calls (event_of m c customer)) run
      else run

  unfoldable pub report_rows : List (Counter × Text) → MeterRun → MeterRun
  report_rows [] run = run
  report_rows ((c, customer) ∷ rows) run =
      report_rows rows
        (report_meter eidas_timestamps c customer (report_meter captures c customer run))

  -- The first pass, on the counters that the query saw.
  unfoldable pub report_pending_meter_events :
      (current previous : Text) → List MeterEvent → List Payer → List Counter → MeterRun
  report_pending_meter_events current previous calls payers counters =
      report_rows (pending_rows current previous payers counters) (record {
        calls = calls;
        counted = [];
        counters = counters;
        reported_count = 0;
        failed_count = 0;
      })
