-- ===== src/CaptureQueue/Tests.antt =====
-- A capture job that succeeds at once, and one whose last attempt throws.
use web_resource_ledger.Prelude.{ℕ, ◌≡◌, refl, [], ◌∷◌, ◌++◌, none, some, false, arith}
use web_resource_ledger.Prelude.Texts.{Text, codes, text_eq, starts_with}
use web_resource_ledger.UrlValidation.{Outcome, accepted}
use web_resource_ledger.Captures.{
  Status, pending, complete, failed, Capture, Store, find_capture, rtrim_dots,
}
use web_resource_ledger.CaptureQueue.{
  CaptureMessage, acked, Performed, threw, captured, is_tenant_id, is_capture_id, valid_message,
  settle, handle_capture_message,
}
use web_resource_ledger.CaptureQueue.Deliveries.{usages, redelivery_counts_once, last_attempt_fails}

abbrev job_id : Text
job_id = codes "cap_0123456789abcdef0123456789abcdef"

abbrev site : Text
site = codes "https://news.example"

abbrev job : CaptureMessage
job = record { url = some site; capture_id = some job_id; tenant_id = some (codes "t") }

abbrev store_with : Status → Store
store_with status = record {
  captures =
      record {
        capture_id = job_id;
        url = site;
        status = status;
        error = none;
        retryable = false;
        schedule_id = none;
        quarantined = false;
        quarantine_reason = none;
      }
      ∷ [];
  schedules = [];
  threat_checks = [];
}

abbrev accepts : Text → Outcome
accepts url = accepted url (codes "93.184.216.34")

abbrev succeeds : Text → Text → ℕ → Store → Performed × Store
succeeds url id attempts store = (captured, store_with complete)

abbrev throws : Text → Text → ℕ → Store → Performed × Store
throws url id attempts store = (threw (codes "Timed out"), store)

job_is_valid : valid_message job ≡ some (site, job_id, codes "t")
unfolding valid_message is_tenant_id is_capture_id starts_with
job_is_valid = refl

redelivery_counts_once_example :
    ((handle_capture_message accepts succeeds job 1 (store_with pending)).action ≡ acked)
    × (usages (handle_capture_message accepts succeeds job 1 (store_with pending)).follow_ups ≡ 1)
    × (handle_capture_message accepts succeeds job 2
          (handle_capture_message accepts succeeds job 1 (store_with pending)).store
        ≡ settle acked [] (store_with complete))
unfolding find_capture text_eq
redelivery_counts_once_example =
    redelivery_counts_once accepts succeeds job 1 2 (store_with pending) (store_with complete) site
      job_id (codes "t") site (codes "93.184.216.34") job_is_valid refl refl refl refl

last_attempt_fails_example :
    ((handle_capture_message accepts throws job 4 (store_with pending)).action ≡ acked)
    × ((c' : Capture) × (find_capture job_id
            (handle_capture_message accepts throws job 4 (store_with pending)).store.captures
          ≡ some c')
        × (c'.status ≡ failed)
        × (c'.error
            ≡ some (
                rtrim_dots (codes "Timed out")
                ++ codes ". WRL tried "
                ++ codes "4"
                ++ codes " times.")))
unfolding find_capture text_eq
last_attempt_fails_example =
    last_attempt_fails accepts throws job 4 (store_with pending) (store_with pending) site job_id
      (codes "t") site (codes "93.184.216.34") (codes "Timed out")
      (record {
        capture_id = job_id;
        url = site;
        status = pending;
        error = none;
        retryable = false;
        schedule_id = none;
        quarantined = false;
        quarantine_reason = none;
      })
      job_is_valid refl refl refl (omega arith) refl refl refl
