-- ===== src/Captures/Tests.antt =====
-- A pending capture of a schedule, and a completed one.
use web_resource_ledger.Prelude.{◌+◌, ◌≡◌, refl, [], ◌∷◌, ◌++◌, none, some, false, length, All}
use web_resource_ledger.Prelude.Texts.{Text, codes, text_eq}
use web_resource_ledger.Captures.{
  Status, pending, complete, failed, Capture, ScheduleRow, Store, find_capture, update_where,
  quarantine_capture, record_attempt_error, fail_capture_after_retries, rtrim_dots, change_capture,
  sync_schedule_status, sync_rows,
}
use web_resource_ledger.Captures.Quarantine.{quarantine_capture-twice}
use web_resource_ledger.Captures.Retries.{Shows, last_reason_kept}

abbrev capture : Text → Status → Capture
capture id status = record {
  capture_id = id;
  url = codes "https://news.example";
  status = status;
  error = none;
  retryable = false;
  schedule_id = some (codes "s1");
  quarantined = false;
  quarantine_reason = none;
}

abbrev row : ScheduleRow
row = record {
  row_id = codes "s1";
  last_capture_id = some (codes "c1");
  last_capture_status = some pending;
}

abbrev store : Store
store = record {
  captures = capture (codes "c1") pending ∷ capture (codes "c2") complete ∷ [];
  schedules = row ∷ [];
  threat_checks = [];
}

schedule_shows_failure :
    (fail_capture_after_retries (codes "c1") (codes "4") store).schedules
    ≡ record row { last_capture_status = some failed } ∷ []
unfolding fail_capture_after_retries change_capture sync_schedule_status sync_rows find_capture
    update_where text_eq
schedule_shows_failure = refl

abbrev quarantined_twice : Store
quarantined_twice =
    quarantine_capture (codes "c2") (codes "MALWARE") none
      (quarantine_capture (codes "c2") (codes "MALWARE") none store)

quarantine_capture-twice_example :
    (quarantined_twice.captures
      ≡ (quarantine_capture (codes "c2") (codes "MALWARE") none store).captures)
    × (length quarantined_twice.threat_checks ≡ length store.threat_checks + 2)
quarantine_capture-twice_example =
    quarantine_capture-twice (codes "c2") (codes "MALWARE") none store

abbrev last_try : Store
last_try =
    fail_capture_after_retries (codes "c1") (codes "4")
      (record_attempt_error (codes "c1") (codes "Timed out.") store)

last_reason_kept_example :
    (c' : Capture) × (find_capture (codes "c1") last_try.captures ≡ some c')
    × (c'.status ≡ failed)
    × (c'.retryable ≡ false)
    × (c'.error
        ≡ some (
            rtrim_dots (codes "Timed out.")
            ++ codes ". WRL tried "
            ++ codes "4"
            ++ codes " times."))
    × All (Shows (codes "c1") c') last_try.schedules
unfolding find_capture text_eq
last_reason_kept_example =
    last_reason_kept (codes "c1") (codes "Timed out.") (codes "4") store
      (capture (codes "c1") pending) refl refl refl
