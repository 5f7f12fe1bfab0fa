-- ===== src/Captures.antt =====
-- src/db.js: the records of captures and the operations that change them. Columns that an operation
-- only fills with its arguments (artifacts, times) are left out. An UPDATE changes every row that its
-- WHERE clause selects; `id` is the key of a table.
pub mod Quarantine
pub mod Retries
mod Tests
use web_resource_ledger.Prelude.{
  ℕ, List, [], ◌∷◌, ◌++◌, Option, none, some, Bool, true, false, not, ◌&&◌, if◌then◌else◌, length,
  ◌==◌,
}
use web_resource_ledger.Prelude.Texts.{Text, codes, text_eq}

pub data Status : Type 0 where
  pending complete failed : Status

pub record Capture : Type 0 where
  pub capture_id : Text
  pub url : Text
  pub status : Status
  pub error : Option Text
  pub retryable : Bool
  pub schedule_id : Option Text
  pub quarantined : Bool
  pub quarantine_reason : Option Text

pub record ScheduleRow : Type 0 where
  pub row_id : Text
  pub last_capture_id : Option Text
  pub last_capture_status : Option Status

-- A row of `threat_checks`: the capture, and the threat types.
pub record ThreatCheck : Type 0 where
  pub checked_capture : Text
  pub threat_types : Option Text

pub record Store : Type 0 where
  pub captures : List Capture
  pub schedules : List ScheduleRow
  pub threat_checks : List ThreatCheck

unfoldable pub find_capture : Text → List Capture → Option Capture
find_capture id [] = none
find_capture id (c ∷ captures) =
    if text_eq c.capture_id id then some c else find_capture id captures

-- `UPDATE captures SET ... WHERE id = ? AND ...`
unfoldable pub update_where :
    Text → (Capture → Bool) → (Capture → Capture) → List Capture → List Capture
update_where id test change [] = []
update_where id test change (c ∷ captures) =
    let rest = update_where id test change captures in
    (if text_eq c.capture_id id && test c then change c else c) ∷ rest

abbrev pub every_row : Capture → Bool
every_row c = true

abbrev pub is_pending : Status → Bool
is_pending pending = true
is_pending complete = false
is_pending failed = false

abbrev pub is_complete : Status → Bool
is_complete pending = false
is_complete complete = true
is_complete failed = false

abbrev pub is_text : Option Text → Text → Bool
is_text none t = false
is_text (some s) t = text_eq s t

abbrev pub is_id_of : Option Text → Text → Bool
is_id_of none t = false
is_id_of (some s) t = text_eq t s

-- `syncScheduleStatusStatement`: the row of the capture's schedule, while the capture is its last.
abbrev pub sync_row : Text → Capture → ScheduleRow → ScheduleRow
sync_row id c row =
    if is_id_of c.schedule_id row.row_id && is_text row.last_capture_id id
    then record row { last_capture_status = some c.status }
    else row

unfoldable pub sync_rows : Text → Capture → List ScheduleRow → List ScheduleRow
sync_rows id c [] = []
sync_rows id c (row ∷ rows) = sync_row id c row ∷ sync_rows id c rows

unfoldable pub sync_schedule_status : Text → Store → Store
sync_schedule_status id s = elim (find_capture id s.captures) [
  | none ↦ s
  | some c ↦ record s { schedules = sync_rows id c s.schedules }
]

-- A change of a capture's status, with its schedule, in one batch.
unfoldable pub change_capture : Text → (Capture → Capture) → Store → Store
change_capture id change s =
    sync_schedule_status id (record s { captures = update_where id every_row change s.captures })

abbrev pub completed : Capture → Capture
completed c = record c { status = complete; error = none }

unfoldable pub complete_capture : Text → Store → Store
complete_capture id s = change_capture id completed s

abbrev pub failed_with : Text → Bool → Capture → Capture
failed_with message retryable c = record c {
  status = failed;
  error = some message;
  retryable = retryable;
}

unfoldable pub fail_capture : Text → Text → Bool → Store → Store
fail_capture id message retryable s = change_capture id (failed_with message retryable) s

unfoldable pub record_attempt_error : Text → Text → Store → Store
record_attempt_error id message s = record s {
  captures =
      update_where id (λ c. is_pending c.status) (λ c. record c { error = some message })
        s.captures;
}

-- `rtrim(error, '.')`
unfoldable pub rtrim_dots : Text → Text
rtrim_dots [] = []
rtrim_dots (c ∷ s) =
    let rest = rtrim_dots s in if length rest == 0 && c == b'.' then [] else c ∷ rest

abbrev pub retries_message : Option Text → Text → Text
retries_message none attempts =
    codes "The capture failed " ++ attempts ++ codes " times without a recorded reason."
retries_message (some error) attempts =
    if length error == 0
    then codes "The capture failed " ++ attempts ++ codes " times without a recorded reason."
    else rtrim_dots error ++ codes ". WRL tried " ++ attempts ++ codes " times."

abbrev pub failed_after : Text → Capture → Capture
failed_after attempts c = record c {
  status = failed;
  error = some (retries_message c.error attempts);
  retryable = false;
}

-- `attempts` is printed by the caller.
unfoldable pub fail_capture_after_retries : Text → Text → Store → Store
fail_capture_after_retries id attempts s = change_capture id (failed_after attempts) s

abbrev pub may_quarantine : Capture → Bool
may_quarantine c = is_complete c.status && not c.quarantined

abbrev pub put_in_quarantine : Text → Capture → Capture
put_in_quarantine reason c = record c { quarantined = true; quarantine_reason = some reason }

-- The UPDATE and the INSERT of one batch.
unfoldable pub quarantine_capture : Text → Text → Option Text → Store → Store
quarantine_capture id reason types s = record s {
  captures = update_where id may_quarantine (put_in_quarantine reason) s.captures;
  threat_checks = s.threat_checks ++ (record { checked_capture = id; threat_types = types } ∷ []);
}
