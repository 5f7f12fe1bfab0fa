-- ===== src/Captures/Retries.antt =====
-- src/db.js: the last failed attempt, and the status that a schedule shows.
use web_resource_ledger.Prelude.{
  ◌≡◌, refl, ap, sym, ◌∙◌, List, [], ◌∷◌, ◌++◌, some, Bool, true, false, ◌&&◌, ◌==◌, inl, inr,
  length, All, Bool-cases,
}
use web_resource_ledger.Prelude.Texts.{Text, codes, text_eq}
use web_resource_ledger.Captures.{
  failed, Capture, ScheduleRow, Store, find_capture, update_where, every_row, is_pending, is_text,
  is_id_of, sync_rows, sync_schedule_status, change_capture, completed, complete_capture,
  record_attempt_error, rtrim_dots, retries_message, failed_after, fail_capture_after_retries,
}

-- An update finds its capture, and changes it when the test holds of it.
pub find-update_where :
    (id : Text) (test : Capture → Bool) (change : Capture → Capture)
    → ((c : Capture) → (change c).capture_id ≡ c.capture_id)
    → (captures : List Capture) (c : Capture) → find_capture id captures ≡ some c
    → test c ≡ true
    → find_capture id (update_where id test change captures) ≡ some (change c)
unfolding find_capture update_where
find-update_where id test change keeps [] c found holds = cc
find-update_where id test change keeps (r ∷ captures) c found holds =
    elim (Bool-cases (text_eq r.capture_id id)) [
      | inl same ↦
          let this : r ≡ c = let k : some r ≡ some c = rw (same, find_capture) at found in cc in
          let met : test r ≡ true = ap test this ∙ holds in
          let still : text_eq (change r).capture_id id ≡ true =
            ap (λ t. text_eq t id) (keeps r) ∙ same in
          rw (same, met) (rw still (ap (λ k. some (change k)) this))
      | inr other ↦ rw other (
          rw other (
            find-update_where id test change keeps captures c (rw (other, find_capture) at found)
              holds))
    ]

-- The row shows the capture's status, if it is the row of the capture's schedule and the capture its last.
abbrev pub Shows : Text → Capture → ScheduleRow → Type 0
Shows id c row =
    (is_id_of c.schedule_id row.row_id && is_text row.last_capture_id id) ≡ true
    → row.last_capture_status ≡ some c.status

sync_rows-Shows :
    (id : Text) (c : Capture) (rows : List ScheduleRow) → All (Shows id c) (sync_rows id c rows)
unfolding sync_rows
sync_rows-Shows id c [] = tt
sync_rows-Shows id c (row ∷ rows) =
    elim (Bool-cases (is_id_of c.schedule_id row.row_id && is_text row.last_capture_id id)) [
      | inl last ↦ (rw last (λ h. refl), sync_rows-Shows id c rows)
      | inr other ↦
          (rw other (λ h. let impossible = sym other ∙ h in cc), sync_rows-Shows id c rows)
    ]

-- A change of a capture: the capture found afterwards is the changed one, and no row of the schedule that
-- the capture was made for (its schedule_id) whose last capture it is shows another status.
pub change_capture_lem :
    (id : Text) (change : Capture → Capture)
    → ((c : Capture) → (change c).capture_id ≡ c.capture_id)
    → (s : Store) (c : Capture) → find_capture id s.captures ≡ some c
    → (find_capture id (change_capture id change s).captures ≡ some (change c))
      × All (Shows id (change c)) (change_capture id change s).schedules
unfolding change_capture sync_schedule_status
change_capture_lem id change keeps s c found =
    let now = find-update_where id every_row change keeps s.captures c found refl in
    rw (now, change_capture, sync_schedule_status) (now, sync_rows-Shows id (change c) s.schedules)

-- `record c { error = some message }` of the capture that is found.
abbrev pub tried : Text → Capture → Capture
tried message c = record c { error = some message }

message_of :
    (message attempts : Text)
    → (length message == 0) ≡ false
    → retries_message (some message) attempts
      ≡ rtrim_dots message ++ codes ". WRL tried " ++ attempts ++ codes " times."
message_of message attempts h = rw h

-- When the last attempt of a pending capture fails with a reason, the capture ends as failed and not
-- retryable, its error names that reason and the number of attempts, and no row of the schedule that the
-- capture was made for (its schedule_id) whose last capture it is shows another status than failed.
pub last_reason_kept :
    (id message attempts : Text) (s : Store) (c : Capture)
    → find_capture id s.captures ≡ some c
    → is_pending c.status ≡ true
    → (length message == 0) ≡ false
    → (c' : Capture) × (find_capture id
          (fail_capture_after_retries id attempts (record_attempt_error id message s)).captures
        ≡ some c')
      × (c'.status ≡ failed)
      × (c'.retryable ≡ false)
      × (c'.error
          ≡ some (rtrim_dots message ++ codes ". WRL tried " ++ attempts ++ codes " times."))
      × All
          (Shows id c')
          (fail_capture_after_retries id attempts (record_attempt_error id message s)).schedules
unfolding fail_capture_after_retries record_attempt_error
last_reason_kept id message attempts s c found is_open some_text =
    let noted =
      find-update_where id (λ k. is_pending k.status) (tried message) (λ k. refl) s.captures c found
        is_open in
    let (end, shown) =
      change_capture_lem id (failed_after attempts) (λ k. refl) (record_attempt_error id message s)
        (tried message c) noted in
    (
      failed_after attempts (tried message c),
      end,
      refl,
      refl,
      ap some (message_of message attempts some_text),
      shown,
    )

-- A capture of the store that is completed is found complete and without an error, and no row of
-- the schedule that it was made for (its schedule_id) whose last capture it is shows another status than complete.
pub complete_capture_lem :
    (id : Text) (s : Store) (c : Capture)
    → find_capture id s.captures ≡ some c
    → (find_capture id (complete_capture id s).captures ≡ some (completed c))
      × All (Shows id (completed c)) (complete_capture id s).schedules
unfolding complete_capture
complete_capture_lem id s c found = change_capture_lem id completed (λ k. refl) s c found
