-- ===== src/CaptureQueue/Deliveries.antt =====
-- src/index.js: repeated deliveries of a capture job, and its last attempt.
use web_resource_ledger.Prelude.{
  ℕ, zero, suc, ◌≤◌, ◌≡◌, refl, ap, ◌∙◌, List, [], ◌∷◌, ◌++◌, some, true, false, leb, ◌==◌,
  if◌then◌else◌, length, arith,
}
use web_resource_ledger.Prelude.Bits.{pow-pos}
use web_resource_ledger.Prelude.Texts.{Text, codes}
use web_resource_ledger.UrlValidation.{Outcome, accepted, rejected}
use web_resource_ledger.Captures.{failed, Capture, Store, find_capture, is_pending, rtrim_dots}
use web_resource_ledger.Captures.Retries.{last_reason_kept}
use web_resource_ledger.CaptureQueue.{
  CaptureMessage, acked, FollowUp, count_usage, dispatch_complete, compare_with_previous,
  check_free_limit, Performed, threw, captured, valid_message, capture_retry_delay, is_terminal,
  settle, after_capture, handle_valid, handle_capture_message,
}

-- The waits between attempts are between 10 and 300 seconds.
pub capture_retry_delay_bounds :
    (attempts : ℕ)
    → 1 ≤ attempts
    → (10 ≤ capture_retry_delay attempts) × (capture_retry_delay attempts ≤ 300)
unfolding capture_retry_delay
capture_retry_delay_bounds zero h = absurd (omega arith)
capture_retry_delay_bounds (suc n) h = (omega (arith, pow-pos n), omega arith)

-- The count of usages among follow-ups.
abbrev pub usages : List FollowUp → ℕ
usages [] = 0
usages (f ∷ follow_ups) = elim f [ count_usage t ↦ suc (usages follow_ups) | _ ↦ usages follow_ups ]

module _ (validate_url : Text → Outcome)
    (perform_capture : Text → Text → ℕ → Store → Performed × Store) where
  handle_valid-terminal :
      (url capture_id tenant_id : Text) (attempts : ℕ) (store : Store)
      → is_terminal (find_capture capture_id store.captures) ≡ true
      → handle_valid validate_url perform_capture url capture_id tenant_id attempts store
        ≡ settle acked [] store
  unfolding handle_valid
  handle_valid-terminal url capture_id tenant_id attempts store h = by_outcome (validate_url url)
    where
      by_outcome :
          (o : Outcome)
          → (elim o [
            | rejected status detail ↦ settle acked [] store
            | accepted href ip ↦
                if is_terminal (find_capture capture_id store.captures)
                then settle acked [] store
                else after_capture capture_id tenant_id attempts
                    (perform_capture url capture_id attempts store)
          ])
            ≡ settle acked [] store
      by_outcome (rejected status detail) = refl
      by_outcome (accepted href ip) = rw h

  -- A valid message for a capture that is complete or failed is acknowledged; nothing is captured, counted
  -- or sent, and the store stays as it is.
  pub handle_capture_message-terminal :
      (msg : CaptureMessage) (attempts : ℕ) (store : Store) (url capture_id tenant_id : Text)
      → valid_message msg ≡ some (url, capture_id, tenant_id)
      → is_terminal (find_capture capture_id store.captures) ≡ true
      → handle_capture_message validate_url perform_capture msg attempts store
        ≡ settle acked [] store
  unfolding handle_capture_message
  handle_capture_message-terminal msg attempts store url capture_id tenant_id valid terminal =
      rw (valid, handle_capture_message)
        (handle_valid-terminal url capture_id tenant_id attempts store terminal)

  handle_capture_message-captured :
      (msg : CaptureMessage) (attempts : ℕ) (store after : Store)
      (url capture_id tenant_id href ip : Text)
      → valid_message msg ≡ some (url, capture_id, tenant_id)
      → validate_url url ≡ accepted href ip
      → is_terminal (find_capture capture_id store.captures) ≡ false
      → perform_capture url capture_id attempts store ≡ (captured, after)
      → handle_capture_message validate_url perform_capture msg attempts store
        ≡ settle acked
            (count_usage tenant_id
              ∷ dispatch_complete tenant_id
              ∷ compare_with_previous
              ∷ check_free_limit
              ∷ [])
            after
  unfolding handle_capture_message handle_valid after_capture
  handle_capture_message-captured msg attempts store after url capture_id tenant_id href ip valid
        public unsettled done =
      rw (valid, public, unsettled, done, handle_capture_message, handle_valid, after_capture)

  -- When a valid message with an accepted URL comes for a capture that is not in a terminal state, and
  -- its capture succeeds and leaves the record in a terminal state, the message is acknowledged
  -- and one capture is counted, and every later delivery of the message counts nothing and changes
  -- nothing.
  pub redelivery_counts_once :
      (msg : CaptureMessage) (attempts later : ℕ) (store after : Store)
      (url capture_id tenant_id href ip : Text)
      → valid_message msg ≡ some (url, capture_id, tenant_id)
      → validate_url url ≡ accepted href ip
      → is_terminal (find_capture capture_id store.captures) ≡ false
      → perform_capture url capture_id attempts store ≡ (captured, after)
      → is_terminal (find_capture capture_id after.captures) ≡ true
      → ((handle_capture_message validate_url perform_capture msg attempts store).action ≡ acked)
        × (usages
              (handle_capture_message validate_url perform_capture msg attempts store).follow_ups
            ≡ 1)
        × (handle_capture_message validate_url perform_capture msg later
              (handle_capture_message validate_url perform_capture msg attempts store).store
            ≡ settle acked [] after)
  redelivery_counts_once msg attempts later store after url capture_id tenant_id href ip valid
        public unsettled done terminal =
      let first =
        handle_capture_message-captured msg attempts store after url capture_id tenant_id href ip
          valid public unsettled done in
      (
        ap (λ r. r.action) first,
        ap (λ r. usages r.follow_ups) first,
        ap (λ r. handle_capture_message validate_url perform_capture msg later r.store) first
            ∙ handle_capture_message-terminal msg later after url capture_id tenant_id valid
                terminal,
      )

  -- When a valid message with an accepted URL comes for a capture that is not in a terminal state, and
  -- `performCapture` throws on the fourth attempt or later, with a reason, and leaves the capture pending, the
  -- message is acknowledged and the capture ends as failed, with the reason and the number 4 of attempts
  -- (CAPTURE_MAX_ATTEMPTS, whichever attempt it is; the queue's max_retries = 3 makes later ones not happen) as its error.
  pub last_attempt_fails :
      (msg : CaptureMessage) (attempts : ℕ) (store after : Store)
      (url capture_id tenant_id href ip message : Text) (c : Capture)
      → valid_message msg ≡ some (url, capture_id, tenant_id)
      → validate_url url ≡ accepted href ip
      → is_terminal (find_capture capture_id store.captures) ≡ false
      → perform_capture url capture_id attempts store ≡ (threw message, after)
      → 4 ≤ attempts
      → find_capture capture_id after.captures ≡ some c
      → is_pending c.status ≡ true
      → (length message == 0) ≡ false
      → ((handle_capture_message validate_url perform_capture msg attempts store).action ≡ acked)
        × ((c' : Capture) × (find_capture capture_id
                (handle_capture_message validate_url perform_capture msg attempts
                  store).store.captures
              ≡ some c')
            × (c'.status ≡ failed)
            × (c'.error
                ≡ some
                    (rtrim_dots message ++ codes ". WRL tried " ++ codes "4" ++ codes " times.")))
  unfolding handle_capture_message handle_valid after_capture
  last_attempt_fails msg attempts store after url capture_id tenant_id href ip message c valid
        public unsettled thrown late found waiting reason =
      let (c', end, is_failed, final, error, shown) =
        last_reason_kept capture_id message (codes "4") after c found waiting reason in
      let last : leb 4 attempts ≡ true = ground arith in
      rw
        (
          valid, public, unsettled, thrown, last, handle_capture_message, handle_valid,
          after_capture,
        )
        (refl, (c', end, is_failed, error))
