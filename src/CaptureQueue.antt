-- ===== src/CaptureQueue.antt =====
-- src/index.js: `handleCaptureMessage`, on the captures of src/db.js.
-- `performCapture` is a parameter that may change the store; the database does not fail. Log lines and
-- analytics are left out, and what is handed to `ctx.waitUntil` is a list of follow-ups.
pub mod Deliveries
mod Tests
use web_resource_ledger.Prelude.{
  ℕ, zero, suc, ◌*◌, ◌^◌, min, List, [], ◌∷◌, ◌++◌, Option, none, some, Bool, true, false, not,
  ◌&&◌, ◌||◌, ltb, leb, ◌==◌, if◌then◌else◌, length, take, drop, all,
}
use web_resource_ledger.Prelude.Texts.{Text, codes, text_eq, starts_with, is_digit}
use web_resource_ledger.UrlValidation.{Outcome, accepted, rejected}
use web_resource_ledger.Captures.{
  Status, pending, complete, failed, Capture, Store, find_capture, record_attempt_error,
  fail_capture_after_retries,
}

-- The fields of the message that its handler tests and uses; `none` for what is no string.
pub record CaptureMessage : Type 0 where
  pub url : Option Text
  pub capture_id : Option Text
  pub tenant_id : Option Text

pub data Action : Type 0 where
  acked : Action
  retried : ℕ → Action

pub data FollowUp : Type 0 where
  -- `incrementUsage` by one capture
  count_usage : Text → FollowUp
  -- `dispatchWebhooks` of an event of a tenant
  dispatch_complete dispatch_failed : Text → FollowUp
  -- the change summary, the notice that the free captures are nearly used
  compare_with_previous check_free_limit : FollowUp

-- What became of `performCapture`: it threw an error of this category, or what it returned.
pub data Performed : Type 0 where
  threw : Text → Performed
  captured failed_for_good failed_retryable : Performed

pub record Delivered : Type 0 where
  pub action : Action
  pub follow_ups : List FollowUp
  pub store : Store

abbrev pub capture_max_attempts : ℕ
capture_max_attempts = 4

abbrev pub is_lower : ℕ → Bool
is_lower c = leb b'a' c && leb c b'z'

-- `/^[a-z0-9_-]{1,64}$/`
unfoldable pub is_tenant_id : Text → Bool
is_tenant_id s =
    ltb 0 (length s)
    && (leb (length s) 64 && all (λ c. is_lower c || is_digit c || c == b'_' || c == b'-') s)

-- `/^cap_[a-f0-9]{32}$/`
unfoldable pub is_capture_id : Text → Bool
is_capture_id s =
    starts_with s (codes "cap_")
    && (length (drop 4 s) == 32 && all (λ c. is_digit c || leb b'a' c && leb c b'f') (drop 4 s))

-- The structure check: the url, the capture and the tenant of a valid message.
unfoldable pub valid_message : CaptureMessage → Option (Text × Text × Text)
valid_message msg = elim msg.tenant_id [
  | none ↦ none
  | some tenant_id ↦ elim msg.capture_id [
    | none ↦ none
    | some capture_id ↦ elim msg.url [
      | none ↦ none
      | some url ↦
          if is_tenant_id tenant_id && is_capture_id capture_id && ltb 0 (length url)
          then some (url, capture_id, tenant_id)
          else none
    ]
  ]
]

-- `Math.min(10 * Math.pow(2, msg.attempts - 1), 300)`
unfoldable pub capture_retry_delay : ℕ → ℕ
capture_retry_delay zero = 5
capture_retry_delay (suc n) = min (10 * 2 ^ n) 300

abbrev pub is_terminal : Option Capture → Bool
is_terminal none = false
is_terminal (some c) = elim c.status [ pending ↦ false | complete ↦ true | failed ↦ true ]

abbrev pub settle : Action → List FollowUp → Store → Delivered
settle action follow_ups store = record { action = action; follow_ups = follow_ups; store = store }

-- The `catch` around `performCapture`, and the branches on its result.
unfoldable pub after_capture : Text → Text → ℕ → Performed × Store → Delivered
after_capture capture_id tenant_id attempts (threw message, store) =
    if leb capture_max_attempts attempts
    then settle acked [] (
        fail_capture_after_retries capture_id (codes "4")
          (record_attempt_error capture_id message store))
    else settle (retried (capture_retry_delay attempts)) []
        (record_attempt_error capture_id message store)
after_capture capture_id tenant_id attempts (captured, store) =
    settle acked
      (count_usage tenant_id
        ∷ dispatch_complete tenant_id
        ∷ compare_with_previous
        ∷ check_free_limit
        ∷ [])
      store
after_capture capture_id tenant_id attempts (failed_for_good, store) =
    settle acked (dispatch_failed tenant_id ∷ []) store
after_capture capture_id tenant_id attempts (failed_retryable, store) =
    settle (retried (capture_retry_delay attempts)) [] store

module _ (validate_url : Text → Outcome)
    (perform_capture : Text → Text → ℕ → Store → Performed × Store) where
  -- The checks before the capture: the URL, and that the capture is not in a terminal state.
  unfoldable pub handle_valid : Text → Text → Text → ℕ → Store → Delivered
  handle_valid url capture_id tenant_id attempts store = elim (validate_url url) [
    | rejected status detail ↦ settle acked [] store
    | accepted href ip ↦
        if is_terminal (find_capture capture_id store.captures)
        then settle acked [] store
        else after_capture capture_id tenant_id attempts
            (perform_capture url capture_id attempts store)
  ]

  unfoldable pub handle_capture_message : CaptureMessage → ℕ → Store → Delivered
  handle_capture_message msg attempts store = elim (valid_message msg) [
    | none ↦ settle acked [] store
    | some parts ↦ handle_valid parts.0 parts.1 parts.2 attempts store
  ]
