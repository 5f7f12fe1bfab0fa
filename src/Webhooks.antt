-- ===== src/Webhooks.antt =====
-- src/webhook-dispatch.js: dispatch and delivery of webhooks, and `validateWebhookUrl` of
-- src/webhooks.js. Log lines are left out. The database, the queue, `fetch` and the signature are
-- parameters.
pub mod Delivery
pub mod Dispatch
mod Tests
use web_resource_ledger.Prelude.{
  ℕ, zero, suc, ◌-◌, List, [], ◌∷◌, Option, none, some, Bool, true, false, not, ◌&&◌, ◌||◌, ltb,
  leb, ◌==◌, if◌then◌else◌, length, get_elem?,
}
use web_resource_ledger.Prelude.Texts.{Text, codes, text_eq}
use web_resource_ledger.UrlValidation.{
  Url, Outcome, accepted, rejected, must_use_https, validate_url,
}

pub record Webhook : Type 0 where
  pub webhook_id : Text
  pub url : Text
  pub secret : Text

pub record WebhookMessage : Type 0 where
  pub webhook_id : Text
  pub tenant_id : Text
  pub capture_id : Text
  pub event_type : Text
  pub event_id : Text
  pub payload : Text

-- What is posted: the target, the headers that depend on the message, the body.
pub record Request : Type 0 where
  pub target : Text
  pub event_header : Text
  pub delivery_header : Text
  pub timestamp : ℕ
  pub signature : Text
  pub body : Text

-- `msg.ack()`, or `msg.retry({ delaySeconds })`, with `none` for an undefined delay.
pub data Action : Type 0 where
  acked : Action
  retried : Option ℕ → Action

-- A handler that throws leaves the message to the queue.
pub data Handled : Type 0 where
  finished : List Request → Action → Handled
  threw : Handled

-- `none` is null, `some none` is undefined: `schedule[-1]`.
unfoldable pub webhook_retry_delay : ℕ → Option (Option ℕ)
webhook_retry_delay zero = some none
webhook_retry_delay (suc attempt) =
    if ltb attempt 3 then some (get_elem? (60 ∷ 300 ∷ 900 ∷ []) attempt) else none

unfoldable pub retry_or_ack : ℕ → Action
retry_or_ack attempts = elim (webhook_retry_delay attempts) [
  | none ↦ acked
  | some delay ↦ retried delay
]

-- An `httpStatus` that is null is `none`.
unfoldable pub is_success : Option ℕ → Bool
is_success none = false
is_success (some status) = leb 200 status && ltb status 300

unfoldable pub is_non_retryable_4xx : Option ℕ → Bool
is_non_retryable_4xx none = false
is_non_retryable_4xx (some status) =
    leb 400 status && (ltb status 500 && (not (status == 408) && not (status == 429)))

-- Steps 5 to 7, on the answer.
unfoldable pub after_delivery : ℕ → Option ℕ → Action
after_delivery attempts http_status =
    if is_success http_status
    then acked
    else if is_non_retryable_4xx http_status
    then acked
    else retry_or_ack attempts

module _ (parse_url : Text → Option Url) (resolve4 resolve6 : Text → Option (List Text)) where
  -- `none` when `new URL(result.url)` throws.
  unfoldable pub validate_webhook_url : Text → Option Outcome
  validate_webhook_url raw_url = elim (validate_url parse_url resolve4 resolve6 raw_url) [
    | rejected status detail ↦ some (rejected status detail)
    | accepted url ip ↦ elim (parse_url url) [
      | none ↦ none
      | some parsed ↦
          if not (text_eq parsed.protocol (codes "https:"))
          then some (rejected 400 must_use_https)
          else some (accepted url ip)
    ]
  ]

  module _ (get_webhook : Text → Text → Option (Option Webhook))
      (sign_webhook_payload : Text → ℕ → Text → Text) (fetch : Request → Option ℕ) (now : ℕ) where
    unfoldable pub signed_request : WebhookMessage → Webhook → Request
    signed_request msg webhook = record {
      target = webhook.url;
      event_header = msg.event_type;
      delivery_header = msg.event_id;
      timestamp = now;
      signature = sign_webhook_payload webhook.secret now msg.payload;
      body = msg.payload;
    }

    -- Steps 2 to 7, for a webhook that still exists.
    unfoldable pub deliver : WebhookMessage → ℕ → Webhook → Handled
    deliver msg attempts webhook = elim (parse_url webhook.url) [
      | none ↦ threw
      | some target ↦ elim (validate_webhook_url webhook.url) [
        | none ↦ threw
        | some outcome ↦ elim outcome [
          | rejected status detail ↦ finished [] acked
          | accepted url ip ↦
              let request = signed_request msg webhook in
              finished (request ∷ []) (after_delivery attempts (fetch request))
        ]
      ]
    ]

    unfoldable pub handle_webhook_message : WebhookMessage → ℕ → Handled
    handle_webhook_message msg attempts = elim (get_webhook msg.webhook_id msg.tenant_id) [
      | none ↦ finished [] (retry_or_ack attempts)
      | some found ↦ elim found [
        | none ↦ finished [] acked
        | some webhook ↦ deliver msg attempts webhook
      ]
    ]

-- The loop of `dispatchWebhooks`; a message that the queue does not take is left out.
unfoldable pub enqueue_all :
    (sends : WebhookMessage → Bool) → (Text → WebhookMessage) → List Webhook → List WebhookMessage
enqueue_all sends message [] = []
enqueue_all sends message (webhook ∷ webhooks) =
    let rest = enqueue_all sends message webhooks in
    if sends (message webhook.webhook_id) then message webhook.webhook_id ∷ rest else rest

-- The messages that the queue took. The payload is built once and its id is shared.
unfoldable pub dispatch_webhooks :
    (active : Option (List Webhook)) (sends : WebhookMessage → Bool)
    (tenant_id event_type capture_id payload event_id : Text)
    → List WebhookMessage
dispatch_webhooks none sends tenant_id event_type capture_id payload event_id = []
dispatch_webhooks (some webhooks) sends tenant_id event_type capture_id payload event_id =
    enqueue_all sends
      (λ webhook_id. record {
        webhook_id = webhook_id;
        tenant_id = tenant_id;
        capture_id = capture_id;
        event_type = event_type;
        event_id = event_id;
        payload = payload;
      })
      webhooks
