-- ===== src/Webhooks/Tests.antt =====
-- A webhook at a public HTTPS address, and one at a private address.
use web_resource_ledger.Prelude.{
  ℕ, ◌≡◌, ◌≤◌, ◌↔◌, refl, List, [], ◌∷◌, ◌++◌, Option, none, some, map, filter, Bool, not, arith,
  if◌then◌else◌,
}
use web_resource_ledger.Prelude.Texts.{Text, codes, text_eq, includes_char, split}
use web_resource_ledger.UrlValidation.{
  Url, validate_url, validate_host, finalize_result, has_double_encoding, starts_double_encoded,
  parse_ipv4, without_brackets,
}
use web_resource_ledger.Address.{
  is_dotted_decimal, ipv4_to_int, four_to_int, number, is_private_ipv4, ipv4_blocked_ranges,
}
use web_resource_ledger.Webhooks.{
  Webhook, WebhookMessage, Request, Action, acked, retried, finished, webhook_retry_delay,
  retry_or_ack, is_success, is_non_retryable_4xx, after_delivery, validate_webhook_url,
  signed_request, deliver, handle_webhook_message, dispatch_webhooks,
}
use web_resource_ledger.Webhooks.Delivery.{
  IsRetryable, delay_of, after_delivery_iff, IsHandled, handle_webhook_message-IsHandled,
  handle_webhook_message-late,
}
use web_resource_ledger.Webhooks.Dispatch.{message_to, dispatch_webhooks_lem}

abbrev site : Text → Text → Url
site href host = record {
  href = href;
  protocol = codes "https:";
  username = [];
  password = [];
  hostname = host;
  pathname = codes "/hook";
  search = [];
  hash = [];
}

abbrev parse_known : Text → Option Url
parse_known raw =
    if text_eq raw (codes "https://93.184.216.34/hook")
    then some (site raw (codes "93.184.216.34"))
    else if text_eq raw (codes "http://93.184.216.34")
    then some (site raw (codes "93.184.216.34"))
    else none

abbrev no_answers : Text → Option (List Text)
no_answers host = none

abbrev hook : Webhook
hook = record {
  webhook_id = codes "wh_1";
  url = codes "https://93.184.216.34/hook";
  secret = codes "s";
}

abbrev known_webhook : Text → Text → Option (Option Webhook)
known_webhook id tenant = some (some hook)

abbrev sign : Text → ℕ → Text → Text
sign secret timestamp payload = secret ++ payload

abbrev busy : Request → Option ℕ
busy request = some 503

abbrev message : WebhookMessage
message =
    message_to (codes "t") (codes "capture.complete") (codes "cap_1") (codes "{}") (codes "evt_1")
      hook

abbrev request : Request
request = record {
  target = codes "https://93.184.216.34/hook";
  event_header = codes "capture.complete";
  delivery_header = codes "evt_1";
  timestamp = 7;
  signature = codes "s{}";
  body = codes "{}";
}

first_attempt :
    handle_webhook_message parse_known no_answers no_answers known_webhook sign busy 7 message 1
    ≡ finished (request ∷ []) (retried (some 60))
unfolding handle_webhook_message deliver signed_request validate_webhook_url after_delivery
    retry_or_ack webhook_retry_delay is_success is_non_retryable_4xx validate_url validate_host
    finalize_result has_double_encoding starts_double_encoded parse_ipv4 without_brackets
    is_dotted_decimal ipv4_to_int four_to_int number is_private_ipv4 ipv4_blocked_ranges text_eq
    includes_char split
first_attempt = refl

fourth_attempt :
    handle_webhook_message parse_known no_answers no_answers known_webhook sign busy 7 message 4
    ≡ finished (request ∷ []) acked
unfolding handle_webhook_message deliver signed_request validate_webhook_url after_delivery
    retry_or_ack webhook_retry_delay is_success is_non_retryable_4xx validate_url validate_host
    finalize_result has_double_encoding starts_double_encoded parse_ipv4 without_brackets
    is_dotted_decimal ipv4_to_int four_to_int number is_private_ipv4 ipv4_blocked_ranges text_eq
    includes_char split
fourth_attempt = refl

handle_webhook_message_example :
    IsHandled parse_known no_answers no_answers known_webhook sign busy 7 message 1
      (request ∷ [])
      (retried (some 60))
handle_webhook_message_example =
    handle_webhook_message-IsHandled parse_known no_answers no_answers known_webhook sign busy 7
      message 1 (request ∷ []) (retried (some 60)) first_attempt

handle_webhook_message-late_example : ◌≡◌ {A = Action} acked acked
handle_webhook_message-late_example =
    handle_webhook_message-late parse_known no_answers no_answers known_webhook sign busy 7 message
      4 (request ∷ []) acked (omega arith) fourth_attempt

after_delivery_iff_example :
    (after_delivery 2 (some 429) ≡ retried (some (delay_of 2))) ↔ (IsRetryable (some 429) × (2 ≤ 3))
after_delivery_iff_example = after_delivery_iff 2 (some 429) (omega arith)

abbrev not_first : WebhookMessage → Bool
not_first m = not (text_eq m.webhook_id (codes "wh_1"))

abbrev other_hook : Webhook
other_hook = record hook { webhook_id = codes "wh_2" }

dispatch_webhooks_example :
    dispatch_webhooks
      (some (hook ∷ other_hook ∷ []))
      not_first
      (codes "t")
      (codes "capture.complete")
      (codes "cap_1")
      (codes "{}")
      (codes "evt_1")
    ≡ filter not_first (
        map
          (message_to
            (codes "t")
            (codes "capture.complete")
            (codes "cap_1")
            (codes "{}")
            (codes "evt_1"))
          (hook ∷ other_hook ∷ []))
dispatch_webhooks_example =
    dispatch_webhooks_lem (hook ∷ other_hook ∷ []) not_first (codes "t") (codes "capture.complete")
      (codes "cap_1") (codes "{}") (codes "evt_1")
