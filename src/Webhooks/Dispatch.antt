-- ===== src/Webhooks/Dispatch.antt =====
-- src/webhook-dispatch.js: the fan-out of an event.
use web_resource_ledger.Prelude.{
  ◌≡◌, refl, ap, List, [], ◌∷◌, some, Bool, map, filter, Bool-cases, inl, inr,
}
use web_resource_ledger.Prelude.Texts.{Text}
use web_resource_ledger.Webhooks.{Webhook, WebhookMessage, enqueue_all, dispatch_webhooks}

enqueue_all_lem :
    (sends : WebhookMessage → Bool) (message : Text → WebhookMessage) (webhooks : List Webhook)
    → enqueue_all sends message webhooks ≡ filter sends (map (λ w. message w.webhook_id) webhooks)
unfolding enqueue_all
enqueue_all_lem sends message [] = refl
enqueue_all_lem sends message (w ∷ webhooks) = elim (Bool-cases (sends (message w.webhook_id))) [
  | inl sent ↦ rw sent (ap (λ t. message w.webhook_id ∷ t) (enqueue_all_lem sends message webhooks))
  | inr failed ↦ rw failed (enqueue_all_lem sends message webhooks)
]

abbrev pub message_to : Text → Text → Text → Text → Text → Webhook → WebhookMessage
message_to tenant_id event_type capture_id payload event_id webhook = record {
  webhook_id = webhook.webhook_id;
  tenant_id = tenant_id;
  capture_id = capture_id;
  event_type = event_type;
  event_id = event_id;
  payload = payload;
}

-- Every active webhook gets its message, with the one payload and event id, unless the queue refuses
-- that very message: a refusal does not keep the other messages back.
pub dispatch_webhooks_lem :
    (webhooks : List Webhook) (sends : WebhookMessage → Bool)
    (tenant_id event_type capture_id payload event_id : Text)
    → dispatch_webhooks (some webhooks) sends tenant_id event_type capture_id payload event_id
      ≡ filter sends (map (message_to tenant_id event_type capture_id payload event_id) webhooks)
unfolding dispatch_webhooks
dispatch_webhooks_lem webhooks sends tenant_id event_type capture_id payload event_id =
    enqueue_all_lem sends _ webhooks
