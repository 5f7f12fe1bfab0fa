-- ===== src/Webhooks/Delivery.antt =====
-- src/webhook-dispatch.js: what a delivery posts, and what becomes of its message.
use web_resource_ledger.Prelude.{
  ℕ, zero, suc, ◌≤◌, ◌<◌, ◌≡◌, ◌↔◌, refl, ap, sym, ◌∙◌, List, [], ◌∷◌, Option, none, some, false,
  ◌⊎◌, inl, inr, not, ltb, leb, ◌==◌, if◌then◌else◌, Bool-cases, Option-cases, arith,
}
use web_resource_ledger.Prelude.Texts.{Text, codes, text_eq, text_eq_iff}
use web_resource_ledger.UrlValidation.{
  Url, Outcome, Detail, accepted, rejected, must_use_https, validate_url,
}
use web_resource_ledger.UrlValidation.Accepts.{IsAccepted, validate_url_iff}
use web_resource_ledger.Webhooks.{
  Webhook, WebhookMessage, Request, Action, acked, retried, finished, threw, webhook_retry_delay,
  retry_or_ack, is_success, is_non_retryable_4xx, after_delivery, validate_webhook_url,
  signed_request, deliver, handle_webhook_message,
}

-- Answers after which another attempt makes sense: none, no success, and of the 4xx only 408 and 429.
pub data IsRetryable : Option ℕ → Type 0 where
  no_answer : IsRetryable none
  informational : {status : ℕ} → status < 200 → IsRetryable (some status)
  redirection : {status : ℕ} → 300 ≤ status → status < 400 → IsRetryable (some status)
  request_timeout : IsRetryable (some 408)
  too_many_requests : IsRetryable (some 429)
  server_error : {status : ℕ} → 500 ≤ status → IsRetryable (some status)

IsRetryable-not_final :
    (status : Option ℕ)
    → IsRetryable status
    → (is_success status ≡ false) × (is_non_retryable_4xx status ≡ false)
unfolding is_success is_non_retryable_4xx
IsRetryable-not_final _ no_answer = (refl, refl)
IsRetryable-not_final _ (informational h) = (ground arith, ground arith)
IsRetryable-not_final _ (redirection h k) = (ground arith, ground arith)
IsRetryable-not_final _ request_timeout = (refl, refl)
IsRetryable-not_final _ too_many_requests = (refl, refl)
IsRetryable-not_final _ (server_error h) = (ground arith, ground arith)

not_final-IsRetryable :
    (status : Option ℕ)
    → is_success status ≡ false
    → is_non_retryable_4xx status ≡ false
    → IsRetryable status
unfolding is_success is_non_retryable_4xx
not_final-IsRetryable none h k = no_answer
not_final-IsRetryable (some s) h k = elim (Bool-cases (s == 408)) [
  | inl e ↦ let same : s ≡ 408 = ground arith in rw same request_timeout
  | inr other ↦ elim (Bool-cases (s == 429)) [
    | inl e ↦ let same : s ≡ 429 = ground arith in rw same too_many_requests
    | inr neither ↦ elim (Bool-cases (ltb s 200)) [
      | inl e ↦ informational (ground arith)
      | inr big ↦ elim (Bool-cases (leb 500 s)) [
        | inl e ↦ server_error (ground arith)
        | inr small ↦ redirection (ground arith) (ground arith)
      ]
    ]
  ]
]

-- The delays of the first three attempts.
pub delay_of : ℕ → ℕ
delay_of (suc zero) = 60
delay_of (suc (suc zero)) = 300
delay_of attempt = 900

retry_or_ack-early :
    (attempts : ℕ)
    → 1 ≤ attempts
    → attempts ≤ 3
    → retry_or_ack attempts ≡ retried (some (delay_of attempts))
unfolding retry_or_ack webhook_retry_delay delay_of
retry_or_ack-early zero h k = absurd (omega arith)
retry_or_ack-early (suc zero) h k = refl
retry_or_ack-early (suc (suc zero)) h k = refl
retry_or_ack-early (suc (suc (suc zero))) h k = refl
retry_or_ack-early (suc (suc (suc (suc n)))) h k = absurd (omega arith)

retry_or_ack-late : (attempts : ℕ) → 4 ≤ attempts → retry_or_ack attempts ≡ acked
unfolding retry_or_ack webhook_retry_delay
retry_or_ack-late zero h = absurd (omega arith)
retry_or_ack-late (suc n) h = let late : ltb n 3 ≡ false = ground arith in rw (late, retry_or_ack)

after_delivery-retried :
    (attempts : ℕ) (status : Option ℕ)
    → 1 ≤ attempts
    → after_delivery attempts status ≡ retried (some (delay_of attempts))
    → IsRetryable status × (attempts ≤ 3)
unfolding after_delivery
after_delivery-retried attempts status h k = elim (Bool-cases (is_success status)) [
  | inl e ↦
      let impossible : acked ≡ retried (some (delay_of attempts)) = rw (e, after_delivery) at k in
      cc
  | inr no_success ↦ elim (Bool-cases (is_non_retryable_4xx status)) [
    | inl e ↦
        let impossible : acked ≡ retried (some (delay_of attempts)) =
          rw (no_success, e, after_delivery) at k in
        cc
    | inr other ↦
        let again : retry_or_ack attempts ≡ retried (some (delay_of attempts)) =
          rw (no_success, other, after_delivery) at k in
        (
          not_final-IsRetryable status no_success other,
          elim (Bool-cases (leb attempts 3)) [
            | inl early ↦ ground arith
            | inr late ↦
                let impossible = sym (retry_or_ack-late attempts (ground arith)) ∙ again in cc
          ],
        )
  ]
]

retried-after_delivery :
    (attempts : ℕ) (status : Option ℕ)
    → 1 ≤ attempts
    → IsRetryable status
    → attempts ≤ 3
    → after_delivery attempts status ≡ retried (some (delay_of attempts))
unfolding after_delivery
retried-after_delivery attempts status h retryable early =
    let (no_success, other) = IsRetryable-not_final status retryable in
    rw (no_success, other, after_delivery) (retry_or_ack-early attempts h early)

-- After its delivery a message is retried, with the delay of its attempt, exactly when the answer is
-- retryable and the attempt is one of the first three.
pub after_delivery_iff :
    (attempts : ℕ) (status : Option ℕ)
    → 1 ≤ attempts
    → (after_delivery attempts status ≡ retried (some (delay_of attempts)))
      ↔ (IsRetryable status × (attempts ≤ 3))
after_delivery_iff attempts status h = (
  after_delivery-retried attempts status h,
  λ (retryable, early). retried-after_delivery attempts status h retryable early,
)

Outcome-cases :
    (o : Outcome)
    → ((status : ℕ) × (detail : Detail) × (o ≡ rejected status detail))
      ⊎ ((href : Text) × (ip : Text) × (o ≡ accepted href ip))
Outcome-cases (rejected status detail) = inl (status, detail, refl)
Outcome-cases (accepted href ip) = inr (href, ip, refl)

https_of :
    (protocol : Text) → not (text_eq protocol (codes "https:")) ≡ false → protocol ≡ codes "https:"
https_of protocol h = let same = text_eq_iff protocol (codes "https:") in same.0 (ground arith)

module _ (parse_url : Text → Option Url) (resolve4 resolve6 : Text → Option (List Text))
    (get_webhook : Text → Text → Option (Option Webhook)) (sign : Text → ℕ → Text → Text)
    (fetch : Request → Option ℕ) (now : ℕ) (msg : WebhookMessage) (attempts : ℕ) where
  -- The four ways in which a message is handled.
  pub data IsHandled (posts : List Request) (action : Action) : Type 0 where
    lookup_failed :
        get_webhook msg.webhook_id msg.tenant_id ≡ none
        → posts ≡ []
        → action ≡ retry_or_ack attempts
        → IsHandled posts action
    deleted :
        get_webhook msg.webhook_id msg.tenant_id ≡ some none
        → posts ≡ []
        → action ≡ acked
        → IsHandled posts action
    refused :
        (webhook : Webhook) (status : ℕ) (detail : Detail)
        → get_webhook msg.webhook_id msg.tenant_id ≡ some (some webhook)
        → validate_webhook_url parse_url resolve4 resolve6 webhook.url
          ≡ some (rejected status detail)
        → posts ≡ []
        → action ≡ acked
        → IsHandled posts action
    posted :
        (webhook : Webhook) (href ip : Text) (parsed : Url)
        → get_webhook msg.webhook_id msg.tenant_id ≡ some (some webhook)
        → IsAccepted parse_url resolve4 resolve6 webhook.url href ip
        → parse_url href ≡ some parsed
        → parsed.protocol ≡ codes "https:"
        → posts
          ≡ signed_request parse_url resolve4 resolve6 get_webhook sign fetch now msg webhook ∷ []
        → action
          ≡ after_delivery attempts (
              fetch
                (signed_request parse_url resolve4 resolve6 get_webhook sign fetch now msg webhook))
        → IsHandled posts action

  abbrev secured : Text → Text → Url → Option Outcome
  secured href ip parsed =
      if not (text_eq parsed.protocol (codes "https:"))
      then some (rejected 400 must_use_https)
      else some (accepted href ip)

  secured-accepted :
      (u i href ip : Text) (parsed : Url)
      → secured u i parsed ≡ some (accepted href ip)
      → (parsed.protocol ≡ codes "https:") × (u ≡ href) × (i ≡ ip)
  secured-accepted u i href ip parsed h =
      elim (Bool-cases (not (text_eq parsed.protocol (codes "https:")))) [
        | inl plain ↦
            let impossible : some (rejected 400 must_use_https) ≡ some (accepted href ip) =
              rw plain at h in
            cc
        | inr secure ↦
            let same : some (accepted u i) ≡ some (accepted href ip) = rw secure at h in
            (https_of parsed.protocol secure, cc, cc)
      ]

  validated :
      (raw href ip : Text)
      → validate_webhook_url parse_url resolve4 resolve6 raw ≡ some (accepted href ip)
      → IsAccepted parse_url resolve4 resolve6 raw href ip
        × ((parsed : Url) × (parse_url href ≡ some parsed) × (parsed.protocol ≡ codes "https:"))
  unfolding validate_webhook_url
  validated raw href ip h = elim (Outcome-cases (validate_url parse_url resolve4 resolve6 raw)) [
    | inl (status, detail, e) ↦
        let k : some (rejected status detail) ≡ some (accepted href ip) =
          rw (e, validate_webhook_url) at h in
        cc
    | inr (u, i, e) ↦ elim (Option-cases (parse_url u)) [
      | inl f ↦
          let k : ◌≡◌ {A = Option Outcome} none (some (accepted href ip)) =
            rw (e, f, validate_webhook_url) at h in
          cc
      | inr (parsed, f) ↦
          let k : secured u i parsed ≡ some (accepted href ip) =
            rw (e, f, validate_webhook_url) at h in
          let (secure, same_href, same_ip) = secured-accepted u i href ip parsed k in
          (
            (validate_url_iff parse_url resolve4 resolve6 raw href ip).0
                (e ∙ ap (λ t. accepted t i) same_href ∙ ap (accepted href) same_ip),
            (parsed, ap parse_url (sym same_href) ∙ f, secure),
          )
    ]
  ]

  deliver-IsHandled :
      (webhook : Webhook) (posts : List Request) (action : Action)
      → get_webhook msg.webhook_id msg.tenant_id ≡ some (some webhook)
      → deliver parse_url resolve4 resolve6 get_webhook sign fetch now msg attempts webhook
        ≡ finished posts action
      → IsHandled posts action
  unfolding deliver
  deliver-IsHandled webhook posts action found h = elim (Option-cases (parse_url webhook.url)) [
    | inl e ↦ let k : threw ≡ finished posts action = rw (e, deliver) at h in cc
    | inr (target, e) ↦
        elim (Option-cases (validate_webhook_url parse_url resolve4 resolve6 webhook.url)) [
          | inl f ↦ let k : threw ≡ finished posts action = rw (e, f, deliver) at h in cc
          | inr (outcome, f) ↦ elim (Outcome-cases outcome) [
            | inl (status, detail, g) ↦
                let k : finished [] acked ≡ finished posts action = rw (e, f, g, deliver) at h in
                let nothing : posts ≡ [] = cc in
                let done : action ≡ acked = cc in
                refused webhook status detail found (f ∙ ap some g) nothing done
            | inr (href, ip, g) ↦
                let request =
                  signed_request parse_url resolve4 resolve6 get_webhook sign fetch now msg
                    webhook in
                let k : finished (request ∷ []) (after_delivery attempts (fetch request))
                    ≡ finished posts action =
                  rw (e, f, g, deliver) at h in
                let (is_accepted, (parsed, p, secure)) =
                  validated webhook.url href ip (f ∙ ap some g) in
                let one : posts ≡ request ∷ [] = cc in
                let settled : action ≡ after_delivery attempts (fetch request) = cc in
                posted webhook href ip parsed found is_accepted p secure one settled
          ]
        ]
  ]

  -- A message whose handler returns was handled in one of four ways: its webhook could not be looked up
  -- and nothing is posted; the webhook is gone, or its URL is refused, and the message is acknowledged
  -- with nothing posted; or one request was posted, signed, to a webhook whose URL is accepted as
  -- public and is HTTPS, and the message is settled by the answer.
  pub handle_webhook_message-IsHandled :
      (posts : List Request) (action : Action)
      → handle_webhook_message parse_url resolve4 resolve6 get_webhook sign fetch now msg attempts
        ≡ finished posts action
      → IsHandled posts action
  unfolding handle_webhook_message
  handle_webhook_message-IsHandled posts action h =
      elim (Option-cases (get_webhook msg.webhook_id msg.tenant_id)) [
        | inl e ↦
            let k : finished [] (retry_or_ack attempts) ≡ finished posts action =
              rw (e, handle_webhook_message) at h in
            let nothing : posts ≡ [] = cc in
            let again : action ≡ retry_or_ack attempts = cc in lookup_failed e nothing again
        | inr (found, e) ↦ elim (Option-cases found) [
          | inl f ↦
              let k : finished [] acked ≡ finished posts action =
                rw (e, f, handle_webhook_message) at h in
              let nothing : posts ≡ [] = cc in
              let done : action ≡ acked = cc in deleted (e ∙ ap some f) nothing done
          | inr (webhook, f) ↦
              deliver-IsHandled webhook posts action (e ∙ ap some f)
                (rw (e, f, handle_webhook_message) at h)
        ]
      ]

  after_delivery-late : (status : Option ℕ) → 4 ≤ attempts → after_delivery attempts status ≡ acked
  unfolding after_delivery
  after_delivery-late status late = elim (Bool-cases (is_success status)) [
    | inl e ↦ rw (e, after_delivery)
    | inr e ↦ elim (Bool-cases (is_non_retryable_4xx status)) [
      | inl f ↦ rw (e, f, after_delivery)
      | inr f ↦ rw (e, f, after_delivery) (retry_or_ack-late attempts late)
    ]
  ]

  -- From the fourth attempt on, a message whose handler returns is acknowledged, whatever became of it.
  pub handle_webhook_message-late :
      (posts : List Request) (action : Action)
      → 4 ≤ attempts
      → handle_webhook_message parse_url resolve4 resolve6 get_webhook sign fetch now msg attempts
        ≡ finished posts action
      → action ≡ acked
  handle_webhook_message-late posts action late h =
      elim (handle_webhook_message-IsHandled posts action h) [
        | lookup_failed e p a ↦ a ∙ retry_or_ack-late attempts late
        | deleted e p a ↦ a
        | refused webhook status detail e v p a ↦ a
        | posted webhook href ip parsed e v q s p a ↦ a ∙ after_delivery-late _ late
      ]
