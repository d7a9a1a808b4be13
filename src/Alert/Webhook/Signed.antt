-- ===== src/Alert/Webhook/Signed.antt =====
-- What a receiver of webhooks can rely on.
use trackdown.Prelude.{
  ℕ, ◌<◌, ◌≡◌, refl, Text, false, Option, none, some, [], ◌∷◌, ◌++◌, All, is_empty, ltb, ltb→lt,
  Bool-cases, inl, inr,
}
use trackdown.Grouping.Separate.{encode_hex_injective}
use trackdown.Alert.{NotifyEvent}
use trackdown.Alert.Webhook.{
  WebhookNotifier, WebhookRequest, Marshaled, bytes, unsupported, Answer, status, failed, Sent,
  verdict, signature_of, request_of, send, send_marshaled, webhook_notify,
}

verdict-none : (a : Answer) → verdict a ≡ none → (code : ℕ) × (a ≡ status code) × (code < 300)
verdict-none (failed e) h = cc
verdict-none (status code) h = elim (Bool-cases (ltb code 300)) [
  | inl low ↦ (code, refl, ltb→lt code 300 low)
  | inr high ↦ (code, refl, cc (rw high at h))
]

module _ (marshal : NotifyEvent → Marshaled) (refuses : Text → Option Text)
    (hmac : Text → Text → Text) (answers : Sent → WebhookRequest → Answer)
    (n : WebhookNotifier) where
  abbrev Delivered : Marshaled → Sent → Sent → Type 0
  Delivered m sent sent' =
      (body : Text) × (code : ℕ) × (m ≡ bytes body)
      × (sent' ≡ sent ++ request_of hmac n body ∷ [])
      × (answers sent (request_of hmac n body) ≡ status code)
      × (code < 300)

  send-Delivered :
      (body : Text) (o : Option Text) (sent : Sent)
      → (send marshal refuses hmac answers n body o sent).0 ≡ none
      → Delivered (bytes body) sent (send marshal refuses hmac answers n body o sent).1
  send-Delivered body (some e) sent h = cc
  send-Delivered body none sent h =
      let (code, answered, low) = verdict-none (answers sent (request_of hmac n body)) h in
      (body, code, refl, refl, answered, low)

  send_marshaled-Delivered :
      (m : Marshaled) (sent : Sent)
      → (send_marshaled marshal refuses hmac answers n m sent).0 ≡ none
      → Delivered m sent (send_marshaled marshal refuses hmac answers n m sent).1
  send_marshaled-Delivered (unsupported e) sent h = cc
  send_marshaled-Delivered (bytes body) sent h = send-Delivered body (refuses n.url) sent h

  -- If a webhook has a secret and `Notify` reports no error, then one more request was sent, to the
  -- webhook's URL, with the marshaled payload as its body and with a signature of this body under
  -- the secret, and the answer's status was below 300.
  pub webhook_notify-signed :
      (ev : NotifyEvent) (sent : Sent)
      → is_empty n.secret ≡ false
      → (webhook_notify marshal refuses hmac answers n ev sent).0 ≡ none
      → (request : WebhookRequest) × (code : ℕ) × ((webhook_notify marshal refuses hmac answers n ev
            sent).1
          ≡ sent ++ request ∷ [])
        × (request.url ≡ n.url)
        × (marshal ev ≡ bytes request.body)
        × (request.signature ≡ some (signature_of hmac n.secret request.body))
        × (answers sent request ≡ status code)
        × (code < 300)
  unfolding webhook_notify request_of
  webhook_notify-signed ev sent secret done =
      let (body, code, marshaled, after, answered, low) =
        send_marshaled-Delivered (marshal ev) sent done in
      (request_of hmac n body, code, after, refl, marshaled, rw secret refl, answered, low)

-- If HMAC-SHA256 gives bytes, two bodies have one signature only if they have one HMAC.
pub signature_of_injective :
    (hmac : Text → Text → Text) (secret a b : Text)
    → ((x : Text) → All (λ c. c < 256) (hmac secret x))
    → signature_of hmac secret a ≡ signature_of hmac secret b
    → hmac secret a ≡ hmac secret b
unfolding signature_of
signature_of_injective hmac secret a b octets same =
    encode_hex_injective (hmac secret a) (hmac secret b) (octets a) (octets b) (cc)
