-- ===== src/Alert/Webhook.antt =====
-- internal/alert/webhook.go: an alert as a signed POST request. `marshal` is `json.Marshal` of the
-- payload, which has the fields of the event, `hmac` is HMAC-SHA256 of a key and a text, and
-- `refuses` the error of `http.NewRequestWithContext`, if there is one.
pub mod Signed
use trackdown.Prelude.{
  ℕ, Text, codes, Bool, true, false, Option, none, some, List, [], ◌∷◌, ◌++◌, if◌then◌else◌,
  is_empty, ltb, decimal,
}
use trackdown.Grouping.{encode_hex}
use trackdown.Alert.{NotifyEvent, Notifier}

-- `WebhookNotifier`; its `Client` is always nil in the program, so `http.DefaultClient` sends
pub record WebhookNotifier : Type 0 where
  pub url : Text
  pub secret : Text

-- the request, as far as `Notify` sets it; `signature` is `X-Trackdown-Signature`
pub record WebhookRequest : Type 0 where
  pub url : Text
  pub content_type : Text
  pub signature : Option Text
  pub body : Text

-- what `json.Marshal` gives
pub data Marshaled : Type 0 where
  bytes : Text → Marshaled
  unsupported : Text → Marshaled

-- what `client.Do` gives: the status of the response, or an error
pub data Answer : Type 0 where
  status : ℕ → Answer
  failed : Text → Answer

-- what is outside: the requests sent so far
abbrev pub Sent : Type 0
Sent = List WebhookRequest

abbrev pub verdict : Answer → Option Text
verdict (failed e) = some (codes "sending webhook: " ++ e)
verdict (status code) =
    if ltb code 300 then none else some (codes "webhook returned status " ++ decimal code)

-- the signature of a body under a secret
unfoldable pub signature_of : (Text → Text → Text) → Text → Text → Text
unfolding encode_hex
signature_of hmac secret body = codes "sha256=" ++ encode_hex (hmac secret body)

-- the request for a body
unfoldable pub request_of : (Text → Text → Text) → WebhookNotifier → Text → WebhookRequest
unfolding signature_of
request_of hmac n body = record {
  url = n.url;
  content_type = codes "application/json";
  signature = if is_empty n.secret then none else some (signature_of hmac n.secret body);
  body = body;
}

module _ (marshal : NotifyEvent → Marshaled) (refuses : Text → Option Text)
    (hmac : Text → Text → Text) (answers : Sent → WebhookRequest → Answer) where
  abbrev send : WebhookNotifier → Text → Option Text → Sent → Option Text × Sent
  send n body (some e) sent = (some (codes "building webhook request: " ++ e), sent)
  send n body none sent =
      let request = request_of hmac n body in (verdict (answers sent request), sent ++ request ∷ [])

  abbrev send_marshaled : WebhookNotifier → Marshaled → Sent → Option Text × Sent
  send_marshaled n (unsupported e) sent = (some (codes "marshaling webhook payload: " ++ e), sent)
  send_marshaled n (bytes body) sent = send n body (refuses n.url) sent

  -- `WebhookNotifier.Notify`
  unfoldable pub webhook_notify : WebhookNotifier → Notifier Sent
  unfolding request_of
  webhook_notify n ev sent = send_marshaled n (marshal ev) sent
