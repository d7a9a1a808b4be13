-- ===== src/Examples/Alerts.antt =====
-- The notifiers, their configuration and the retry loop.
use trackdown.Prelude.{
  ◌*◌, ◌≡◌, refl, Text, codes, true, false, Option, none, some, [], ◌∷◌, ◌++◌, pos,
}
use trackdown.Alert.{NotifyEvent}
use trackdown.Alert.Smtp.{
  SmtpNotifier, Call, Trace, dial, new_client, close_client, close_connection, send_implicit_tls,
  build_message,
}
use trackdown.Alert.Smtp.Delivery.{script, Accepted, send_implicit_tls-script}
use trackdown.Alert.Smtp.Headers.{read_message, read_message-build_message_injected}
use trackdown.Alert.Webhook.{
  WebhookNotifier, WebhookRequest, Marshaled, bytes, Answer, status, Sent,
}
use trackdown.Config.{File}
use trackdown.Store.Types.{second}
use trackdown.Examples.Data.{shop}

abbrev mailer : SmtpNotifier
mailer = record {
  host = codes "mail";
  port = pos 465;
  username = [];
  password = [];
  from = codes "t@x";
  recipients = codes "a@x" ∷ codes "b@x" ∷ [];
  implicit_tls = true;
}

-- a server that accepts every call
abbrev accepting : Trace → Call → Option Text
accepting trace c = none

abbrev in_quotes : Text → Text
in_quotes t = 34 ∷ (t ++ 34 ∷ [])

send_implicit_tls-script_example :
    ((send_implicit_tls accepting in_quotes mailer (codes "mail:465") none (codes "hi") []).1
      ≡ []
        ++ dial (codes "mail:465") (codes "mail")
          ∷ new_client (codes "mail")
          ∷ (script mailer none (codes "hi") ++ close_client ∷ close_connection ∷ []))
    × Accepted accepting in_quotes [] (
        dial (codes "mail:465") (codes "mail")
        ∷ new_client (codes "mail")
        ∷ script mailer none (codes "hi"))
unfolding send_implicit_tls
send_implicit_tls-script_example =
    send_implicit_tls-script accepting in_quotes mailer (codes "mail:465") none (codes "hi") [] refl

read_message-build_message_injected_example :
    read_message [] [] (
      build_message
        (codes "t@x")
        (codes "a@x" ∷ [])
        (codes "a" ++ 13 ∷ 10 ∷ codes "Bcc: e")
        (codes "hi"))
    ≡ some (
      codes "From: t@x"
          ∷ codes "To: a@x"
          ∷ codes "Subject: a"
          ∷ codes "Bcc: e"
          ∷ codes "Content-Type: text/plain; charset=utf-8"
          ∷ [],
      codes "hi",
    )
read_message-build_message_injected_example =
    read_message-build_message_injected (codes "t@x") (codes "a@x" ∷ []) (refl, (refl, (refl, tt)))
      ((refl, (refl, (refl, tt))), tt) (codes "a") (codes "Bcc: e") (codes "hi") (refl, tt)
      ((refl, (refl, (refl, (refl, (refl, (refl, tt)))))), refl)

abbrev hook : WebhookNotifier
hook = record { url = codes "http://h"; secret = codes "s" }

abbrev notice : NotifyEvent
notice = record {
  project_id = shop;
  issue_id = 1;
  title = codes "boom";
  level = codes "error";
  is_new = true;
  is_regression = false;
  event_count = 1;
  occurred_at = 3 * second;
}

abbrev as_title : NotifyEvent → Marshaled
as_title ev = bytes ev.title

abbrev allows : Text → Option Text
allows url = none

abbrev keyed : Text → Text → Text
keyed secret body = secret ++ body

abbrev fine : Sent → WebhookRequest → Answer
fine sent request = status 204

abbrev configured : File
configured = record {
  smtp = some (record {
    host = codes "mail";
    port = pos 465;
    username = [];
    password = [];
    from = codes "t@x";
    recipients = codes "a@x" ∷ codes "b@x" ∷ [];
    implicit_tls = true;
  });
  webhooks = record { url = codes "http://h"; secret = codes "s" } ∷ [];
}
