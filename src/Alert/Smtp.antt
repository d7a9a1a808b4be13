-- ===== src/Alert/Smtp.antt =====
-- internal/alert/smtp.go: an alert as an e-mail. The calls of net/smtp and crypto/tls are recorded in
-- a trace, and `replies` says what error, if any, each returns after the calls before it. `quote` is the `%q` of fmt.
pub mod Delivery
pub mod Headers
use trackdown.Prelude.{
  ℕ, Text, codes, Bool, true, false, Option, none, some, List, [], ◌∷◌, ◌++◌, if◌then◌else◌,
  is_empty, decimal, signed_decimal, join_text, ℤ,
}
use trackdown.Store.Types.{Time}
use trackdown.Alert.{NotifyEvent, Notifier}

-- `SMTPNotifier`
pub record SmtpNotifier : Type 0 where
  pub host : Text
  pub port : ℤ
  pub username : Text
  pub password : Text
  pub from : Text
  pub recipients : List Text
  pub implicit_tls : Bool

-- what `smtp.PlainAuth` is built from
pub record PlainAuth : Type 0 where
  pub username : Text
  pub password : Text
  pub host : Text

-- the calls that `Notify` and `sendImplicitTLS` make
pub data Call : Type 0 where
  send_mail : Text → Option PlainAuth → Text → List Text → Text → Call
  dial : Text → Text → Call
  new_client : Text → Call
  authenticate : PlainAuth → Call
  mail_from : Text → Call
  rcpt_to : Text → Call
  open_message write_message_end quit close_client close_connection : Call
  write_message : Text → Call

abbrev pub Trace : Type 0
Trace = List Call

abbrev crlf : Text
crlf = 13 ∷ 10 ∷ []

-- `buildMessage`
unfoldable pub build_message : Text → List Text → Text → Text → Text
build_message from recipients subject body =
    (codes "From: " ++ from ++ crlf)
    ++ (codes "To: " ++ join_text (codes ", ") recipients ++ crlf)
    ++ (codes "Subject: " ++ subject ++ crlf)
    ++ (codes "Content-Type: text/plain; charset=utf-8" ++ crlf)
    ++ crlf
    ++ body

-- `formatEmail`: the subject
unfoldable pub email_subject : NotifyEvent → Text
email_subject ev =
    codes "[Trackdown] "
    ++ (if ev.is_regression then codes "Regression" else codes "New issue")
    ++ codes ": "
    ++ ev.title

-- `formatEmail`: the body, with the time as `time.RFC3339` formats it
unfoldable pub email_body : (Time → Text) → NotifyEvent → Text
unfolding decimal
email_body format_time ev =
    codes "Project: "
    ++ ev.project_id
    ++ codes "\nIssue: "
    ++ ev.title
    ++ codes "\nLevel: "
    ++ ev.level
    ++ codes "\nEvent count: "
    ++ decimal ev.event_count
    ++ codes "\nOccurred at: "
    ++ format_time ev.occurred_at
    ++ codes "\n\nView at: /projects/"
    ++ ev.project_id
    ++ codes "/issues/"
    ++ decimal ev.issue_id
    ++ codes "\n"

module _ (replies : Trace → Call → Option Text) (quote : Text → Text) where
  -- a call, before what follows if it returns no error; `what` is put before an error
  abbrev pub settle :
      Text → Option Text → (Trace → Option Text × Trace) → Trace → Option Text × Trace
  settle what none later trace = later trace
  settle what (some e) later trace = (some (what ++ e), trace)

  unfoldable pub call : Text → Call → (Trace → Option Text × Trace) → Trace → Option Text × Trace
  call what c later trace = settle what (replies trace c) later (trace ++ c ∷ [])

  -- a deferred call, whose error is passed over
  abbrev pub deferred : Call → Option Text × Trace → Option Text × Trace
  deferred c (e, trace) = (e, trace ++ c ∷ [])

  -- the loop over the recipients
  abbrev pub call_each : List Text → (Trace → Option Text × Trace) → Trace → Option Text × Trace
  call_each [] later = later
  call_each (recipient ∷ recipients) later =
      call (codes "RCPT TO " ++ quote recipient ++ codes ": ") (rcpt_to recipient)
        (call_each recipients later)

  abbrev pub call_auth :
      Option PlainAuth → (Trace → Option Text × Trace) → Trace → Option Text × Trace
  call_auth none later = later
  call_auth (some auth) later = call (codes "SMTP auth: ") (authenticate auth) later

  -- what `sendImplicitTLS` does with its client
  unfoldable pub transmit : SmtpNotifier → Option PlainAuth → Text → Trace → Option Text × Trace
  unfolding call
  transmit n auth msg = call_auth auth (
      call (codes "MAIL FROM: ") (mail_from n.from) (
        call_each n.recipients (
          call (codes "DATA: ") open_message (
            call (codes "writing message: ") (write_message msg) (
              call (codes "closing message: ") write_message_end
                (call [] quit (λ trace. (none, trace))))))))

  -- `sendImplicitTLS`
  unfoldable pub send_implicit_tls :
      SmtpNotifier → Text → Option PlainAuth → Text → Trace → Option Text × Trace
  unfolding transmit
  send_implicit_tls n addr auth msg =
      call (codes "dialing SMTP over implicit TLS: ") (dial addr n.host) (λ trace.
        deferred close_connection (
          call (codes "creating SMTP client: ") (new_client n.host)
            (λ trace'. deferred close_client (transmit n auth msg trace')) trace))

  abbrev pub auth_of : SmtpNotifier → Option PlainAuth
  auth_of n =
      if is_empty n.username
      then none
      else some (record { username = n.username; password = n.password; host = n.host })

  -- `SMTPNotifier.Notify`
  unfoldable pub smtp_notify : (Time → Text) → SmtpNotifier → Notifier Trace
  unfolding send_implicit_tls build_message email_subject email_body signed_decimal
  smtp_notify format_time n ev trace =
      let msg = build_message n.from n.recipients (email_subject ev) (email_body format_time ev) in
      let addr = n.host ++ codes ":" ++ signed_decimal n.port in
      if n.implicit_tls
      then send_implicit_tls n addr (auth_of n) msg trace
      else call [] (send_mail addr (auth_of n) n.from n.recipients msg) (λ t. (none, t)) trace
