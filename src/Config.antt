-- ===== src/Config.antt =====
-- internal/config/config.go: the configuration of alerts. The file system and encoding/json are
-- parameters of `load`: what `os.ReadFile` and `json.Unmarshal` give, `none` for an error.
pub mod Complete
use trackdown.Prelude.{
  ℕ, ◌+◌, Text, Bool, true, false, Option, none, some, List, [], ◌∷◌, ◌++◌, map, is_empty,
  if◌then◌else◌, ℤ, pos, negsuc, ◌==◌,
}
use trackdown.Alert.{NotifyEvent, Notifier, multi_notify}
use trackdown.Alert.Smtp.{SmtpNotifier}
use trackdown.Alert.Webhook.{WebhookNotifier}

-- `SMTPConfig`
pub record SmtpConfig : Type 0 where
  pub host : Text
  pub port : ℤ
  pub username : Text
  pub password : Text
  pub from : Text
  pub recipients : List Text
  pub implicit_tls : Bool

-- `WebhookConfig`
pub record WebhookConfig : Type 0 where
  pub url : Text
  pub secret : Text

-- `File`
pub record File : Type 0 where
  pub smtp : Option SmtpConfig
  pub webhooks : List WebhookConfig

pub data Invalid : Type 0 where
  no_host no_port no_from no_recipients : Invalid
  no_url : ℕ → Invalid

abbrev is_zero : ℤ → Bool
is_zero (pos n) = n == 0
is_zero (negsuc n) = false

-- the `switch` of `validate`
unfoldable pub validate_smtp : SmtpConfig → Option Invalid
validate_smtp s =
    if is_empty s.host
    then some no_host
    else if is_zero s.port
    then some no_port
    else if is_empty s.from
    then some no_from
    else if is_empty s.recipients
    then some no_recipients
    else none

-- the loop of `validate`, from an index on
unfoldable pub validate_webhooks : ℕ → List WebhookConfig → Option Invalid
validate_webhooks i [] = none
validate_webhooks i (w ∷ ws) =
    if is_empty w.url then some (no_url i) else validate_webhooks (i + 1) ws

abbrev then_webhooks : List WebhookConfig → Option Invalid → Option Invalid
then_webhooks ws (some e) = some e
then_webhooks ws none = validate_webhooks 0 ws

abbrev validate_block : Option SmtpConfig → Option Invalid
validate_block none = none
validate_block (some s) = validate_smtp s

-- `File.validate`
unfoldable pub validate : File → Option Invalid
unfolding validate_smtp validate_webhooks
validate f = then_webhooks f.webhooks (validate_block f.smtp)

pub data Loaded : Type 0 where
  ok : File → Loaded
  unreadable : Loaded
  bad_json : Loaded
  invalid : Invalid → Loaded

abbrev pub checked : File → Option Invalid → Loaded
checked f none = ok f
checked f (some e) = invalid e

abbrev pub load_parsed : Option File → Loaded
load_parsed none = bad_json
load_parsed (some f) = checked f (validate f)

abbrev pub load_read : (Text → Option File) → Option Text → Loaded
load_read unmarshal none = unreadable
load_read unmarshal (some content) = load_parsed (unmarshal content)

-- `Load`
unfoldable pub load : (Text → Option Text) → (Text → Option File) → Text → Loaded
unfolding validate
load read_file unmarshal path = load_read unmarshal (read_file path)

-- the notifiers of a `MultiNotifier`
pub data Target : Type 0 where
  email : SmtpNotifier → Target
  webhook : WebhookNotifier → Target

unfoldable pub email_of : SmtpConfig → Target
email_of s = email (record {
  host = s.host;
  port = s.port;
  username = s.username;
  password = s.password;
  from = s.from;
  recipients = s.recipients;
  implicit_tls = s.implicit_tls;
})

unfoldable pub webhook_of : WebhookConfig → Target
webhook_of w = webhook (record { url = w.url; secret = w.secret })

abbrev smtp_targets : Option SmtpConfig → List Target
smtp_targets none = []
smtp_targets (some s) = email_of s ∷ []

abbrev or_disabled : List Target → Option (List Target)
or_disabled [] = none
or_disabled (t ∷ ts) = some (t ∷ ts)

-- `BuildNotifier`; none is a nil notifier, and alerts are disabled
unfoldable pub build_notifier : File → Option (List Target)
unfolding email_of webhook_of
build_notifier f = or_disabled (smtp_targets f.smtp ++ map webhook_of f.webhooks)

-- the `MultiNotifier` of some targets, from what each does to the outside
unfoldable pub notify_targets : {W : Type 0} → (Target → Notifier W) → List Target → Notifier W
unfolding multi_notify
notify_targets notify_by targets = multi_notify (map notify_by targets)
