-- ===== src/Config/Complete.antt =====
-- The notifiers of a file that `Load` accepts.
use trackdown.Prelude.{
  ℕ, ◌+◌, ◌≡◌, ◌≢◌, refl, sym, ap, ap₂, ◌∙◌, subst, Text, true, false, Option, none, some, List, [],
  ◌∷◌, ◌++◌, All, All-append, map, is_empty, ℤ, pos, Bool-cases, inl, inr, ◌↔◌,
}
use trackdown.Config.{
  SmtpConfig, WebhookConfig, File, Invalid, validate_smtp, validate_webhooks, then_webhooks,
  validate_block, validate, ok, checked, load_parsed, load_read, load, Target, email, webhook,
  email_of, webhook_of, smtp_targets, or_disabled, build_notifier, is_zero,
}

-- a notifier that has what a delivery needs
abbrev pub IsComplete : Target → Type 0
IsComplete (email n) = (n.host ≢ []) × (n.port ≢ pos 0) × (n.from ≢ []) × (n.recipients ≢ [])
IsComplete (webhook n) = n.url ≢ []

abbrev targets_of : File → List Target
targets_of f = smtp_targets f.smtp ++ map webhook_of f.webhooks

is_empty-ne {ℓ} : {A : Type ℓ} (xs : List A) → is_empty xs ≡ false → xs ≢ []
is_empty-ne [] h e = cc
is_empty-ne (x ∷ xs) h e = cc

is_zero-ne : (z : ℤ) → is_zero z ≡ false → z ≢ pos 0
is_zero-ne z h e = cc (subst (λ x. is_zero x ≡ false) e h)

validate_smtp-IsComplete : (s : SmtpConfig) → validate_smtp s ≡ none → IsComplete (email_of s)
unfolding validate_smtp email_of
validate_smtp-IsComplete s h = elim (Bool-cases (is_empty s.host)) [
  | inl no_host ↦ cc (rw no_host at h)
  | inr host ↦ elim (Bool-cases (is_zero s.port)) [
    | inl no_port ↦ cc (rw (host, no_port) at h)
    | inr port ↦ elim (Bool-cases (is_empty s.from)) [
      | inl no_from ↦ cc (rw (host, port, no_from) at h)
      | inr from ↦ elim (Bool-cases (is_empty s.recipients)) [
        | inl no_one ↦ cc (rw (host, port, from, no_one) at h)
        | inr some_one ↦ (
          is_empty-ne s.host host,
          is_zero-ne s.port port,
          is_empty-ne s.from from,
          is_empty-ne s.recipients some_one,
        )
      ]
    ]
  ]
]

validate_webhooks-IsComplete :
    (i : ℕ) (ws : List WebhookConfig)
    → validate_webhooks i ws ≡ none
    → All IsComplete (map webhook_of ws)
unfolding validate_webhooks webhook_of
validate_webhooks-IsComplete i [] h = tt
validate_webhooks-IsComplete i (w ∷ ws) h = elim (Bool-cases (is_empty w.url)) [
  | inl no_url ↦ cc (rw no_url at h)
  | inr url ↦ (is_empty-ne w.url url, validate_webhooks-IsComplete (i + 1) ws (rw url at h))
]

then_webhooks-none :
    (ws : List WebhookConfig) (o : Option Invalid)
    → then_webhooks ws o ≡ none
    → (o ≡ none) × (validate_webhooks 0 ws ≡ none)
then_webhooks-none ws none h = (refl, h)
then_webhooks-none ws (some e) h = cc

validate_block-IsComplete :
    (o : Option SmtpConfig) → validate_block o ≡ none → All IsComplete (smtp_targets o)
validate_block-IsComplete none h = tt
validate_block-IsComplete (some s) h = (validate_smtp-IsComplete s h, tt)

validate-IsComplete : (f : File) → validate f ≡ none → All IsComplete (targets_of f)
unfolding validate
validate-IsComplete f h =
    let (block, webhooks) = then_webhooks-none f.webhooks (validate_block f.smtp) h in
    All-append IsComplete (λ _. true) (smtp_targets f.smtp) (map webhook_of f.webhooks)
      (validate_block-IsComplete f.smtp block) (validate_webhooks-IsComplete 0 f.webhooks webhooks)

checked-ok : (f g : File) (o : Option Invalid) → checked f o ≡ ok g → (o ≡ none) × (f ≡ g)
checked-ok f g none h = (refl, cc)
checked-ok f g (some e) h = cc

load_parsed-ok : (o : Option File) (f : File) → load_parsed o ≡ ok f → validate f ≡ none
load_parsed-ok none f h = cc
load_parsed-ok (some g) f h =
    let (valid, same) = checked-ok g f (validate g) h in ap validate (sym same) ∙ valid

load_read-ok :
    (unmarshal : Text → Option File) (o : Option Text) (f : File)
    → load_read unmarshal o ≡ ok f
    → validate f ≡ none
load_read-ok unmarshal none f h = cc
load_read-ok unmarshal (some content) f h = load_parsed-ok (unmarshal content) f h

or_disabled-some : (ts us : List Target) → or_disabled ts ≡ some us → ts ≡ us
or_disabled-some [] us h = cc
or_disabled-some (t ∷ ts) us h = cc

-- Every notifier that `BuildNotifier` makes of a file that `Load` returns is complete: an e-mail
-- notifier has a host, a port that is not 0, a sender and a recipient, and a webhook a URL.
pub load-build_notifier :
    (read_file : Text → Option Text) (unmarshal : Text → Option File) (path : Text) (f : File)
    (targets : List Target)
    → load read_file unmarshal path ≡ ok f
    → build_notifier f ≡ some targets
    → All IsComplete targets
unfolding load build_notifier
load-build_notifier read_file unmarshal path f targets loaded built =
    subst (All IsComplete) (or_disabled-some (targets_of f) targets built)
      (validate-IsComplete f (load_read-ok unmarshal (read_file path) f loaded))

or_disabled-none :
    (o : Option SmtpConfig) (ws : List WebhookConfig)
    → or_disabled (smtp_targets o ++ map webhook_of ws) ≡ none
    → (o ≡ none) × (ws ≡ [])
or_disabled-none none [] h = (refl, refl)
or_disabled-none none (w ∷ ws) h = cc
or_disabled-none (some s) ws h = cc

-- `BuildNotifier` leaves alerts disabled exactly if the file configures neither SMTP nor a webhook.
pub build_notifier-none :
    (f : File) → (build_notifier f ≡ none) ↔ ((f.smtp ≡ none) × (f.webhooks ≡ []))
unfolding build_notifier
build_notifier-none f = (
  or_disabled-none f.smtp f.webhooks,
  λ h. ap₂ (λ o ws. or_disabled (smtp_targets o ++ map webhook_of ws)) h.0 h.1,
)
