-- ===== src/Command/Start/Guarded.antt =====
-- What a `serve` that starts has settled about authentication.
use trackdown.Prelude.{
  ◌≡◌, ◌≢◌, ◌⊎◌, inl, inr, refl, ap, ◌∙◌, Text, Bool, true, false, Option, none, some, List, [],
  Bool-cases, if◌then◌else◌, is_empty,
}
use trackdown.Ratelimit.{Limiter, allow}
use trackdown.Auth as Auth
use trackdown.Auth.{from_env}
use trackdown.Auth.Laws.{from_env-password}
use trackdown.Config as Config
use trackdown.Config.{Loaded, Target}
use trackdown.Command.Start.{
  Flags, Plan, Started, refused, started, Environment, Logger, auth_limiter, with_config,
  with_notifier, plan_of, with_password, with_auth, with_logger, prepare,
}
use trackdown.Command.Routes.{Endpoint, denied, throttled, Caller, App, Setting, serve_endpoint}
use trackdown.Command.Routes.Guard.{is_open, serve_endpoint-require}

-- `serve` puts the configured authentication, with its limiter, before the handlers
abbrev pub config_of : Option (Auth.Config × Limiter) → Option Auth.Config
config_of none = none
config_of (some (cfg, l)) = some cfg

abbrev pub setting_of : {L J : Type 0} → Plan → Setting L Limiter J → Setting L Limiter J
setting_of plan setting = record setting {
  auth = config_of plan.auth;
  failure_limiter = record { allow = allow };
}

-- with the flag there is no authentication; without it, one with a password
abbrev Settled : (Text → Text) → Bool → Option (Auth.Config × Limiter) → Type 0
Settled get_env true auth = auth ≡ none
Settled get_env false auth =
    (cfg : Auth.Config) × (from_env get_env ≡ some cfg)
    × (auth ≡ some (cfg, auth_limiter))
    × (cfg.password ≢ [])

abbrev Guarded : (Text → Text) → Bool → Started → Type 0
Guarded get_env b (refused e) = Unit
Guarded get_env b (started plan) = Settled get_env b plan.auth

with_password-Guarded :
    (get_env : Text → Text) (later : Option (Auth.Config × Limiter) → Started)
    → ((auth : Option (Auth.Config × Limiter))
        → Settled get_env false auth
        → Guarded get_env false (later auth))
    → (o : Option Auth.Config) → from_env get_env ≡ o
    → Guarded get_env false (with_password o later)
with_password-Guarded get_env later h none e = tt
with_password-Guarded get_env later h (some cfg) e =
    h (some (cfg, auth_limiter)) (cfg, e, refl, from_env-password get_env cfg e)

with_auth-Guarded :
    (env : Environment) (flags : Flags) (later : Option (Auth.Config × Limiter) → Started)
    → ((auth : Option (Auth.Config × Limiter))
        → Settled env.get_env flags.insecure_no_auth auth
        → Guarded env.get_env flags.insecure_no_auth (later auth))
    → Guarded env.get_env flags.insecure_no_auth (with_auth env flags later)
with_auth-Guarded env flags later = go flags.insecure_no_auth
  where
    go :
        (b : Bool)
        → ((auth : Option (Auth.Config × Limiter))
            → Settled env.get_env b auth
            → Guarded env.get_env b (later auth))
        → Guarded env.get_env b
            (if b then later none else with_password (from_env env.get_env) later)
    go true h = h none refl
    go false h = with_password-Guarded env.get_env later h (from_env env.get_env) refl

with_config-Guarded :
    (env : Environment) (b : Bool) (l : Loaded) (later : Option (List Target) → Started)
    → ((o : Option (List Target)) → Guarded env.get_env b (later o))
    → Guarded env.get_env b (with_config l later)
with_config-Guarded env b (Config.ok f) later h = h _
with_config-Guarded env b Config.unreadable later h = tt
with_config-Guarded env b Config.bad_json later h = tt
with_config-Guarded env b (Config.invalid e) later h = tt

with_notifier-Guarded :
    (env : Environment) (flags : Flags) (b : Bool) (later : Option (List Target) → Started)
    → ((o : Option (List Target)) → Guarded env.get_env b (later o))
    → Guarded env.get_env b (with_notifier env flags later)
with_notifier-Guarded env flags b later h = elim (Bool-cases (is_empty flags.config)) [
  | inl e ↦ rw e (h none)
  | inr e ↦ rw e (with_config-Guarded env b _ later h)
]

with_logger-Guarded :
    (env : Environment) (b : Bool) (o : Option Logger) (later : Logger → Started)
    → ((l : Logger) → Guarded env.get_env b (later l))
    → Guarded env.get_env b (with_logger o later)
with_logger-Guarded env b none later h = tt
with_logger-Guarded env b (some l) later h = h l

prepare-Guarded :
    (env : Environment) (flags : Flags)
    → Guarded env.get_env flags.insecure_no_auth (prepare env flags)
unfolding prepare
prepare-Guarded env flags = with_logger-Guarded env flags.insecure_no_auth _ _ (λ logger.
    with_notifier-Guarded env flags flags.insecure_no_auth _ (λ targets.
      with_auth-Guarded env flags (λ auth. started (plan_of flags logger targets auth))
        (λ auth h. h)))

-- Without `-insecure-no-auth`, a `serve` that starts has put the user and the password of its
-- environment, which is not empty, before the management endpoints and the web UI: each answers a
-- request with other credentials, or with none, by 401 or 429, and changes nothing but the limiter
-- of failed attempts.
pub serve_endpoint-prepare :
    {L J : Type 0} (env : Environment) (flags : Flags) (plan : Plan) (cfg : Auth.Config)
    (setting : Setting L Limiter J) (endpoint : Endpoint) (caller : Caller) (app : App L Limiter)
    → flags.insecure_no_auth ≡ false
    → prepare env flags ≡ started plan
    → from_env env.get_env ≡ some cfg
    → is_open endpoint ≡ false
    → caller.credentials ≢ some (cfg.username, cfg.password)
    → (cfg.password ≢ [])
      × ((serve_endpoint (setting_of plan setting) endpoint caller app).0 ≡ denied
          ⊎ (serve_endpoint (setting_of plan setting) endpoint caller app).0 ≡ throttled)
      × ((serve_endpoint (setting_of plan setting) endpoint caller app).1.ingest ≡ app.ingest)
serve_endpoint-prepare env flags plan cfg setting endpoint caller app secure starts known guards
      wrong =
    let h : Guarded env.get_env false (started plan) =
      rw secure at (rw starts at (prepare-Guarded env flags)) in
    let same : h.0 ≡ cfg = cc in
    let on : config_of plan.auth ≡ some cfg = ap config_of h.2 ∙ ap some same in
    let (answer, kept) =
      serve_endpoint-require (setting_of plan setting) cfg caller endpoint app on guards wrong in
    (from_env-password env.get_env cfg known, answer, kept)
