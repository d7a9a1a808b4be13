-- ===== src/Command/Start.antt =====
-- cmd/trackdown/main.go: what `serve` checks and settles before it opens the store. The flag package has parsed the flags. A rate is a quotient of two natural numbers, in
-- requests per second; a negative one is not modelled.
pub mod Guarded
pub mod Guesses
use trackdown.Prelude.{
  ℕ, ◌*◌, ◌/◌, Text, codes, Bool, true, false, not, Option, none, some, List, [], ◌∷◌, ◌++◌,
  if◌then◌else◌, str_eq, is_empty, ℤ, pos, ltb_ℤ,
}
use trackdown.Calls.{
  Outcome, ok, failed, Program, Replies, Trace, ◌>>=◌, ◌>>◌, pure, fail, deferred, wrapping,
}
use trackdown.Store.Types.{second}
use trackdown.Store.Opening.{DbCall, open_store, close_store, backup_to}
use trackdown.Store.Query as Query
use trackdown.Store.Query.{Result, Session}
use trackdown.Store.Events.{delete_old_events}
use trackdown.Ratelimit.{Limiter, new_limiter}
use trackdown.Auth as Auth
use trackdown.Auth.{from_env}
use trackdown.Config as Config
use trackdown.Config.{File, Loaded, Target, load, build_notifier}
use trackdown.Command.{retention_of}

-- the flags of `serve` that it decides by
pub record Flags : Type 0 where
  pub db : Text
  pub log_format : Text
  pub insecure_no_auth : Bool
  -- `-ingest-rate-limit` is `rate / per`
  pub rate : ℕ
  pub per : ℕ
  pub config : Text
  pub retention_days : ℤ

pub data Logger : Type 0 where
  text json : Logger

-- `newLogger`
unfoldable pub new_logger : Text → Option Logger
unfolding str_eq
new_logger format =
    if str_eq format (codes "text")
    then some text
    else if str_eq format (codes "json")
    then some json
    else none

-- why `serve` returns before it opens the store
pub data Refusal : Type 0 where
  bad_log_format no_password : Refusal
  bad_config : Loaded → Refusal

-- what `serve` has settled when it starts to listen
pub record Plan : Type 0 where
  pub logger : Logger
  pub targets : Option (List Target)
  pub auth : Option (Auth.Config × Limiter)
  pub ingest_limiter : Limiter
  pub retention : Option ℤ

pub data Started : Type 0 where
  refused : Refusal → Started
  started : Plan → Started

-- the environment of the process: its variables, the files, encoding/json, and the parsing of the
-- embedded templates, which may give an error
pub record Environment : Type 0 where
  pub get_env : Text → Text
  pub read_file : Text → Option Text
  pub unmarshal : Text → Option File
  pub template_error : Option Text
  pub quote : Text → Text

-- the limiter of failed authentications: one attempt in 12 seconds, 5 at once
unfoldable pub auth_limiter : Limiter
unfolding new_limiter
auth_limiter = new_limiter (12 * second) 1 5

-- the limiter of envelopes, whose burst is cut to a whole number
unfoldable pub ingest_limiter_of : Flags → Limiter
unfolding new_limiter
ingest_limiter_of flags = new_limiter (flags.per * second) flags.rate (flags.rate * 3 / flags.per)

unfoldable pub retention_flag : ℤ → Option ℤ
unfolding retention_of
retention_flag days = if ltb_ℤ (pos 0) days then some (retention_of days) else none

-- the notifier of the configuration, if there is one
abbrev pub with_config : Loaded → (Option (List Target) → Started) → Started
with_config (Config.ok f) later = later (build_notifier f)
with_config Config.unreadable later = refused (bad_config Config.unreadable)
with_config Config.bad_json later = refused (bad_config Config.bad_json)
with_config (Config.invalid e) later = refused (bad_config (Config.invalid e))

abbrev pub with_notifier : Environment → Flags → (Option (List Target) → Started) → Started
with_notifier env flags later =
    if is_empty flags.config
    then later none
    else with_config (load env.read_file env.unmarshal flags.config) later

abbrev pub with_password : Option Auth.Config → (Option (Auth.Config × Limiter) → Started) → Started
with_password none later = refused no_password
with_password (some cfg) later = later (some (cfg, auth_limiter))

abbrev pub with_auth : Environment → Flags → (Option (Auth.Config × Limiter) → Started) → Started
with_auth env flags later =
    if flags.insecure_no_auth then later none else with_password (from_env env.get_env) later

abbrev pub with_logger : Option Logger → (Logger → Started) → Started
with_logger none later = refused bad_log_format
with_logger (some l) later = later l

abbrev pub plan_of : Flags → Logger → Option (List Target) → Option (Auth.Config × Limiter) → Plan
plan_of flags logger targets auth = record {
  logger = logger;
  targets = targets;
  auth = auth;
  ingest_limiter = ingest_limiter_of flags;
  retention = retention_flag flags.retention_days;
}

-- the checks of `serve` before it opens the store
unfoldable pub prepare : Environment → Flags → Started
unfolding new_logger load build_notifier from_env auth_limiter ingest_limiter_of retention_flag
prepare env flags = with_logger (new_logger flags.log_format) (λ logger.
    with_notifier env flags
      (λ targets. with_auth env flags (λ auth. started (plan_of flags logger targets auth))))
