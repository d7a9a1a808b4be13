-- ===== src/Examples/Startup.antt =====
-- The start of the program and its subcommands.
use trackdown.Prelude.{
  ℕ, ◌*◌, ◌+◌, ◌-◌, ◌≤◌, arith, ◌≡◌, ◌≢◌, ◌⊎◌, refl, Text, codes, true, false, Option, none, some,
  [], ◌∷◌, ◌++◌, pos, str_eq,
}
use trackdown.Calls.{Replies, step, note, pure, fail, clean_up, deferred, wrapping, ◌>>◌, ◌>>=◌}
use trackdown.Calls.Accepted.{accepted}
use trackdown.Calls.Held.{held}
use trackdown.Store.Types.{resolved, second}
use trackdown.Store.Query.{calm}
use trackdown.Store.Opening.{
  DbCall, exec, writer, vacuum_into, apply_schema, dsn_for, open_store, open_dsn, set_busy_timeouts,
  close_store, backup_to,
}
use trackdown.Store.Opening.Pools.{same_pool, effect, opening}
use trackdown.Auth.{from_env}
use trackdown.Ratelimit.{Limiter}
use trackdown.Command.Start.{
  Flags, Environment, Plan, plan_of, text, auth_limiter, new_logger, prepare,
}
use trackdown.Command.Start.Guesses.{judge, judge_all, judge_all_bound}
use trackdown.Ratelimit.Rate.{IsTimeline}
use trackdown.Auth.{passed}
use trackdown.Command.Start.Guarded.{setting_of, serve_endpoint-prepare}
use trackdown.Command.Main.{server_ended, serve, backup, collect}
use trackdown.Command.Main.Pools.{subcommands-held}
use trackdown.Command.Main.Copies.{closing, backup-copies}
use trackdown.Command.Routes.{
  management, set_status, denied, throttled, App, Setting, serve_endpoint,
}
use trackdown.Examples.Data.{shop, tables, services}
use trackdown.Examples.Pages.{ui}
use trackdown.Examples.Program.{admin, stranger}

abbrev password_only : Text → Text
password_only name = codes "secret"

abbrev environment : Environment
environment = record {
  get_env = password_only;
  read_file = λ path. none;
  unmarshal = λ content. none;
  template_error = none;
  quote = λ t. t;
}

abbrev flags : Flags
flags = record {
  db = codes "trackdown.db";
  log_format = codes "text";
  insecure_no_auth = false;
  rate = 20;
  per = 1;
  config = [];
  retention_days = pos 0;
}

abbrev plan : Plan
plan =
    plan_of flags text none
      (some (record { username = codes "secret"; password = codes "secret" }, auth_limiter))

abbrev setting : Setting ℕ Limiter Text
setting = record {
  services = services;
  limiter = none;
  has_notifier = false;
  auth = none;
  failure_limiter = record { allow = λ ip now l. (true, l) };
  ui = ui;
  templates = [];
}

abbrev app : App ℕ Limiter
app = record {
  ingest = record { session = calm tables 9; limiter = 0; pending = [] };
  failures = auth_limiter;
}

serve_endpoint-prepare_example :
    (codes "secret" ≢ [])
    × ((serve_endpoint
            (setting_of plan setting)
            (management (set_status resolved shop (codes "1")))
            stranger
            app).0
          ≡ denied
        ⊎ (serve_endpoint
            (setting_of plan setting)
            (management (set_status resolved shop (codes "1")))
            stranger
            app).0
          ≡ throttled)
    × ((serve_endpoint
          (setting_of plan setting)
          (management (set_status resolved shop (codes "1")))
          stranger
          app).1.ingest
        ≡ app.ingest)
unfolding prepare new_logger str_eq from_env
serve_endpoint-prepare_example =
    serve_endpoint-prepare environment flags plan
      (record { username = codes "secret"; password = codes "secret" }) setting
      (management (set_status resolved shop (codes "1"))) stranger app refl refl refl refl (λ e. cc)

judge_all_bound_example :
    ((judge_all admin
          (codes "10.0.0.1")
          ((none, 5) ∷ (some (codes "admin", codes "guess"), 9) ∷ [])
          auth_limiter).0
        * (12 * second)
      ≤ 5 * (12 * second) + (20 - 5))
    × ((judge admin
          (codes "10.0.0.1")
          (some (codes "admin", codes "secret"), 20)
          (judge_all admin
            (codes "10.0.0.1")
            ((none, 5) ∷ (some (codes "admin", codes "guess"), 9) ∷ [])
            auth_limiter).1).0
        ≡ passed)
unfolding IsTimeline
judge_all_bound_example =
    judge_all_bound admin (codes "10.0.0.1") none 5 ((some (codes "admin", codes "guess"), 9) ∷ [])
      20 ((λ e. cc), ((λ e. cc), tt)) (omega arith, omega arith)

-- the schema is refused, and all else accepted
abbrev refuses_schema : Replies DbCall
refuses_schema t (exec p apply_schema) = some (codes "disk full")
refuses_schema t _ = none

subcommands-held_example :
    (held same_pool effect (serve refuses_schema environment flags (pos 0) (server_ended none) []).1
      ≡ some [])
    × (held same_pool effect
          (backup refuses_schema environment.quote flags.db (codes "copy.db" ∷ []) (pos 0) []).1
        ≡ some [])
    × (held same_pool effect
          (collect refuses_schema environment.quote flags.db
            (pos 0)
            (λ x. pos 0)
            (pos 30)
            (calm tables 9)
            []).1
        ≡ some [])
subcommands-held_example =
    subcommands-held refuses_schema environment flags (pos 0) (server_ended none)
      (codes "copy.db" ∷ []) (λ x. pos 0) (pos 30) (calm tables 9) [] refl

abbrev accepts_all : {C : Type 0} → Replies C
accepts_all t c = none

abbrev plain : Text → Text
plain t = t

backup-copies_example :
    (a : Option Text) × (b : Option Text) × ((backup accepts_all plain
        (codes "t.db")
        (codes "copy.db" ∷ [])
        (pos 0)
        []).1
      ≡ closing accepts_all plain a b (
          accepted (
            exec writer (vacuum_into (codes "copy.db"))
            ∷ opening (dsn_for (codes "t.db") (pos 0)).0)
          ++ []))
unfolding backup open_store open_dsn set_busy_timeouts dsn_for str_eq close_store backup_to step
    note pure fail clean_up deferred wrapping ◌>>◌ ◌>>=◌
backup-copies_example =
    backup-copies accepts_all plain (codes "t.db") (codes "copy.db") (pos 0) [] refl
