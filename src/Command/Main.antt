-- ===== src/Command/Main.antt =====
-- cmd/trackdown/main.go: `main`, and what `serve`, `gc` and `backup` do with the store around their
-- work. `memoryDBCounter` is an argument, and what serving comes to is given.
pub mod Pools
pub mod Copies
use trackdown.Prelude.{
  ℕ, Text, codes, Bool, true, false, Option, none, some, List, [], ◌∷◌, ◌++◌, if◌then◌else◌, str_eq,
  ℤ, pos, ltb_ℤ,
}
use trackdown.Calls.{
  Outcome, ok, failed, Program, Replies, Trace, ◌>>◌, pure, fail, deferred, wrapping,
}
use trackdown.Store.Opening.{DbCall, open_store, close_store, backup_to}
use trackdown.Store.Query.{Session}
use trackdown.Store.Events.{Zone}
use trackdown.Command.{Collected, bad_days, gc}
use trackdown.Command.Start.{Flags, Environment, Plan, Refusal, Started, prepare}
use trackdown.Command.Start as Start

-- How serving ends: `ListenAndServe` returns, an interrupt comes and `Shutdown` returns, or the
-- service manager's loop returns. Each has an error or none; `http.ErrServerClosed` is none.
pub data Ending : Type 0 where
  server_ended interrupted service_ended : Option Text → Ending

-- what `serve` returns: it was refused, or it had this plan and returned nil or an error
pub data Served : Type 0 where
  refused : Refusal → Served
  returned : Plan → Outcome (Unit {0}) → Served

pub data Cleared : Type 0 where
  cleared : Collected → Cleared
  no_store : Text → Cleared

-- the subcommands
pub data Subcommand : Type 0 where
  serve_command gc_command backup_command service_command : List Text → Subcommand
  version_command usage_command : Subcommand

-- the `switch` of `main`, on the arguments after the program's name
unfoldable pub subcommand_of : List Text → Subcommand
unfolding str_eq
subcommand_of [] = usage_command
subcommand_of (name ∷ args) =
    if str_eq name (codes "serve")
    then serve_command args
    else if str_eq name (codes "gc")
    then gc_command args
    else if str_eq name (codes "backup")
    then backup_command args
    else if str_eq name (codes "service")
    then service_command args
    else if str_eq name (codes "version")
    then version_command
    else usage_command

module _ (replies : Replies DbCall) where
  abbrev or_fail : Option Text → Program DbCall (Unit {0})
  or_fail none = pure tt
  or_fail (some e) = fail e

  abbrev pub ending_error : Ending → Option Text
  ending_error (server_ended e) = e
  ending_error (interrupted e) = e
  ending_error (service_ended e) = e

  -- `serve` from the web UI on, with the store open
  unfoldable pub listen : Environment → Ending → Program DbCall (Unit {0})
  listen env ending = elim env.template_error [
    | some e ↦ fail (codes "building web UI: " ++ e)
    | none ↦ or_fail (ending_error ending)
  ]

  abbrev pub open_at : (Text → Text) → Text → ℤ → Program DbCall (Unit {0})
  open_at quote path counter t = (open_store replies quote path counter t).0

  -- `serve` with the store
  unfoldable pub run_plan : Environment → Text → ℤ → Ending → Program DbCall (Unit {0})
  run_plan env path counter ending = do
    wrapping (codes "opening store: ") (open_at env.quote path counter)
    deferred (close_store replies env.quote) (listen env ending)

  abbrev pub serve_prepared :
      Environment → Text → ℤ → Ending → Started → Trace DbCall → Served × Trace DbCall
  serve_prepared env path counter ending (Start.refused e) t = (refused e, t)
  serve_prepared env path counter ending (Start.started plan) t =
      let (r, t') = run_plan env path counter ending t in (returned plan r, t')

  -- `serve`
  unfoldable pub serve : Environment → Flags → ℤ → Ending → Trace DbCall → Served × Trace DbCall
  unfolding prepare run_plan
  serve env flags counter ending = serve_prepared env flags.db counter ending (prepare env flags)

  -- `backup`, with the arguments that are left after the flags
  unfoldable pub backup : (Text → Text) → Text → List Text → ℤ → Program DbCall (Unit {0})
  unfolding open_store
  backup quote path (dest ∷ []) counter = do
    wrapping (codes "opening store: ") (open_at quote path counter)
    deferred (close_store replies quote)
        (wrapping (codes "backing up database: ") (backup_to replies quote dest))
  backup quote path _ counter = fail (codes "usage: trackdown backup -db trackdown.db <dest-path>")

  abbrev pub gc_opened :
      (Text → Text)
      → Zone
      → ℤ
      → Session
      → Outcome (Unit {0}) × Trace DbCall
      → (Cleared × Session) × Trace DbCall
  gc_opened quote zone days s (ok u, t) =
      let (c, s') = gc zone days s in ((cleared c, s'), (close_store replies quote t).1)
  gc_opened quote zone days s (failed e, t) = ((no_store (codes "opening store: " ++ e), s), t)

  -- `gc` from its flags on
  unfoldable pub collect :
      (Text → Text)
      → Text
      → ℤ
      → Zone
      → ℤ
      → Session
      → Trace DbCall
      → (Cleared × Session) × Trace DbCall
  unfolding open_store gc
  collect quote path counter zone days s t =
      if ltb_ℤ (pos 0) days
      then gc_opened quote zone days s (open_at quote path counter t)
      else ((cleared bad_days, s), t)
