-- ===== src/Command/Main/Pools.antt =====
-- What `serve`, `gc` and `backup` leave behind, and what a backup has done that succeeds.
use trackdown.Prelude.{
  ◌≡◌, Text, Option, none, some, List, [], ◌∷◌, ◌++◌, ℤ, codes, Bool-cases, inl, inr, ltb_ℤ, pos,
}
use trackdown.Calls.{
  Outcome, ok, failed, Program, Replies, Trace, ◌>>◌, pure, fail, deferred, wrapping,
}
use trackdown.Calls.Held.{held, Ends, Ends-held, >>-Holds, deferred-Holds, wrapping-Holds}
use trackdown.Store.Opening.{DbCall, close_store}
use trackdown.Store.Opening.Pools.{
  same_pool, effect, Keeps, both, open_store-Holds, close_store-Keeps, backup_to-Keeps,
}
use trackdown.Store.Query.{Session}
use trackdown.Command.Start.{Flags, Environment, Started, prepare}
use trackdown.Command.Start as Start
use trackdown.Store.Events.{Zone}
use trackdown.Command.Main.{
  Ending, listen, or_fail, ending_error, open_at, run_plan, serve_prepared, serve, backup,
  gc_opened, collect,
}

module _ (replies : Replies DbCall) where
  or_fail-Keeps : (o : Option Text) → Keeps both both both (or_fail replies o)
  unfolding pure fail
  or_fail-Keeps none t h = h
  or_fail-Keeps (some e) t h = h

  listen-Keeps :
      (env : Environment) (ending : Ending) → Keeps both both both (listen replies env ending)
  unfolding listen fail
  listen-Keeps env ending = go env.template_error
    where
      go :
          (o : Option Text)
          → Keeps both both both (elim o [
            | some e ↦ fail (codes "building web UI: " ++ e)
            | none ↦ or_fail replies (ending_error replies ending)
          ])
      go (some e) = λ t h. h
      go none = or_fail-Keeps (ending_error replies ending)

  -- the store is open while a program runs, and closed after it
  around-Keeps :
      (quote : Text → Text) (path : Text) (counter : ℤ) (p : Program DbCall (Unit {0}))
      → Keeps both both both p
      → Keeps [] [] [] (
          wrapping (codes "opening store: ") (open_at replies quote path counter)
          >> deferred (close_store replies quote) p)
  around-Keeps quote path counter p h =
      >>-Holds same_pool effect [] both [] [] _ _
        (wrapping-Holds same_pool effect [] both [] _ _
          (open_store-Holds replies quote path counter))
        (deferred-Holds same_pool effect both both both [] [] _ p (close_store-Keeps replies quote)
          (close_store-Keeps replies quote) h)

  backup-Keeps :
      (quote : Text → Text) (path : Text) (args : List Text) (counter : ℤ)
      → Keeps [] [] [] (backup replies quote path args counter)
  unfolding backup
  backup-Keeps quote path (dest ∷ []) counter =
      around-Keeps quote path counter _
        (wrapping-Holds same_pool effect both both both _ _ (backup_to-Keeps replies quote dest))
  backup-Keeps quote path [] counter = unfold fail in λ t h. h
  backup-Keeps quote path (a ∷ b ∷ args) counter = unfold fail in λ t h. h

  serve_prepared-held :
      (env : Environment) (path : Text) (counter : ℤ) (ending : Ending) (s : Started)
      (t : Trace DbCall)
      → held same_pool effect t ≡ some []
      → held same_pool effect (serve_prepared replies env path counter ending s t).1 ≡ some []
  unfolding run_plan
  serve_prepared-held env path counter ending (Start.refused e) t h = h
  serve_prepared-held env path counter ending (Start.started plan) t h =
      Ends-held same_pool effect [] _ (
        around-Keeps env.quote path counter (listen replies env ending) (listen-Keeps env ending) t
          h)

  gc_opened-held :
      (quote : Text → Text) (zone : Zone) (days : ℤ) (s : Session)
      (r : Outcome (Unit {0}) × Trace DbCall)
      → Ends same_pool effect both [] r
      → held same_pool effect (gc_opened replies quote zone days s r).1 ≡ some []
  gc_opened-held quote zone days s (ok u, t) h =
      Ends-held same_pool effect [] _ (close_store-Keeps replies quote t h)
  gc_opened-held quote zone days s (failed e, t) h = h

  collect-held :
      (quote : Text → Text) (path : Text) (counter : ℤ) (zone : Zone) (days : ℤ) (s : Session)
      (t : Trace DbCall)
      → held same_pool effect t ≡ some []
      → held same_pool effect (collect replies quote path counter zone days s t).1 ≡ some []
  unfolding collect
  collect-held quote path counter zone days s t h = elim (Bool-cases (ltb_ℤ (pos 0) days)) [
    | inl e ↦
        rw e (gc_opened-held quote zone days s _ (open_store-Holds replies quote path counter t h))
    | inr e ↦ rw e h
  ]

  -- Whatever errors the database, the configuration, the templates or the server give, a `serve`, a
  -- `backup` and a `gc` that return hold no connection pool: each pool that was opened is closed
  -- exactly once, and none is closed that is not open.
  pub subcommands-held :
      (env : Environment) (flags : Flags) (counter : ℤ) (ending : Ending) (args : List Text)
      (zone : Zone) (days : ℤ) (s : Session) (t : Trace DbCall)
      → held same_pool effect t ≡ some []
      → (held same_pool effect (serve replies env flags counter ending t).1 ≡ some [])
        × (held same_pool effect (backup replies env.quote flags.db args counter t).1 ≡ some [])
        × (held same_pool effect (collect replies env.quote flags.db counter zone days s t).1
            ≡ some [])
  unfolding serve
  subcommands-held env flags counter ending args zone days s t h = (
    serve_prepared-held env flags.db counter ending (prepare env flags) t h,
    Ends-held same_pool effect [] _ (backup-Keeps env.quote flags.db args counter t h),
    collect-held env.quote flags.db counter zone days s t h,
  )
