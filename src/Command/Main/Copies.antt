-- ===== src/Command/Main/Copies.antt =====
-- What a `backup` has done that succeeds.
use trackdown.Prelude.{◌≡◌, refl, ◌∙◌, ap, Text, Option, none, some, [], ◌∷◌, ◌++◌, ℤ, codes}
use trackdown.Calls.{
  Outcome, ok, failed, Program, Replies, Trace, ◌>>◌, ◌>>=◌, continue, pure, fail, deferred,
  wrapping,
}
use trackdown.Calls.Accepted.{Makes, Logs, accepted, step-Makes, wrapping-Makes}
use trackdown.Store.Opening.{
  DbCall, exec, vacuum_into, writer, reader, close_pool, open_store, close_store, backup_to,
  dsn_for, first_error,
}
use trackdown.Store.Opening.Pools.{opening, open_dsn-Makes}
use trackdown.Command.Main.{open_at, backup}

module _ (replies : Replies DbCall) (quote : Text → Text) where
  -- both pools are closed, with these errors, after the calls `t`
  abbrev pub closing : Option Text → Option Text → Trace DbCall → Trace DbCall
  closing a b t = (close_pool reader, b) ∷ (close_pool writer, a) ∷ t

  close_store-closing :
      (t : Trace DbCall)
      → (a : Option Text) × (b : Option Text) × ((close_store replies quote t).1 ≡ closing a b t)
  unfolding close_store pure fail
  close_store-closing t = (
    replies t (close_pool writer),
    replies ((close_pool writer, replies t (close_pool writer)) ∷ t) (close_pool reader),
    go _ _,
  )
    where
      go : (a b : Option Text) → (first_error replies quote a b (closing a b t)).1 ≡ closing a b t
      go (some e) b = refl
      go none (some e) = refl
      go none none = refl

  backup_to-Makes :
      (dest : Text) → Makes (exec writer (vacuum_into dest) ∷ []) (backup_to replies quote dest)
  unfolding backup_to
  backup_to-Makes dest = step-Makes replies _ _ _

  -- If a `backup` reports success, then it has opened the database, with every statement of `Open`
  -- accepted, copied it to the destination by one `VACUUM INTO` that was accepted, and closed both
  -- pools, with whatever errors; and it has made no other call.
  pub backup-copies :
      (path dest : Text) (counter : ℤ) (t : Trace DbCall)
      → (backup replies quote path (dest ∷ []) counter t).0 ≡ ok tt
      → (a : Option Text) × (b : Option Text) × ((backup replies quote path (dest ∷ []) counter t).1
          ≡ closing a b
              (accepted (exec writer (vacuum_into dest) ∷ opening (dsn_for path counter).0) ++ t))
  unfolding backup ◌>>◌ ◌>>=◌ deferred open_store
  backup-copies path dest counter t =
      go (wrapping (codes "opening store: ") (open_at replies quote path counter) t)
        (wrapping-Makes (opening dsn) _ _ (open_dsn-Makes replies quote path dsn) t)
    where
      dsn : Text
      dsn = (dsn_for path counter).0

      copy : Program DbCall (Unit {0})
      copy = wrapping (codes "backing up database: ") (backup_to replies quote dest)

      copy-Makes : Makes (exec writer (vacuum_into dest) ∷ []) copy
      copy-Makes =
          wrapping-Makes (exec writer (vacuum_into dest) ∷ []) (codes "backing up database: ")
            (backup_to replies quote dest) (backup_to-Makes dest)

      copies :
          (t' : Trace DbCall)
          → (copy t').0 ≡ ok tt
          → t' ≡ accepted (opening dsn) ++ t
          → (a : Option Text) × (b : Option Text) × ((close_store replies quote (copy t').1).1
              ≡ closing a b (accepted (exec writer (vacuum_into dest) ∷ opening dsn) ++ t))
      copies t' done same =
          let (a, b, closed) = close_store-closing (copy t').1 in
          (
            a,
            b,
            closed
                ∙ ap (closing a b) (
                    copy-Makes t' done ∙ ap (λ u. (exec writer (vacuum_into dest), none) ∷ u) same),
          )

      go :
          (r : Outcome (Unit {0}) × Trace DbCall)
          → Logs (opening dsn) t r
          → (continue r (λ u. deferred (close_store replies quote) copy)).0 ≡ ok tt
          → (a : Option Text) × (b : Option Text) × ((continue r
                (λ u. deferred (close_store replies quote) copy)).1
              ≡ closing a b (accepted (exec writer (vacuum_into dest) ∷ opening dsn) ++ t))
      go (ok u, t') same done = copies t' done (same refl)
      go (failed e, t') same done = cc
