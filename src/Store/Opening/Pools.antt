-- ===== src/Store/Opening/Pools.antt =====
-- `Open` leaves no pool behind when it fails, and `Close` none at all.
use trackdown.Prelude.{
  ℕ, take, refl, Text, Bool, true, false, Option, none, some, List, [], ◌∷◌, ◌++◌, ℤ, codes,
}
use trackdown.Calls.{Program, Replies, step, pure, fail}
use trackdown.Calls.Held.{
  Effect, opens, closes, neither, Holds, Ends, >>-Holds, step-Holds, note-Holds,
}
use trackdown.Calls.Accepted.{Makes, >>-Makes, note-Makes, step-Makes}
use trackdown.Store.Opening.{
  Pool, writer, reader, Statement, busy_timeout, journal_mode_wal, apply_schema, DbCall, open_pool,
  set_max_open_conns, exec, close_pool, reader_pool_size, set_busy_timeouts, open_dsn, open_store,
  close_store, first_error, dsn_for, backup_to, vacuum_into,
}

abbrev pub same_pool : Pool → Pool → Bool
same_pool writer writer = true
same_pool reader reader = true
same_pool _ _ = false

abbrev pub effect : DbCall → Effect Pool
effect (open_pool p dsn) = opens p
effect (set_max_open_conns p n) = neither
effect (exec p statement) = neither
effect (close_pool p) = closes p

-- a program on pools
abbrev pub Keeps : List Pool → List Pool → List Pool → Program DbCall (Unit {0}) → Type 0
Keeps = Holds same_pool effect

abbrev pub both : List Pool
both = reader ∷ writer ∷ []

module _ (replies : Replies DbCall) (quote : Text → Text) where
  exec-Keeps :
      (what : Text) (p : Pool) (statement : Statement)
      → Keeps both both []
          (step replies (close_pool writer ∷ close_pool reader ∷ []) what (exec p statement))
  exec-Keeps what p statement =
      step-Holds same_pool effect replies both both [] (close_pool writer ∷ close_pool reader ∷ [])
        what (exec p statement) ((writer, refl), ((reader, refl), tt)) refl (λ e. refl)

  set_busy_timeouts-Keeps :
      (dbs : List Pool) → Keeps both both [] (set_busy_timeouts replies quote dbs)
  unfolding set_busy_timeouts
  set_busy_timeouts-Keeps [] = unfold pure in λ t h. h
  set_busy_timeouts-Keeps (db ∷ dbs) =
      >>-Holds same_pool effect both both both [] _ _
        (exec-Keeps (codes "setting busy_timeout: ") db (busy_timeout 5000))
        (set_busy_timeouts-Keeps dbs)

  open_dsn-Keeps : (path dsn : Text) → Keeps [] both [] (open_dsn replies quote path dsn)
  unfolding open_dsn
  open_dsn-Keeps path dsn =
      >>-Holds same_pool effect [] (writer ∷ []) both [] _ _
        (step-Holds same_pool effect replies [] (writer ∷ []) [] [] _ (open_pool writer dsn) tt refl
          (λ e. refl))
        (>>-Holds same_pool effect (writer ∷ []) (writer ∷ []) both [] _ _
          (note-Holds same_pool effect (writer ∷ []) (writer ∷ []) [] (set_max_open_conns writer 1)
            refl)
          (>>-Holds same_pool effect (writer ∷ []) both both [] _ _
            (step-Holds same_pool effect replies (writer ∷ []) both [] (close_pool writer ∷ []) _
              (open_pool reader dsn) ((writer, refl), tt) refl (λ e. refl))
            (>>-Holds same_pool effect both both both [] _ _
              (note-Holds same_pool effect both both [] (set_max_open_conns reader reader_pool_size)
                refl)
              (>>-Holds same_pool effect both both both [] _ _
                (set_busy_timeouts-Keeps (writer ∷ reader ∷ []))
                (>>-Holds same_pool effect both both both [] _ _
                  (exec-Keeps (codes "enabling WAL mode: ") writer journal_mode_wal)
                  (exec-Keeps (codes "applying schema: ") writer apply_schema))))))

  -- If `Open` fails, it has closed whichever pools it had opened; if it succeeds, it holds both.
  pub open_store-Holds :
      (path : Text) (counter : ℤ)
      → Keeps [] both [] (λ t. (open_store replies quote path counter t).0)
  unfolding open_store
  open_store-Holds path counter = open_dsn-Keeps path (dsn_for path counter).0

  pub close_store-Keeps : Keeps both [] [] (close_store replies quote)
  unfolding close_store pure fail
  close_store-Keeps t h =
      go (replies t (close_pool writer))
        (replies ((close_pool writer, replies t (close_pool writer)) ∷ t) (close_pool reader))
    where
      go :
          (a b : Option Text)
          → Ends same_pool effect [] []
              (first_error replies quote a b ((close_pool reader, b) ∷ (close_pool writer, a) ∷ t))
      go (some e) b = rw h refl
      go none (some e) = rw h refl
      go none none = rw h refl

  pub backup_to-Keeps : (dest : Text) → Keeps both both both (backup_to replies quote dest)
  unfolding backup_to
  backup_to-Keeps dest =
      step-Holds same_pool effect replies both both both [] _ (exec writer (vacuum_into dest)) tt
        refl (λ e. refl)

abbrev timeouts : List Pool → List DbCall
timeouts [] = []
timeouts (db ∷ dbs) = timeouts dbs ++ exec db (busy_timeout 5000) ∷ []

-- the calls that open a database, the latest first
abbrev pub opening : Text → List DbCall
opening dsn =
    exec writer apply_schema
    ∷ exec writer journal_mode_wal
    ∷ exec reader (busy_timeout 5000)
    ∷ exec writer (busy_timeout 5000)
    ∷ set_max_open_conns reader reader_pool_size
    ∷ open_pool reader dsn
    ∷ set_max_open_conns writer 1
    ∷ open_pool writer dsn
    ∷ []

module _ (replies : Replies DbCall) (quote : Text → Text) where
  set_busy_timeouts-Makes :
      (dbs : List Pool) → Makes (timeouts dbs) (set_busy_timeouts replies quote dbs)
  unfolding set_busy_timeouts pure
  set_busy_timeouts-Makes [] = λ t e. refl
  set_busy_timeouts-Makes (db ∷ dbs) =
      >>-Makes (exec db (busy_timeout 5000) ∷ []) (timeouts dbs) _ _ (step-Makes replies _ _ _)
        (set_busy_timeouts-Makes dbs)

  -- An `Open` that succeeds has made exactly these calls, and each was accepted.
  pub open_dsn-Makes : (path dsn : Text) → Makes (opening dsn) (open_dsn replies quote path dsn)
  unfolding open_dsn
  open_dsn-Makes path dsn =
      let later : ℕ → List DbCall = λ n. take n (opening dsn) in
      >>-Makes (open_pool writer dsn ∷ []) (later 7) _ _ (step-Makes replies _ _ _) (
        >>-Makes (set_max_open_conns writer 1 ∷ []) (later 6) _ _ (note-Makes _) (
          >>-Makes (open_pool reader dsn ∷ []) (later 5) _ _ (step-Makes replies _ _ _) (
            >>-Makes (set_max_open_conns reader reader_pool_size ∷ []) (later 4) _ _ (note-Makes _)
              (>>-Makes (timeouts (writer ∷ reader ∷ [])) (later 2) _ _
                (set_busy_timeouts-Makes (writer ∷ reader ∷ []))
                (>>-Makes (exec writer journal_mode_wal ∷ []) (later 1) _ _
                  (step-Makes replies _ _ _) (step-Makes replies _ _ _))))))
