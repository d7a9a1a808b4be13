-- ===== src/Store/Opening.antt =====
-- store.go: `Open`, `Close` and `BackupTo`, with the calls of database/sql that they make. The two
-- pools are the handles; `quote` is the `%q` of fmt.
pub mod Pools
use trackdown.Prelude.{
  ℕ, Text, codes, Bool, true, false, Option, none, some, List, [], ◌∷◌, ◌++◌, if◌then◌else◌, str_eq,
  ℤ, pos, signed_decimal,
}
use trackdown.Prelude.Int64.{add}
use trackdown.Calls.{
  Outcome, Program, Replies, Trace, ◌>>=◌, ◌>>◌, pure, fail, step, note, deferred,
}

-- the pools of `Store`
pub data Pool : Type 0 where
  writer reader : Pool

-- the statements that configure and copy a database
pub data Statement : Type 0 where
  busy_timeout : ℕ → Statement
  journal_mode_wal apply_schema : Statement
  vacuum_into : Text → Statement

pub data DbCall : Type 0 where
  open_pool : Pool → Text → DbCall
  set_max_open_conns : Pool → ℕ → DbCall
  exec : Pool → Statement → DbCall
  close_pool : Pool → DbCall

-- `readerPoolSize`
abbrev pub reader_pool_size : ℕ
reader_pool_size = 4

-- the name of the database, and `memoryDBCounter` after it
unfoldable pub dsn_for : Text → ℤ → Text × ℤ
unfolding str_eq signed_decimal add
dsn_for path counter =
    let next = add counter (pos 1) in
    if str_eq path (codes ":memory:")
    then (
      codes "file:trackdown-memory-" ++ signed_decimal next ++ codes "?mode=memory&cache=shared",
      next,
    )
    else (path, counter)

abbrev both_closed : List DbCall
both_closed = close_pool writer ∷ close_pool reader ∷ []

module _ (replies : Replies DbCall) (quote : Text → Text) where
  -- the loop over the two pools
  unfoldable pub set_busy_timeouts : List Pool → Program DbCall (Unit {0})
  set_busy_timeouts [] = pure tt
  set_busy_timeouts (db ∷ dbs) = do
    step replies both_closed (codes "setting busy_timeout: ") (exec db (busy_timeout 5000))
    set_busy_timeouts dbs

  -- `Open`, on the database of this name
  unfoldable pub open_dsn : Text → Text → Program DbCall (Unit {0})
  open_dsn path dsn = do
    step replies [] (codes "opening database " ++ quote path ++ codes ": ") (open_pool writer dsn)
    note (set_max_open_conns writer 1)
    step replies (close_pool writer ∷ [])
        (codes "opening database " ++ quote path ++ codes " (reader pool): ") (open_pool reader dsn)
    note (set_max_open_conns reader reader_pool_size)
    set_busy_timeouts (writer ∷ reader ∷ [])
    step replies both_closed (codes "enabling WAL mode: ") (exec writer journal_mode_wal)
    step replies both_closed (codes "applying schema: ") (exec writer apply_schema)

  -- `Open`, with `memoryDBCounter`
  unfoldable pub open_store : Text → ℤ → Trace DbCall → (Outcome (Unit {0}) × Trace DbCall) × ℤ
  unfolding dsn_for
  open_store path counter t =
      let (dsn, counter') = dsn_for path counter in (open_dsn path dsn t, counter')

  abbrev pub first_error : Option Text → Option Text → Program DbCall (Unit {0})
  first_error (some e) read_err = fail e
  first_error none (some e) = fail e
  first_error none none = pure tt

  -- `Close`
  unfoldable pub close_store : Program DbCall (Unit {0})
  close_store t =
      let write_err = replies t (close_pool writer) in
      let t' = (close_pool writer, write_err) ∷ t in
      let read_err = replies t' (close_pool reader) in
      first_error write_err read_err ((close_pool reader, read_err) ∷ t')

  -- `BackupTo`
  unfoldable pub backup_to : Text → Program DbCall (Unit {0})
  backup_to dest =
      step replies [] (codes "backing up to " ++ quote dest ++ codes ": ")
        (exec writer (vacuum_into dest))
