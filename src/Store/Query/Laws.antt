-- ===== src/Store/Query/Laws.antt =====
-- Laws of the statements.
use trackdown.Prelude.{◌≡◌, refl, ◌⊎◌, inl, inr, Bool, true, false, List, [], ◌∷◌, Option, arith}
use trackdown.Store.Types.{Time, Tables}
use trackdown.Store.Query.{
  Result, ok, err, DbError, Session, Query, select_row, select_rows, execute, transaction,
}

-- `m` leaves the tables and the clock as they are, whatever it returns.
abbrev pub Reads {ℓ} : {A : Type ℓ} → Query A → Type 0
Reads m = (s : Session) → (m s).1.tables ≡ s.tables

module _ {ℓ} {A : Type ℓ} where
  pub select_row-Reads : (q : Tables → Option A) → Reads (select_row q)
  unfolding select_row
  select_row-Reads q s = ground arith

  pub select_rows-Reads : (q : Tables → A) → Reads (select_rows q)
  unfolding select_rows
  select_rows-Reads q s = ground arith

  -- a statement that writes either fails, and changes nothing, or does its work
  pub execute_keeps {κ} :
      (P : Tables → Type κ) (work : Tables → Time → A × Tables) (s : Session)
      → P s.tables
      → P (work s.tables s.now).1
      → P (execute work s).1.tables
  unfolding execute
  execute_keeps P work s before after = keep s.faults
    where
      keep : (fs : List Bool) → P (execute work (record s { faults = fs })).1.tables
      keep [] = after
      keep (true ∷ fs) = before
      keep (false ∷ fs) = after

  -- A transaction that does not return a value has changed no table.
  pub transaction_atomic :
      (body : Query (Bool × A)) (s : Session) {e : DbError}
      → (transaction body s).0 ≡ err e
      → (transaction body s).1.tables ≡ s.tables
  unfolding transaction
  transaction_atomic body s h = ground arith

pub Result-cases {ℓ} :
    {A : Type ℓ} (r : Result A) → ((a : A) × (r ≡ ok a)) ⊎ ((e : DbError) × (r ≡ err e))
Result-cases (ok a) = inl (a, refl)
Result-cases (err e) = inr (e, refl)
