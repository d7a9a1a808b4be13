-- ===== src/Store/Query.antt =====
-- How database/sql runs statements for store.go. A session holds the tables, the time, and what
-- the environment does to the next statements: a `true` makes one fail (a lock, a full disk, a
-- canceled context), and when the list is used up all succeed. A failed statement changes nothing.
pub mod Laws
use trackdown.Prelude.{ℕ, Text, Bool, true, false, Option, none, some, List, [], ◌∷◌}
use trackdown.Store.Types.{Time, Tables}

pub data DbError : Type 0 where
  -- sql.ErrNoRows
  no_rows : DbError
  -- any other failure
  failure : DbError
  -- a UNIQUE constraint refuses the row
  constraint : DbError

pub data Result {ℓ} (A : Type ℓ) : Type ℓ where
  ok : A → Result A
  err : DbError → Result A

pub record Session : Type 0 where
  pub tables : Tables
  pub now : Time
  pub faults : List Bool

-- A session in which no statement fails.
abbrev pub calm : Tables → Time → Session
calm t now = record { tables = t; now = now; faults = [] }

abbrev pub Query {ℓ} : Type ℓ → Type ℓ
Query A = Session → Result A × Session

abbrev pub pure {ℓ} : {A : Type ℓ} → A → Query A
pure a s = (ok a, s)

abbrev pub fail {ℓ} : {A : Type ℓ} → DbError → Query A
fail e s = (err e, s)

abbrev pub continue {ℓ κ} :
    {A : Type ℓ} {B : Type κ} → Result A → (A → Query B) → Session → Result B × Session
continue (ok a) f s = f a s
continue (err e) f s = (err e, s)

infixl 5 ◌>>=◌ ◌>>◌
abbrev pub ◌>>=◌ {ℓ κ} : {A : Type ℓ} {B : Type κ} → Query A → (A → Query B) → Query B
◌>>=◌ m f s = continue (m s).0 f (m s).1

abbrev pub ◌>>◌ {ℓ κ} : {A : Type ℓ} {B : Type κ} → Query A → Query B → Query B
m >> n = m >>= λ _. n

-- The error as a value, for code that looks at it.
abbrev pub attempt {ℓ} : {A : Type ℓ} → Query A → Query (Result A)
attempt m s = (ok (m s).0, (m s).1)

abbrev pub next_fails : List Bool → Bool
next_fails [] = false
next_fails (b ∷ bs) = b

abbrev later_faults : List Bool → List Bool
later_faults [] = []
later_faults (b ∷ bs) = bs

abbrev settle {ℓ} : {A : Type ℓ} → Bool → Session → Result A × Tables → Result A × Session
settle true s r = (err failure, record s { faults = later_faults s.faults })
settle false s r = (r.0, record s { tables = r.1; faults = later_faults s.faults })

-- One statement: what it returns and does to the tables at a time.
unfoldable pub statement {ℓ} : {A : Type ℓ} → (Tables → Time → Result A × Tables) → Query A
statement run s = settle (next_fails s.faults) s (run s.tables s.now)

-- `Row.Scan` of a query that may find nothing.
abbrev pub scan_row {ℓ} : {A : Type ℓ} → Option A → Result A
scan_row none = err no_rows
scan_row (some a) = ok a

-- A SELECT: one row, or all.
unfoldable pub select_row {ℓ} : {A : Type ℓ} → (Tables → Option A) → Query A
unfolding statement
select_row q = statement (λ t _. (scan_row (q t), t))

unfoldable pub select_rows {ℓ} : {A : Type ℓ} → (Tables → A) → Query A
unfolding statement
select_rows q = statement (λ t _. (ok (q t), t))

-- A statement that writes and returns no row.
unfoldable pub execute {ℓ} : {A : Type ℓ} → (Tables → Time → A × Tables) → Query A
unfolding statement
execute w = statement (λ t now. (ok (w t now).0, (w t now).1))

-- The statements that only reach the database: BEGIN, COMMIT, PRAGMA.
unfoldable pub reach : Query (Unit {0})
unfolding statement
reach = statement (λ t _. (ok tt, t))

abbrev pub settle_tx {ℓ} : {A : Type ℓ} → Tables → Result (Bool × A) × Session → Result A × Session
settle_tx before (ok (true, a), s) = (ok a, s)
settle_tx before (ok (false, a), s) = (ok a, record s { tables = before })
settle_tx before (err e, s) = (err e, record s { tables = before })

-- BeginTx with `defer tx.Rollback()`: the body says whether its COMMIT went through; all else, an
-- error or an early return, is rolled back.
unfoldable pub transaction {ℓ} : {A : Type ℓ} → Query (Bool × A) → Query A
unfolding reach
transaction body = reach >>= λ _ s. settle_tx s.tables (body s)
