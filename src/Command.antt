-- ===== src/Command.antt =====
-- cmd/trackdown/main.go: the retention of events, as `serve` starts it and as `gc` runs it once.
-- The flags are parsed, and the store is open.
pub mod Start
pub mod Main
pub mod Retention
pub mod Routes
pub mod System
use trackdown.Prelude.{ℕ, ◌*◌, Bool, true, false, List, [], ◌∷◌, if◌then◌else◌, ℤ, pos, ltb_ℤ}
use trackdown.Prelude.Int64.{multiply}
use trackdown.Store.Types.{Time}
use trackdown.Store.Outbox.{hour}
use trackdown.Store.Query as Query
use trackdown.Store.Query.{Result, Session}
use trackdown.Store.Events.{Zone, delete_old_events}

-- `time.Duration(days) * 24 * time.Hour`, a product of 64-bit integers
unfoldable pub retention_of : ℤ → ℤ
unfolding multiply
retention_of days = multiply (multiply days 24) hour

-- what `gc` reports: the days are not above 0, the store failed, or so many events are gone
pub data Collected : Type 0 where
  bad_days failed : Collected
  deleted : ℕ → Collected

abbrev collected : Result ℕ → Collected
collected (Query.ok n) = deleted n
collected (Query.err e) = failed

-- `gc`
unfoldable pub gc : Zone → ℤ → Session → Collected × Session
unfolding retention_of delete_old_events
gc zone days s =
    let (r, s') = delete_old_events zone (retention_of days) s in
    if ltb_ℤ (pos 0) days then (collected r, s') else (bad_days, s)

-- `runOnce`: a failure is logged and passed over
unfoldable pub run_once : Zone → ℤ → Session → Session
unfolding delete_old_events
run_once zone retention s = (delete_old_events zone retention s).1

-- the loop over the ticks, from the time of each
unfoldable pub run_ticks : Zone → ℤ → List Time → Session → Session
unfolding run_once
run_ticks zone retention [] s = s
run_ticks zone retention (now ∷ ticks) s =
    run_ticks zone retention ticks (run_once zone retention (record s { now = now }))

-- `runRetentionLoop`: once at the start, and then at each tick
unfoldable pub run_retention_loop : Zone → ℤ → List Time → Session → Session
unfolding run_ticks
run_retention_loop zone retention ticks s =
    run_ticks zone retention ticks (run_once zone retention s)

-- what `serve` does about retention
unfoldable pub start_retention : Zone → ℤ → List Time → Session → Session
unfolding run_retention_loop retention_of
start_retention zone days ticks s =
    if ltb_ℤ (pos 0) days then run_retention_loop zone (retention_of days) ticks s else s
