-- ===== src/Store/Outbox.antt =====
-- The alert outbox of store.go: alerts whose delivery failed, with the time of the next attempt.
-- Its time is the session's, which stands for `time.Now()` of the statement that runs.
use trackdown.Prelude.{
  ℕ, ◌+◌, ◌-◌, ◌*◌, Text, Bool, true, false, ◌&&◌, ◌||◌, List, [], ◌∷◌, ◌++◌, Option, none, some,
  ltb, leb, ◌==◌, if◌then◌else◌, length, get_or, take, filter, update, order_by,
}
use trackdown.Store.Types.{
  OutboxStatus, pending, delivered, dead, Time, second, current_timestamp, OutboxEntry, Tables,
}
use trackdown.Store.Query.{Query, select_rows, execute}
pub mod Backoff
pub mod Due

abbrev pub minute : Time
minute = 60 * second

abbrev pub hour : Time
hour = 60 * minute

-- `alertBackoffSchedule`
abbrev pub alert_backoff_schedule : List Time
alert_backoff_schedule = 1 * minute ∷ 5 * minute ∷ 30 * minute ∷ 2 * hour ∷ 12 * hour ∷ []

abbrev pub alert_max_attempts : ℕ
alert_max_attempts = 8

-- `alertBackoff`; the difference that stops at 0 is the first clamp of the source
unfoldable pub alert_backoff : ℕ → Time
alert_backoff attempts =
    let idx = attempts - 1 in
    let last = length alert_backoff_schedule - 1 in
    get_or alert_backoff_schedule (if leb (length alert_backoff_schedule) idx then last else idx) 0

-- `lastErr.Error()`, or "" for a nil error
abbrev pub error_text : Option Text → Text
error_text none = []
error_text (some msg) = msg

-- The row that `EnqueueAlert` inserts: one attempt is behind it.
unfoldable pub new_entry : ℕ → OutboxEntry → Option Text → Time → OutboxEntry
new_entry id e last_err now = record e {
  id = id;
  status = pending;
  attempts = 1;
  next_attempt_at = now + alert_backoff 1;
  created_at = current_timestamp now;
  last_error = error_text last_err;
}

-- `EnqueueAlert`
unfoldable pub enqueue_alert : OutboxEntry → Option Text → Query ℕ
enqueue_alert e last_err = execute (λ t now. (
  t.outbox_seq + 1,
  record t {
    outbox = t.outbox ++ (new_entry (t.outbox_seq + 1) e last_err now ∷ []);
    outbox_seq = t.outbox_seq + 1;
  },
))

abbrev pub is_pending : OutboxStatus → Bool
is_pending pending = true
is_pending _ = false

-- WHERE status = 'pending' AND next_attempt_at <= ?
unfoldable pub is_due : Time → OutboxEntry → Bool
is_due now e = is_pending e.status && leb e.next_attempt_at now

-- ORDER BY next_attempt_at ASC, id ASC
unfoldable pub due_earlier : OutboxEntry → OutboxEntry → Bool
due_earlier a b =
    ltb a.next_attempt_at b.next_attempt_at
    || (a.next_attempt_at == b.next_attempt_at && leb a.id b.id)

unfoldable pub due_rows : Time → ℕ → List OutboxEntry → List OutboxEntry
due_rows now limit rows = take limit (order_by due_earlier (filter (is_due now) rows))

-- `DueAlerts`
unfoldable pub due_alerts : Time → ℕ → Query (List OutboxEntry)
due_alerts now limit = select_rows (λ t. due_rows now limit t.outbox)

-- WHERE id = ?
unfoldable pub has_entry_id : ℕ → OutboxEntry → Bool
has_entry_id id e = e.id == id

unfoldable pub as_delivered : OutboxEntry → OutboxEntry
as_delivered e = record e { status = delivered }

-- `MarkAlertDelivered`
unfoldable pub mark_alert_delivered : ℕ → Query (Unit {0})
mark_alert_delivered id =
    execute (λ t now. (tt, record t { outbox = update (has_entry_id id) as_delivered t.outbox }))

-- The two UPDATEs of `MarkAlertFailed`: dead from the last attempt on, else due again later.
unfoldable pub as_failed : ℕ → Option Text → Time → OutboxEntry → OutboxEntry
as_failed attempts last_err now e =
    if leb alert_max_attempts attempts
    then record e { status = dead; attempts = attempts; last_error = error_text last_err }
    else record e {
      attempts = attempts;
      next_attempt_at = now + alert_backoff attempts;
      last_error = error_text last_err;
    }

-- `MarkAlertFailed`
unfoldable pub mark_alert_failed : ℕ → ℕ → Option Text → Query (Unit {0})
mark_alert_failed id attempts last_err = execute (λ t now.
    (tt, record t { outbox = update (has_entry_id id) (as_failed attempts last_err now) t.outbox }))
