-- ===== src/Store/Events.antt =====
-- The events of store.go: `SaveEvent` with the issue that it creates or updates, the look-ups, and
-- the retention's `DeleteOldEvents`.
pub mod Save
pub mod Stored
pub mod Held
pub mod Invariant
pub mod Retention
pub mod Others
pub mod Tracker
use trackdown.Prelude.Int64.{negation}
use trackdown.Prelude.{
  ℤ, pos, ltb_ℤ, ◌+ℤ◌, ℕ, ◌+◌, ◌-◌, Text, str_eq, Bool, true, false, not, ◌&&◌, Option, none, some,
  List, ◌∷◌, [], ◌++◌, map, ltb, leb, ◌==◌, ◌||◌, if◌then◌else◌, filter, find, update, count_where,
  order_by, is_some,
}
use mathlib.Core.Option
use trackdown.Protocol.Types.{Event, Timestamp, message_string}
use trackdown.Store.Types.{
  IssueStatus, unresolved, resolved, Time, current_timestamp, IssueRow, EventRow, Tables,
}
use trackdown.Store.Query.{
  Result, ok, err, no_rows, constraint, Session, Query, pure, fail, statement, select_row,
  select_rows, execute, reach, transaction, attempt, ◌>>=◌, ◌>>◌,
}

-- WHERE project_id = ? AND event_id = ?
unfoldable pub is_event : Text → Text → EventRow → Bool
is_event project_id event_id e = str_eq e.project_id project_id && str_eq e.event_id event_id

-- WHERE project_id = ? AND fingerprint = ?
unfoldable pub has_fingerprint : Text → Text → IssueRow → Bool
has_fingerprint project_id fingerprint i =
    str_eq i.project_id project_id && str_eq i.fingerprint fingerprint

abbrev pub find_event : Text → Text → Tables → Option EventRow
find_event project_id event_id t = find (is_event project_id event_id) t.events

abbrev pub find_issue : Text → Text → Tables → Option IssueRow
find_issue project_id fingerprint t = find (has_fingerprint project_id fingerprint) t.issues

-- CASE WHEN status = 'resolved' THEN 'unresolved' ELSE status END
unfoldable pub reopened : IssueStatus → IssueStatus
reopened resolved = unresolved
reopened status = status

-- DO UPDATE SET last_seen = …, event_count = event_count + 1, status = CASE …
unfoldable pub seen_again : Time → IssueRow → IssueRow
seen_again now i = record i {
  last_seen = current_timestamp now;
  event_count = i.event_count + 1;
  status = reopened i.status;
}

-- INSERT INTO issues … VALUES (?, ?, ?, 1)
unfoldable pub new_issue : ℕ → Text → Text → Text → Time → IssueRow
new_issue id project_id fingerprint title now = record {
  id = id;
  project_id = project_id;
  fingerprint = fingerprint;
  title = title;
  status = unresolved;
  first_seen = current_timestamp now;
  last_seen = current_timestamp now;
  event_count = 1;
}

abbrev upsert_found : Text → Text → Text → Tables → Time → Option IssueRow → ℕ × Tables
upsert_found project_id fingerprint title t now (some i) = (
  i.id,
  record t { issues = update (has_fingerprint project_id fingerprint) (seen_again now) t.issues },
)
upsert_found project_id fingerprint title t now none = (
  t.issue_seq + 1,
  record t {
    issues = t.issues ++ (new_issue (t.issue_seq + 1) project_id fingerprint title now ∷ []);
    issue_seq = t.issue_seq + 1;
  },
)

-- INSERT INTO issues … ON CONFLICT(project_id, fingerprint) DO UPDATE … RETURNING id
unfoldable pub upsert_issue : Text → Text → Text → Tables → Time → ℕ × Tables
upsert_issue project_id fingerprint title t now =
    upsert_found project_id fingerprint title t now (find_issue project_id fingerprint t)

-- The row that the last INSERT of `SaveEvent` writes.
unfoldable pub new_event : ℕ → Text → ℕ → Event → Text → Time → EventRow
new_event id project_id issue_id ev raw now = record {
  id = id;
  project_id = project_id;
  issue_id = some issue_id;
  event_id = ev.event_id;
  received_at = current_timestamp now;
  event_timestamp = ev.timestamp;
  level = ev.level;
  platform = ev.platform;
  message = message_string ev.message;
  payload = raw;
}

-- INSERT INTO events, under UNIQUE(project_id, event_id)
unfoldable pub insert_event : Text → ℕ → Event → Text → Tables → Time → Result (Unit {0}) × Tables
insert_event project_id issue_id ev raw t now =
    if is_some (find_event project_id ev.event_id t) then (err constraint, t) else (
      ok tt,
      record t {
        events = t.events ++ (new_event (t.event_seq + 1) project_id issue_id ev raw now ∷ []);
        event_seq = t.event_seq + 1;
      },
    )

-- What `SaveEvent` returns beside its error.
pub record Saved : Type 0 where
  pub issue_id : ℕ
  pub is_new : Bool
  pub is_regression : Bool

-- The existing event's issue, or 0 if the second look-up fails or finds NULL.
abbrev existing_issue : Result (Option ℕ) → ℕ
existing_issue (ok (some id)) = id
existing_issue (ok none) = 0
existing_issue (err e) = 0

unfoldable pub already_stored : Text → Text → Query (Bool × Saved)
unfolding select_row
already_stored project_id event_id = do
  found ← attempt (
      select_row
        (λ t. elim (find_event project_id event_id t) [ none ↦ none | some e ↦ some e.issue_id ]))
  pure (false, record { issue_id = existing_issue found; is_new = false; is_regression = false })

-- (isNew, isRegression) from the look-up of the issue's status.
abbrev pub classify : Result IssueStatus → Result (Bool × Bool)
classify (ok resolved) = ok (false, true)
classify (ok status) = ok (false, false)
classify (err no_rows) = ok (true, false)
classify (err e) = err e

abbrev lift {ℓ} : {A : Type ℓ} → Result A → Query A
lift r s = (r, s)

-- From the look-up of the status to the COMMIT.
unfoldable pub store_event : Text → Event → Text → Text → Text → Query (Bool × Saved)
unfolding insert_event select_row execute reach
store_event project_id ev raw fingerprint title = do
  prior ← attempt (
      select_row
        (λ t. elim (find_issue project_id fingerprint t) [ none ↦ none | some i ↦ some i.status ]))
  (is_new, is_regression) ← lift (classify prior)
  issue_id ← execute (upsert_issue project_id fingerprint title)
  statement (insert_event project_id issue_id ev raw)
  reach
  pure (true, record { issue_id = issue_id; is_new = is_new; is_regression = is_regression })

-- The `switch` on the first look-up.
abbrev save_unless_stored :
    Text → Event → Text → Text → Text → Result (Unit {0}) → Query (Bool × Saved)
save_unless_stored project_id ev raw fingerprint title (ok found) =
    already_stored project_id ev.event_id
save_unless_stored project_id ev raw fingerprint title (err no_rows) =
    store_event project_id ev raw fingerprint title
save_unless_stored project_id ev raw fingerprint title (err e) = fail e

unfoldable pub save_body : Text → Event → Text → Text → Text → Query (Bool × Saved)
unfolding select_row
save_body project_id ev raw fingerprint title = do
  stored ← attempt (
      select_row
        (λ t. elim (find_event project_id ev.event_id t) [ none ↦ none | some e ↦ some tt ]))
  save_unless_stored project_id ev raw fingerprint title stored

-- `SaveEvent`
unfoldable pub save_event : Text → Event → Text → Text → Text → Query Saved
unfolding save_body transaction
save_event project_id ev raw fingerprint title =
    transaction (save_body project_id ev raw fingerprint title)

-- `StoredEvent`, as read back
pub record StoredEvent : Type 0 where
  pub event_id : Text
  pub issue_id : ℕ
  pub received_at : Time
  pub timestamp : Timestamp
  pub level : Text
  pub platform : Text
  pub message : Text
  pub payload : Text

-- `scanEvent`: a NULL issue reads as 0, and a NULL time as the zero time.
unfoldable pub scan_event : EventRow → StoredEvent
scan_event e = record {
  event_id = e.event_id;
  issue_id = elim e.issue_id [ none ↦ 0 | some id ↦ id ];
  received_at = e.received_at;
  timestamp = e.event_timestamp;
  level = e.level;
  platform = e.platform;
  message = e.message;
  payload = e.payload;
}

-- `GetEvent`
unfoldable pub get_event : Text → Text → Query StoredEvent
unfolding scan_event
get_event project_id event_id =
    select_row (λ t. Option.map scan_event (find_event project_id event_id t))

-- ORDER BY received_at DESC, id DESC
unfoldable pub received_later : EventRow → EventRow → Bool
received_later a b =
    ltb b.received_at a.received_at || (b.received_at == a.received_at && leb b.id a.id)

abbrev in_project : Text → EventRow → Bool
in_project project_id e = str_eq e.project_id project_id

abbrev pub refers_to : ℕ → Option ℕ → Bool
refers_to id none = false
refers_to id (some j) = j == id

-- `ListEvents`
unfoldable pub list_events : Text → Query (List StoredEvent)
list_events project_id =
    select_rows
      (λ t. map scan_event (order_by received_later (filter (in_project project_id) t.events)))

-- `ListEventsByIssue`
unfoldable pub list_events_by_issue : Text → ℕ → Query (List StoredEvent)
list_events_by_issue project_id issue_id = select_rows (λ t. map scan_event (
    order_by received_later
      (filter (λ e. in_project project_id e && refers_to issue_id e.issue_id) t.events)))

-- How many nanoseconds the local time is ahead of UTC at an instant: `time.Local`, which the
-- environment of the process sets.
abbrev pub Zone : Type 0
Zone = ℤ → ℤ

-- DELETE FROM events WHERE received_at < ?, which compares texts. CURRENT_TIMESTAMP wrote the UTC
-- date and time of the row, down to the second; the cutoff is written with the date and time of its
-- zone, a fraction and the zone. So a row is also less than a cutoff of the same second, of which
-- its text is a beginning. (The years have four digits.)
abbrev pub is_older : ℤ → EventRow → Bool
is_older cutoff e = not (ltb_ℤ cutoff (pos (current_timestamp e.received_at)))

-- `time.Now().Add(-olderThan)`, for a `time.Duration` in nanoseconds, as the text says it: without
-- `UTC()` it is the local date and time, which is that of UTC plus what the zone is ahead.
unfoldable pub cutoff_of : Zone → Time → ℤ → ℤ
unfolding ◌+ℤ◌ negation
cutoff_of zone now older_than = let cutoff = pos now +ℤ negation older_than in cutoff +ℤ zone cutoff

-- `DeleteOldEvents`: the number of rows removed
unfoldable pub delete_old_events : Zone → ℤ → Query ℕ
unfolding cutoff_of current_timestamp
delete_old_events zone older_than = execute (λ t now. (
  count_where (is_older (cutoff_of zone now older_than)) t.events,
  record t { events = filter (λ e. not (is_older (cutoff_of zone now older_than) e)) t.events },
))
