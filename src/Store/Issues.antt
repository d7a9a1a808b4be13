-- ===== src/Store/Issues.antt =====
-- The issues of store.go: look-up, list and the change of status.
use trackdown.Prelude.{
  ℕ, Text, str_eq, Bool, ◌&&◌, ◌||◌, is_some, List, [], map, Option, none, some, ltb, leb, ◌==◌,
  if◌then◌else◌, filter, find, update, count_where, order_by, first,
}
use trackdown.Store.Types.{IssueStatus, Time, IssueRow, EventRow, Tables}
use trackdown.Store.Query.{
  Result, ok, err, no_rows, Query, fail, pure, select_row, select_rows, execute, ◌>>=◌,
}
use trackdown.Store.Events.{received_later, refers_to}
use mathlib.Core.Option
pub mod Laws

-- `Issue`, with the level of its latest event
pub record Issue : Type 0 where
  pub id : ℕ
  pub fingerprint : Text
  pub title : Text
  pub status : IssueStatus
  pub first_seen : Time
  pub last_seen : Time
  pub event_count : ℕ
  pub level : Text

-- WHERE project_id = ? AND id = ?
unfoldable pub is_issue : Text → ℕ → IssueRow → Bool
is_issue project_id id i = str_eq i.project_id project_id && (i.id == id)

-- SELECT level FROM events WHERE issue_id = issues.id ORDER BY received_at DESC, id DESC LIMIT 1
unfoldable pub latest_level : ℕ → List EventRow → Option Text
latest_level id events =
    Option.map (λ (e : EventRow). e.level)
      (first (order_by received_later (filter (λ e. refers_to id e.issue_id) events)))

-- `issueColumns` and `scanIssue`: a NULL level reads as the empty string
unfoldable pub scan_issue : Tables → IssueRow → Issue
scan_issue t i = record {
  id = i.id;
  fingerprint = i.fingerprint;
  title = i.title;
  status = i.status;
  first_seen = i.first_seen;
  last_seen = i.last_seen;
  event_count = i.event_count;
  level = elim (latest_level i.id t.events) [ none ↦ [] | some l ↦ l ];
}

-- `GetIssue`
unfoldable pub get_issue : Text → ℕ → Query Issue
get_issue project_id id =
    select_row (λ t. Option.map (scan_issue t) (find (is_issue project_id id) t.issues))

-- ORDER BY last_seen DESC, id DESC
unfoldable pub seen_later : IssueRow → IssueRow → Bool
seen_later a b = ltb b.last_seen a.last_seen || (b.last_seen == a.last_seen && leb b.id a.id)

abbrev pub issue_of_project : Text → IssueRow → Bool
issue_of_project project_id i = str_eq i.project_id project_id

-- `ListIssues`
unfoldable pub list_issues : Text → Query (List Issue)
list_issues project_id =
    select_rows (λ t.
      map (scan_issue t) (order_by seen_later (filter (issue_of_project project_id) t.issues)))

unfoldable pub with_status : IssueStatus → IssueRow → IssueRow
with_status status i = record i { status = status }

-- `SetIssueStatus`: UPDATE, then the number of rows affected
unfoldable pub set_issue_status : Text → ℕ → IssueStatus → Query (Unit {0})
set_issue_status project_id id status = do
  n ← execute (λ t now. (
    count_where (is_issue project_id id) t.issues,
    record t { issues = update (is_issue project_id id) (with_status status) t.issues },
  ))
  if n == 0 then fail no_rows else pure tt
