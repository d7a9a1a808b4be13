-- ===== src/Ingest/Manage.antt =====
-- ingest.go: the management endpoints. `strconv.ParseInt` is an argument; a negative number, which
-- is the id of no row, is left out of the model.
use trackdown.Prelude.{ℕ, Text, Option, none, some, List}
use trackdown.Store.Types.{IssueStatus}
use trackdown.Store.Query.{Result, ok, err, no_rows, failure, constraint, Session}
use trackdown.Store.Events.{StoredEvent, list_events, list_events_by_issue, get_event}
use trackdown.Store.Issues.{Issue, list_issues, get_issue, set_issue_status}
use trackdown.Ingest.{Response, content, no_content, bad_request, not_found, internal_error}

-- The answers to the outcome of a query: `serverError`, 404, or the value as JSON.
abbrev or_internal_error {ℓ} : {A : Type ℓ} → Result A → Response A
or_internal_error (ok a) = content a
or_internal_error (err e) = internal_error

abbrev or_not_found {ℓ} : {A : Type ℓ} → Result A → Response A
or_not_found (ok a) = content a
or_not_found (err e) = not_found

abbrev status_set : Result (Unit {0}) → Response (Unit {0})
status_set (ok u) = no_content
status_set (err no_rows) = not_found
status_set (err failure) = internal_error
status_set (err constraint) = internal_error

abbrev answer {ℓ κ} :
    {A : Type ℓ} {B : Type κ} → (Result A → Response B) → Result A × Session → Response B × Session
answer reply (r, s) = (reply r, s)

-- `ListEvents`
unfoldable pub serve_events : Text → Session → Response (List StoredEvent) × Session
unfolding list_events
serve_events project_id s = answer or_internal_error (list_events project_id s)

-- `GetEvent`
unfoldable pub serve_event : Text → Text → Session → Response StoredEvent × Session
unfolding get_event
serve_event project_id event_id s = answer or_not_found (get_event project_id event_id s)

-- `ListIssues`
unfoldable pub serve_issues : Text → Session → Response (List Issue) × Session
unfolding list_issues
serve_issues project_id s = answer or_internal_error (list_issues project_id s)

module _ (parse_int : Text → Option ℕ) where
  -- `GetIssue`, with `parseIssueID`
  unfoldable pub serve_issue : Text → Text → Session → Response Issue × Session
  unfolding get_issue
  serve_issue project_id issue_id s = elim (parse_int issue_id) [
    | none ↦ (bad_request, s)
    | some id ↦ answer or_not_found (get_issue project_id id s)
  ]

  -- `ListIssueEvents`
  unfoldable pub serve_issue_events : Text → Text → Session → Response (List StoredEvent) × Session
  unfolding list_events_by_issue
  serve_issue_events project_id issue_id s = elim (parse_int issue_id) [
    | none ↦ (bad_request, s)
    | some id ↦ answer or_internal_error (list_events_by_issue project_id id s)
  ]

  -- `setIssueStatus`
  unfoldable pub serve_set_issue_status :
      Text → Text → IssueStatus → Session → Response (Unit {0}) × Session
  unfolding set_issue_status
  serve_set_issue_status project_id issue_id status s = elim (parse_int issue_id) [
    | none ↦ (bad_request, s)
    | some id ↦ answer status_set (set_issue_status project_id id status s)
  ]
