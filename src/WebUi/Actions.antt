-- ===== src/WebUi/Actions.antt =====
-- What the buttons of an issue do.
use trackdown.Prelude.{
  ℕ, ◌≡◌, refl, sym, ap, ◌∙◌, Text, codes, some, List, [], arith, find, update, Option-cases, inl,
  inr,
}
use trackdown.Store.Types.{IssueStatus, Time, IssueRow, Tables}
use trackdown.Store.Query as Query
use trackdown.Store.Query.{Result, Session, calm, execute, select_row, select_rows}
use trackdown.Store.Events.{StoredEvent, list_events_by_issue}
use trackdown.Store.Issues.{is_issue, with_status, scan_issue, get_issue, set_issue_status}
use trackdown.Store.Issues.Laws.{set_issue_status_found}
use trackdown.Ingest.Manage.{serve_set_issue_status}
use trackdown.WebUi.Pages.{IssueDetailPage, issue_detail}
use trackdown.WebUi.{
  Services, show, moves, issue_path, action_reply, detail_page, handle_issue_detail,
  handle_issue_action,
}

-- A button of the web UI changes the database as the management endpoint of the same status does.
pub handle_issue_action-serve_set_issue_status :
    {J : Type 0} (services : Services J) (status : IssueStatus) (project_id issue_id : Text)
    (s : Session)
    → (handle_issue_action services status project_id issue_id s).1
      ≡ (serve_set_issue_status services.parse_int project_id issue_id status s).1
unfolding handle_issue_action serve_set_issue_status
handle_issue_action-serve_set_issue_status services status project_id issue_id s =
    elim (Option-cases (services.parse_int issue_id)) [
      | inl bad ↦ rw (bad, serve_set_issue_status) refl
      | inr (id, good) ↦ rw (good, serve_set_issue_status) refl
    ]

abbrev pub events_listed : Result (List StoredEvent) → List StoredEvent
events_listed (Query.ok events) = events
events_listed (Query.err e) = []

module _ {J : Type 0} (services : Services J) (status : IssueStatus) (project_id issue_id : Text)
    (id : ℕ) (t : Tables) (now : Time) (i : IssueRow) where
  abbrev changed : Tables
  changed = record t { issues = update (is_issue project_id id) (with_status status) t.issues }

  set_issue_status-session :
      (set_issue_status project_id id status (calm t now)).1 ≡ calm changed now
  unfolding set_issue_status execute
  set_issue_status-session = ground arith

  handle_issue_action-calm :
      services.parse_int issue_id ≡ some id
      → find (is_issue project_id id) t.issues ≡ some i
      → handle_issue_action services status project_id issue_id (calm t now)
        ≡ (moves 303 (issue_path project_id id), calm changed now)
  unfolding handle_issue_action
  handle_issue_action-calm number here = rw number (λ k. (
    action_reply project_id id ((set_issue_status_found project_id id status t now i here).0 k),
    set_issue_status-session k,
  ))

  get_issue-changed :
      find (is_issue project_id id) t.issues ≡ some i
      → get_issue project_id id (calm changed now)
        ≡ (Query.ok (scan_issue changed (record i { status = status })), calm changed now)
  unfolding get_issue select_row
  get_issue-changed here =
      rw
        (sym (
            ap (λ (s : Session). find (is_issue project_id id) s.tables.issues)
              set_issue_status-session)
          ∙ (set_issue_status_found project_id id status t now i here).1)
        refl

  abbrev page : IssueDetailPage
  page =
      detail_page project_id (scan_issue changed (record i { status = status }))
        (events_listed (list_events_by_issue project_id id (calm changed now)).0)

  handle_issue_detail-changed :
      services.parse_int issue_id ≡ some id
      → find (is_issue project_id id) t.issues ≡ some i
      → (handle_issue_detail services project_id issue_id (calm changed now)).0
        ≡ show (codes "issue_detail") (issue_detail page)
  unfolding handle_issue_detail list_events_by_issue select_rows
  handle_issue_detail-changed number here = rw (number, get_issue-changed here) refl

  -- While the database answers, a button of an issue of the project leads back to the issue's page,
  -- and that page then shows the issue with the button's status, and all else as it was before: the
  -- project, the id, the title, the fingerprint, the two times, the count and the list of events.
  pub handle_issue_detail-handle_issue_action :
      services.parse_int issue_id ≡ some id
      → find (is_issue project_id id) t.issues ≡ some i
      → let after = handle_issue_action services status project_id issue_id (calm t now) in
        (p : IssueDetailPage) × (after.0 ≡ moves 303 (issue_path project_id id))
        × ((handle_issue_detail services project_id issue_id after.1).0
            ≡ show (codes "issue_detail") (issue_detail p))
        × (p.status ≡ status)
        × (p.project_id ≡ project_id)
        × (p.id ≡ i.id)
        × (p.title ≡ i.title)
        × (p.fingerprint ≡ i.fingerprint)
        × (p.event_count ≡ i.event_count)
        × (p.first_seen ≡ i.first_seen)
        × (p.last_seen ≡ i.last_seen)
        × (p.events ≡ events_listed (list_events_by_issue project_id id (calm t now)).0)
  unfolding scan_issue
  handle_issue_detail-handle_issue_action number here =
      let done = handle_issue_action-calm number here in
      (
        page,
        ap (λ r. r.0) done,
        ap (λ r. (handle_issue_detail services project_id issue_id r.1).0) done
            ∙ handle_issue_detail-changed number here,
        refl,
        refl,
        refl,
        refl,
        refl,
        refl,
        refl,
        refl,
        unfold list_events_by_issue select_rows in refl,
      )
