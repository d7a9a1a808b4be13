-- ===== src/Store/Lifecycle.antt =====
-- The life of an issue across operations: resolved, ignored or reopened by hand, and then seen
-- again.
use trackdown.Prelude.{◌≡◌, refl, ◌∙◌, Text, false, none, some}
use trackdown.Protocol.Types.{Event}
use trackdown.Store.Types.{IssueStatus, Time, IssueRow, Tables}
use trackdown.Store.Query.{ok, calm}
use trackdown.Store.Events.{find_event, find_issue, save_event, upsert_issue}
use trackdown.Store.Events.Save.{is_resolved, save_event-calm}
use trackdown.Store.Events.Stored.{seen_after, find_issue-save_event}
use trackdown.Store.Issues.{set_issue_status}
use trackdown.Store.Issues.Laws.{set_issue_status-tables, find_issue-set_issue_status}

-- what a save of a new event returns where the issue is known
save_event-known :
    (project_id fingerprint raw title : Text) (ev : Event) (i : IssueRow) (t : Tables) (now : Time)
    → find_issue project_id fingerprint t ≡ some i
    → find_event project_id ev.event_id t ≡ none
    → (save_event project_id ev raw fingerprint title (calm t now)).0
      ≡ ok (record { issue_id = i.id; is_new = false; is_regression = is_resolved i.status })
unfolding upsert_issue
save_event-known project_id fingerprint raw title ev i t now known fresh =
    rw (save_event-calm project_id ev raw fingerprint title t now) (rw fresh (rw known refl))

-- After a change of status, the next new event of the issue is a regression exactly if the status
-- was set to resolved. Then the issue is unresolved again; an ignored issue stays ignored. Either
-- way the event is counted, and the issue is not new.
pub save_event-set_issue_status :
    (project_id fingerprint raw title : Text) (ev : Event) (status : IssueStatus) (i : IssueRow)
    (t : Tables) (now later : Time)
    → find_issue project_id fingerprint t ≡ some i
    → find_event project_id ev.event_id t ≡ none
    → let t' = (set_issue_status project_id i.id status (calm t now)).1.tables in
      let r = save_event project_id ev raw fingerprint title (calm t' later) in
      (r.0 ≡ ok (record { issue_id = i.id; is_new = false; is_regression = is_resolved status }))
      × (find_issue project_id fingerprint r.1.tables
          ≡ some (seen_after later (record i { status = status })))
save_event-set_issue_status project_id fingerprint raw title ev status i t now later known fresh =
    let t' = (set_issue_status project_id i.id status (calm t now)).1.tables in
    let known' =
      find_issue-set_issue_status project_id i.id status t now fingerprint i known refl in
    let fresh' : find_event project_id ev.event_id t' ≡ none =
      rw (set_issue_status-tables project_id i.id status t now) fresh in
    (
      save_event-known project_id fingerprint raw title ev (record i { status = status }) t' later
          known' fresh',
      find_issue-save_event project_id ev raw fingerprint title t' later fresh' ∙ rw known' refl,
    )
