-- ===== src/Store/Kept/Consistent.antt =====
-- Every write of the server keeps the database consistent.
use trackdown.Prelude.{Text, inl, inr, Option-cases}
use trackdown.Store.Query.{Session}
use trackdown.Store.Query.Laws.{execute_keeps}
use trackdown.Store.Projects.{ensure_project, find_project}
use trackdown.Store.Events.Invariant.{IsConsistent, save_event-IsConsistent}
use trackdown.Store.Events.Others.{
  set_issue_status-IsConsistent, create_release-IsConsistent, upload_artifact-IsConsistent,
}
use trackdown.Store.Kept.{IsKept}

ensure_project-IsConsistent :
    (id public_key : Text) (s : Session)
    → IsConsistent s.tables
    → IsConsistent (ensure_project id public_key s).1.tables
unfolding ensure_project
ensure_project-IsConsistent id public_key s c =
    execute_keeps IsConsistent _ s c (elim (Option-cases (find_project id s.tables)) [
      | inl new ↦ rw new (record {
        event_keys = c.event_keys;
        issue_keys = c.issue_keys;
        issue_order = c.issue_order;
        issue_ids = c.issue_ids;
        event_links = c.event_links;
        counted = c.counted;
      })
      | inr (p, old) ↦ rw old c
    ])

pub IsConsistent-IsKept : IsKept IsConsistent
IsConsistent-IsKept = record {
  by_save_event = save_event-IsConsistent;
  by_ensure_project = ensure_project-IsConsistent;
  by_set_issue_status = set_issue_status-IsConsistent;
  by_create_release = create_release-IsConsistent;
  by_upload_artifact = upload_artifact-IsConsistent;
}
