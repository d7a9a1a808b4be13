-- ===== src/Store/Kept/Aside.antt =====
-- What the handlers leave aside: no one touches the outbox, and projects are only added.
use trackdown.Prelude.{
  ℕ, ◌≡◌, Text, List, [], ◌∷◌, ◌++◌, none, inl, inr, Option-cases, arith, find, update, count_where,
  ◌==◌, if◌then◌else◌,
}
use trackdown.Protocol.Types.{Event}
use trackdown.Store.Types.{Project, Tables, IssueStatus, OutboxEntry, Time}
use trackdown.Store.Query.{Session, Query, execute, fail, pure, no_rows}
use trackdown.Store.Query.Laws.{execute_keeps, Result-cases}
use trackdown.Store.Events.{save_event, upsert_issue}
use trackdown.Store.Events.Save.{described, save_event_returns, save_event_atomic}
use trackdown.Store.Events.Others.{continue-tables}
use trackdown.Store.Issues.{set_issue_status, is_issue, with_status}
use trackdown.Store.Projects.{ensure_project, find_project, has_project_id, new_project}
use trackdown.Store.Releases.{create_release, upload_artifact, find_release, is_artifact}
use trackdown.Store.Kept.{IsKept}

described-aside :
    (project_id : Text) (ev : Event) (raw fingerprint title : Text) (t : Tables) (now : Time)
    → let t' = (described project_id ev raw fingerprint title t now).1 in
      (t'.projects ≡ t.projects) × (t'.outbox ≡ t.outbox)
unfolding upsert_issue
described-aside project_id ev raw fingerprint title t now = ground arith

-- a property of the projects and of the outbox, which a new project keeps
module _ (R : List Project → List OutboxEntry → Type 0)
    (adds : (id public_key : Text) (now : Time) (projects : List Project)
        (outbox : List OutboxEntry)
      → find (has_project_id id) projects ≡ none
      → R projects outbox
      → R (projects ++ (new_project id public_key now ∷ [])) outbox) where
  abbrev OfAside : Tables → Type 0
  OfAside t = R t.projects t.outbox

  save_event_keeps :
      (project_id : Text) (ev : Event) (raw fingerprint title : Text) (s : Session)
      → OfAside s.tables
      → OfAside (save_event project_id ev raw fingerprint title s).1.tables
  save_event_keeps project_id ev raw fingerprint title s h =
      elim (Result-cases (save_event project_id ev raw fingerprint title s).0) [
        | inl (v, returned) ↦
            rw (save_event_returns project_id ev raw fingerprint title s returned).0 (
              let aside = described-aside project_id ev raw fingerprint title s.tables s.now in
              rw (aside.0, aside.1) h)
        | inr (e, failed) ↦ rw (save_event_atomic project_id ev raw fingerprint title s failed) h
      ]

  ensure_project_keeps :
      (id public_key : Text) (s : Session)
      → OfAside s.tables
      → OfAside (ensure_project id public_key s).1.tables
  unfolding ensure_project
  ensure_project_keeps id public_key s h =
      execute_keeps OfAside _ s h (elim (Option-cases (find_project id s.tables)) [
        | inl new ↦ rw new (adds id public_key s.now s.tables.projects s.tables.outbox new h)
        | inr (p, old) ↦ rw old h
      ])

  set_issue_status_keeps :
      (project_id : Text) (id : ℕ) (status : IssueStatus) (s : Session)
      → OfAside s.tables
      → OfAside (set_issue_status project_id id status s).1.tables
  unfolding set_issue_status
  set_issue_status_keeps project_id id status s h =
      let set : Query ℕ = execute (λ t now. (
        count_where (is_issue project_id id) t.issues,
        record t { issues = update (is_issue project_id id) (with_status status) t.issues },
      )) in
      continue-tables OfAside (set s).0 (λ n. if n == 0 then fail no_rows else pure tt) (set s).1
        (λ n. ground arith) (execute_keeps OfAside _ s h h)

  create_release_keeps :
      (project_id version : Text) (s : Session)
      → OfAside s.tables
      → OfAside (create_release project_id version s).1.tables
  unfolding create_release
  create_release_keeps project_id version s h =
      execute_keeps OfAside _ s h (elim (Option-cases (find_release project_id version s.tables)) [
        | inl new ↦ rw new h
        | inr (r, old) ↦ rw old h
      ])

  upload_artifact_keeps :
      (release_id : ℕ) (abs_path content : Text) (s : Session)
      → OfAside s.tables
      → OfAside (upload_artifact release_id abs_path content s).1.tables
  unfolding upload_artifact
  upload_artifact_keeps release_id abs_path content s h =
      execute_keeps OfAside _ s h
        (elim (Option-cases (find (is_artifact release_id abs_path) s.tables.artifacts)) [
          | inl new ↦ rw new h
          | inr (a, old) ↦ rw old h
        ])

  pub aside-IsKept : IsKept (λ t. R t.projects t.outbox)
  aside-IsKept = record {
    by_save_event = save_event_keeps;
    by_ensure_project = ensure_project_keeps;
    by_set_issue_status = set_issue_status_keeps;
    by_create_release = create_release_keeps;
    by_upload_artifact = upload_artifact_keeps;
  }
