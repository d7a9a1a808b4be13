-- ===== src/Command/Routes/Managed.antt =====
-- The management handlers and the health check keep what every write keeps.
use trackdown.Prelude.{
  ℕ, ◌+◌, ◌≡◌, arith, refl, Text, Option, none, some, is_empty, inl, inr, Bool-cases, Option-cases,
  ltb, length,
}
use trackdown.Store.Types.{IssueStatus, Tables}
use trackdown.Store.Query as Query
use trackdown.Store.Query.{Result, Session, reach, statement}
use trackdown.Store.Query.Laws.{select_row-Reads, select_rows-Reads}
use trackdown.Store.Events as Events
use trackdown.Store.Events.{list_events_by_issue}
use trackdown.Store.Kept.{IsKept, reads_keep}
use trackdown.Store.Issues as Issues
use trackdown.Store.Releases as Releases
use trackdown.Ingest.Body.{Stream, read_limited}
use trackdown.Ingest.Manage.{serve_issue, serve_issue_events, serve_set_issue_status}
use trackdown.Ingest.Upload.{
  max_artifact_size, serve_create_release, serve_upload_artifact, upload_content, upload_to,
  release_created, uploaded,
}
use trackdown.Command.Routes.{
  ManagementRoute, serve_management, list_events, list_issues, get_event, get_issue,
  list_issue_events, set_status, create_release, upload_artifact,
}

module _ (parse_int : Text → Option ℕ) where
  serve_issue-Reads :
      (project_id issue_id : Text) (s : Session)
      → (serve_issue parse_int project_id issue_id s).1.tables ≡ s.tables
  unfolding serve_issue Issues.get_issue
  serve_issue-Reads project_id issue_id s = elim (Option-cases (parse_int issue_id)) [
    | inl bad ↦ rw (bad, serve_issue) refl
    | inr (id, good) ↦ rw (good, serve_issue) (select_row-Reads _ s)
  ]

  serve_issue_events-Reads :
      (project_id issue_id : Text) (s : Session)
      → (serve_issue_events parse_int project_id issue_id s).1.tables ≡ s.tables
  unfolding serve_issue_events list_events_by_issue
  serve_issue_events-Reads project_id issue_id s = elim (Option-cases (parse_int issue_id)) [
    | inl bad ↦ rw (bad, serve_issue_events) refl
    | inr (id, good) ↦ rw (good, serve_issue_events) (select_rows-Reads _ s)
  ]

release_created-session :
    (version : Text) (r : Result ℕ × Session) → (release_created version r).1 ≡ r.1
release_created-session version (Query.ok id, s) = refl
release_created-session version (Query.err e, s) = refl

uploaded-session : (r : Result (Unit {0}) × Session) → (uploaded r).1 ≡ r.1
uploaded-session (Query.ok u, s) = refl
uploaded-session (Query.err e, s) = refl

pub reach-Reads : (s : Session) → (reach s).1.tables ≡ s.tables
unfolding reach
reach-Reads s = ground arith

pub ping-Reads :
    (r : Result (Unit {0})) (s : Session) → (Query.continue r (λ _. reach) s).1.tables ≡ s.tables
ping-Reads (Query.ok u) s = reach-Reads s
ping-Reads (Query.err e) s = refl

module _ (P : Tables → Type 0) (k : IsKept P) where
  module _ (parse_int : Text → Option ℕ) where
    pub serve_set_issue_status_keeps :
        (project_id issue_id : Text) (status : IssueStatus) (s : Session)
        → P s.tables
        → P (serve_set_issue_status parse_int project_id issue_id status s).1.tables
    unfolding serve_set_issue_status
    serve_set_issue_status_keeps project_id issue_id status s c =
        elim (Option-cases (parse_int issue_id)) [
          | inl bad ↦ rw (bad, serve_set_issue_status) c
          | inr (id, good) ↦
              rw (good, serve_set_issue_status) (k.by_set_issue_status project_id id status s c)
        ]

  serve_create_release_keeps :
      (project_id : Text) (o : Option Text) (s : Session)
      → P s.tables
      → P (serve_create_release project_id o s).1.tables
  unfolding serve_create_release
  serve_create_release_keeps project_id none s c = c
  serve_create_release_keeps project_id (some version) s c = elim (Bool-cases (is_empty version)) [
    | inl unnamed ↦ rw unnamed c
    | inr named ↦
        rw (named, release_created-session version (Releases.create_release project_id version s))
          (k.by_create_release project_id version s c)
  ]

  upload_content_keeps :
      (id : ℕ) (abs_path : Text) (o : Option Text) (s : Session)
      → P s.tables
      → P (upload_content id abs_path o s).1.tables
  upload_content_keeps id abs_path none s c = c
  upload_content_keeps id abs_path (some bytes) s c =
      elim (Bool-cases (ltb max_artifact_size (length bytes))) [
        | inl large ↦ rw large c
        | inr fits ↦ elim (Bool-cases (is_empty bytes)) [
          | inl nothing ↦ rw (fits, nothing) c
          | inr given ↦
              rw (fits, given, uploaded-session (Releases.upload_artifact id abs_path bytes s))
                (k.by_upload_artifact id abs_path bytes s c)
        ]
      ]

  upload_to_keeps :
      (abs_path : Text) (body : Stream) (r : Result ℕ × Session)
      → P r.1.tables
      → P (upload_to abs_path body r).1.tables
  upload_to_keeps abs_path body (Query.ok id, s) c =
      upload_content_keeps id abs_path (read_limited (max_artifact_size + 1) body) s c
  upload_to_keeps abs_path body (Query.err e, s) c = c

  serve_upload_artifact_keeps :
      (project_id version abs_path : Text) (body : Stream) (s : Session)
      → P s.tables
      → P (serve_upload_artifact project_id version abs_path body s).1.tables
  unfolding serve_upload_artifact
  serve_upload_artifact_keeps project_id version abs_path body s c =
      elim (Bool-cases (is_empty abs_path)) [
        | inl unnamed ↦ rw unnamed c
        | inr named ↦ rw named (
            upload_to_keeps abs_path body (Releases.create_release project_id version s)
              (k.by_create_release project_id version s c))
      ]

  pub serve_management_keeps :
      (parse_int : Text → Option ℕ) (route : ManagementRoute) (s : Session)
      → P s.tables
      → P (serve_management parse_int route s).1.tables
  unfolding serve_management
  serve_management_keeps parse_int (list_events project_id) s c =
      reads_keep P (unfold Events.list_events in select_rows-Reads _ s) c
  serve_management_keeps parse_int (list_issues project_id) s c =
      reads_keep P (unfold Issues.list_issues in select_rows-Reads _ s) c
  serve_management_keeps parse_int (get_event project_id id) s c =
      reads_keep P (unfold Events.get_event in select_row-Reads _ s) c
  serve_management_keeps parse_int (get_issue project_id id) s c =
      reads_keep P (serve_issue-Reads parse_int project_id id s) c
  serve_management_keeps parse_int (list_issue_events project_id id) s c =
      reads_keep P (serve_issue_events-Reads parse_int project_id id s) c
  serve_management_keeps parse_int (set_status status project_id id) s c =
      serve_set_issue_status_keeps parse_int project_id id status s c
  serve_management_keeps parse_int (create_release project_id version) s c =
      serve_create_release_keeps project_id version s c
  serve_management_keeps parse_int (upload_artifact project_id version abs_path body) s c =
      serve_upload_artifact_keeps project_id version abs_path body s c
