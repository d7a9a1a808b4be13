-- ===== src/Store/Kept.antt =====
-- A property of the tables that every write of the server keeps: what a proof about the handlers
-- wants of the store, and what the modules below prove for each property.
pub mod Consistent
pub mod Aside
use trackdown.Prelude.{ℕ, ◌≡◌, sym, subst, Text}
use trackdown.Protocol.Types.{Event}
use trackdown.Store.Types.{Tables, IssueStatus}
use trackdown.Store.Query.{Session}
use trackdown.Store.Events.{save_event}
use trackdown.Store.Projects.{ensure_project}
use trackdown.Store.Issues.{set_issue_status}
use trackdown.Store.Releases.{create_release, upload_artifact}

pub record IsKept (P : Tables → Type 0) : Type 0 where
  pub by_save_event :
      (project_id : Text) (ev : Event) (raw fingerprint title : Text) (s : Session)
      → P s.tables
      → P (save_event project_id ev raw fingerprint title s).1.tables
  pub by_ensure_project :
      (id public_key : Text) (s : Session)
      → P s.tables
      → P (ensure_project id public_key s).1.tables
  pub by_set_issue_status :
      (project_id : Text) (id : ℕ) (status : IssueStatus) (s : Session)
      → P s.tables
      → P (set_issue_status project_id id status s).1.tables
  pub by_create_release :
      (project_id version : Text) (s : Session)
      → P s.tables
      → P (create_release project_id version s).1.tables
  pub by_upload_artifact :
      (release_id : ℕ) (abs_path content : Text) (s : Session)
      → P s.tables
      → P (upload_artifact release_id abs_path content s).1.tables

-- what only reads keeps what holds of the tables
pub reads_keep : (P : Tables → Type 0) {t t' : Tables} → t' ≡ t → P t → P t'
reads_keep P h c = subst P (sym h) c
