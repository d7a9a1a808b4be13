-- ===== src/Store/Types.antt =====
-- The statuses of store.go and the tables that its `schema` creates, a record for a row.
use trackdown.Prelude.{ℕ, Text, codes, Bool, Option, List, [], ◌/◌, ◌*◌, ◌^◌}

-- `IssueStatus`: the program writes no other value into the column than these constants.
pub data IssueStatus : Type 0 where
  unresolved resolved ignored : IssueStatus

unfoldable pub status_text : IssueStatus → Text
status_text unresolved = codes "unresolved"
status_text resolved = codes "resolved"
status_text ignored = codes "ignored"

-- `OutboxStatus`
pub data OutboxStatus : Type 0 where
  pending delivered dead : OutboxStatus

-- An instant is a number of nanoseconds since the Unix epoch.
abbrev pub Time : Type 0
Time = ℕ

abbrev pub second : ℕ
second = 10 ^ 9

-- SQLite's CURRENT_TIMESTAMP has no fraction of a second.
unfoldable pub current_timestamp : Time → Time
current_timestamp now = now / second * second

-- projects
pub record Project : Type 0 where
  pub id : Text
  pub public_key : Text
  pub name : Text
  pub created_at : Time

-- issues
pub record IssueRow : Type 0 where
  pub id : ℕ
  pub project_id : Text
  pub fingerprint : Text
  pub title : Text
  pub status : IssueStatus
  pub first_seen : Time
  pub last_seen : Time
  pub event_count : ℕ

-- events; a nullable column is an `Option`
pub record EventRow : Type 0 where
  pub id : ℕ
  pub project_id : Text
  pub issue_id : Option ℕ
  pub event_id : Text
  pub received_at : Time
  pub event_timestamp : Option Time
  pub level : Text
  pub platform : Text
  pub message : Text
  pub payload : Text

-- alert_outbox; `OutboxEntry` has the same fields, and a scan copies them
pub record OutboxEntry : Type 0 where
  pub id : ℕ
  pub project_id : Text
  pub issue_id : ℕ
  pub title : Text
  pub level : Text
  pub is_new : Bool
  pub is_regression : Bool
  pub event_count : ℕ
  pub occurred_at : Time
  pub status : OutboxStatus
  pub attempts : ℕ
  pub next_attempt_at : Time
  pub created_at : Time
  pub last_error : Text

-- releases
pub record Release : Type 0 where
  pub id : ℕ
  pub project_id : Text
  pub version : Text
  pub created_at : Time

-- artifacts
pub record Artifact : Type 0 where
  pub id : ℕ
  pub release_id : ℕ
  pub abs_path : Text
  pub sourcemap_content : Text
  pub created_at : Time

-- The database. Each `_seq` is the largest id that AUTOINCREMENT has given out for that table; an
-- insertion takes the next one.
pub record Tables : Type 0 where
  pub projects : List Project
  pub issues : List IssueRow
  pub events : List EventRow
  pub outbox : List OutboxEntry
  pub releases : List Release
  pub artifacts : List Artifact
  pub issue_seq : ℕ
  pub event_seq : ℕ
  pub outbox_seq : ℕ
  pub release_seq : ℕ
  pub artifact_seq : ℕ

abbrev pub empty_tables : Tables
empty_tables = record {
  projects = [];
  issues = [];
  events = [];
  outbox = [];
  releases = [];
  artifacts = [];
  issue_seq = 0;
  event_seq = 0;
  outbox_seq = 0;
  release_seq = 0;
  artifact_seq = 0;
}
