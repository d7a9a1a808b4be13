-- ===== src/WebUi/Pages.antt =====
-- internal/server/viewmodel.go and templates.go: what the pages show, and how a page is written.
use trackdown.Prelude.{
  ℕ, ◌+◌, Text, codes, str_eq, Option, none, some, List, [], ◌∷◌, ◌++◌, if◌then◌else◌, map,
  order_by,
}
use trackdown.Protocol.Types.{Event}
use trackdown.Store.Types.{Time, IssueStatus, Project, status_text}
use trackdown.Store.Projects.{text_le}
use trackdown.Store.Events.{StoredEvent}
use trackdown.Store.Issues.{Issue}
use trackdown.WebUi.Symbolication.{DisplayException}

-- `homePage`
pub record HomePage : Type 0 where
  pub projects : List Project

-- `setupPage`
pub record SetupPage : Type 0 where
  pub project_id : Text
  pub dsn : Text

-- `issueRow`
pub record IssueLine : Type 0 where
  pub id : ℕ
  pub title : Text
  pub status : IssueStatus
  pub level : Text
  pub event_count : ℕ
  pub first_seen : Time
  pub last_seen : Time

-- `issueListPage`; the map `Counts` is a list of its entries
pub record IssueListPage : Type 0 where
  pub project_id : Text
  pub status : Text
  pub counts : List (Text × ℕ)
  pub issues : List IssueLine

-- `issueDetailPage`
pub record IssueDetailPage : Type 0 where
  pub project_id : Text
  pub id : ℕ
  pub title : Text
  pub status : IssueStatus
  pub fingerprint : Text
  pub event_count : ℕ
  pub first_seen : Time
  pub last_seen : Time
  pub events : List StoredEvent

-- `eventDetailPage`
pub record EventDetailPage : Type 0 where
  pub project_id : Text
  pub stored : StoredEvent
  pub event : Event
  pub exceptions : List DisplayException
  pub raw_json : Text

-- what a handler gives to a template
pub data Page : Type 0 where
  home : HomePage → Page
  setup : SetupPage → Page
  issue_list : IssueListPage → Page
  issue_detail : IssueDetailPage → Page
  event_detail : EventDetailPage → Page

-- `toIssueRow`
unfoldable pub to_issue_row : Issue → IssueLine
to_issue_row i = record {
  id = i.id;
  title = i.title;
  status = i.status;
  level = i.level;
  event_count = i.event_count;
  first_seen = i.first_seen;
  last_seen = i.last_seen;
}

-- `indentJSON`, from `json.Unmarshal` into any value and `json.MarshalIndent`
unfoldable pub indent_json : {J : Type 0} → (Text → Option J) → (J → Option Text) → Text → Text
indent_json unmarshal marshal_indent raw = elim (unmarshal raw) [
  | none ↦ raw
  | some v ↦ elim (marshal_indent v) [ none ↦ raw | some buf ↦ buf ]
]

-- the map entry of a status, 0 if there is none
unfoldable pub count_at : Text → List (Text × ℕ) → ℕ
count_at status [] = 0
count_at status ((k, n) ∷ counts) = if str_eq k status then n else count_at status counts

-- `counts[status]++`
unfoldable pub count_up : Text → List (Text × ℕ) → List (Text × ℕ)
count_up status [] = (status, 1) ∷ []
count_up status ((k, n) ∷ counts) =
    let later = count_up status counts in
    if str_eq k status then (k, n + 1) ∷ counts else (k, n) ∷ later

unfoldable pub count_statuses : List Issue → List (Text × ℕ) → List (Text × ℕ)
unfolding count_up status_text
count_statuses [] counts = counts
count_statuses (i ∷ issues) counts = count_statuses issues (count_up (status_text i.status) counts)

-- `sortedTagKeys`
unfoldable pub sorted_tag_keys : List (Text × Text) → List Text
unfolding text_le
sorted_tag_keys tags = order_by text_le (map (λ (e : Text × Text). e.0) tags)

-- What the client gets.
pub data Response : Type 0 where
  html : ℕ → Text → Response
  http_error : ℕ → Text → Response
  redirect : ℕ → Text → Response

-- What `ExecuteTemplate` gives: the whole text of a page, or an error.
pub data Execution : Type 0 where
  complete : Text → Execution
  failed : Text → Execution

-- `templateSet`; a template is what its execution on a page gives
abbrev pub TemplateSet : Type 0
TemplateSet = List (Text × (Page → Execution))

abbrev pub find_template : Text → TemplateSet → Option (Page → Execution)
find_template name [] = none
find_template name ((n, t) ∷ ts) = if str_eq n name then some t else find_template name ts

abbrev pub written : ℕ → Execution → Response
written status (complete text) = html status text
written status (failed e) = http_error 500 (codes "template error: " ++ e)

-- `render`
unfoldable pub render : TemplateSet → ℕ → Text → Page → Response
render ts status name page = elim (find_template name ts) [
  | none ↦ http_error 500 (codes "unknown template " ++ name)
  | some t ↦ written status (t page)
]
