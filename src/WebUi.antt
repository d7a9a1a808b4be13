-- ===== src/WebUi.antt =====
-- internal/server: the handlers of the web UI (handlers.go). Of a
-- request the model has the path values, what the handlers read of the rest, and the method by the
-- route. `strconv.ParseInt` is an argument; a negative number, which is the id of no row, is left
-- out of the model.
pub mod Symbolication
pub mod Pages
pub mod Routes
pub mod Templates
pub mod Reads
pub mod IssueList
pub mod Actions
use trackdown.Prelude.{
  ℕ, Text, codes, Bool, true, false, not, ◌&&◌, ◌||◌, Option, none, some, List, [], ◌∷◌, ◌++◌, map,
  filter, if◌then◌else◌, is_empty, str_eq, decimal,
}
use trackdown.Protocol.Types.{Event}
use trackdown.Protocol.Json.{JsonCodec}
use trackdown.Protocol.Decode.{parse_event}
use trackdown.Store.Types.{IssueStatus, unresolved, resolved, ignored, Project, status_text}
use trackdown.Store.Query as Query
use trackdown.Store.Query.{Result, no_rows, failure, constraint, Session, DbError}
use trackdown.Store.Projects.{get_project, list_projects}
use trackdown.Store.Events.{StoredEvent, get_event, list_events_by_issue}
use trackdown.Store.Issues.{Issue, get_issue, list_issues, set_issue_status}
use trackdown.Symbolicate.{SourceMap}
use trackdown.WebUi.Symbolication.{build_display_exceptions}
use trackdown.WebUi.Pages.{
  HomePage, SetupPage, IssueListPage, IssueDetailPage, EventDetailPage, Page, home, setup,
  issue_list, issue_detail, event_detail, to_issue_row, indent_json, count_statuses, Response, html,
  http_error, redirect, TemplateSet, render,
}

-- What the handlers call and is not the repository's: strconv and encoding/json, which reads an
-- event, a source map or any value `J`, and writes one.
pub record Services (J : Type 0) : Type 0 where
  pub parse_int : Text → Option ℕ
  pub parse_int_error : Text → Text
  pub event_json : JsonCodec
  pub map_json : Text → Option SourceMap
  pub any_json : Text → Option J
  pub indent : J → Option Text

-- What a handler answers: a page for a template, or one of the answers without a template.
pub data Reply : Type 0 where
  show : Text → Page → Reply
  fails : ℕ → Text → Reply
  moves : ℕ → Text → Reply

abbrev pub internal_error : Reply
internal_error = fails 500 (codes "internal error")

-- the answer to an error of the store, for a row that may be missing
abbrev pub missing : Text → DbError → Reply
missing what no_rows = fails 404 (what ++ codes " not found")
missing what failure = internal_error
missing what constraint = internal_error

abbrev home_reply : Result (List Project) → Reply
home_reply (Query.ok projects) =
    let p : HomePage = record { projects = projects } in show (codes "home") (home p)
home_reply (Query.err e) = internal_error

-- `handleHome`
unfoldable pub handle_home : Session → Reply × Session
unfolding list_projects
handle_home s = let (found, s') = list_projects s in (home_reply found, s')

-- `handleProjectIndex`
unfoldable pub handle_project_index : Text → Session → Reply × Session
handle_project_index project_id s =
    (moves 302 (codes "/projects/" ++ project_id ++ codes "/issues/"), s)

-- what `handleProjectSetup` reads of a request: TLS, `X-Forwarded-Proto` and the host
pub record Origin : Type 0 where
  pub tls : Bool
  pub forwarded_proto : Text
  pub host : Text

-- the DSN of a project
unfoldable pub dsn_of : Origin → Project → Text
dsn_of o p =
    (if o.tls || str_eq o.forwarded_proto (codes "https") then codes "https" else codes "http")
    ++ codes "://"
    ++ p.public_key
    ++ codes "@"
    ++ o.host
    ++ codes "/"
    ++ p.id

abbrev setup_reply : Text → Origin → Result Project → Reply
setup_reply project_id o (Query.ok p) =
    let page : SetupPage = record { project_id = project_id; dsn = dsn_of o p } in
    show (codes "setup") (setup page)
setup_reply project_id o (Query.err e) = missing (codes "project") e

-- `handleProjectSetup`
unfoldable pub handle_project_setup : Text → Origin → Session → Reply × Session
unfolding get_project dsn_of
handle_project_setup project_id o s =
    let (found, s') = get_project project_id s in (setup_reply project_id o found, s')

-- the filter of the list: the query's `status`, or "unresolved"
abbrev pub status_filter : Text → Text
status_filter status = if is_empty status then status_text unresolved else status

-- whether the loop of `handleIssueList` takes an issue
unfoldable pub is_listed : Text → Issue → Bool
unfolding status_text
is_listed status i = str_eq status (codes "all") || str_eq (status_text i.status) status

unfoldable pub issue_list_page : Text → Text → List Issue → IssueListPage
unfolding is_listed count_statuses to_issue_row
issue_list_page project_id status issues = record {
  project_id = project_id;
  status = status;
  counts = count_statuses issues [];
  issues = map to_issue_row (filter (is_listed status) issues);
}

abbrev issues_reply : Text → Text → Result (List Issue) → Reply
issues_reply project_id status (Query.ok issues) =
    show (codes "issues_list")
      (issue_list (issue_list_page project_id (status_filter status) issues))
issues_reply project_id status (Query.err e) = internal_error

abbrev list_reply : Text → Text → Result Project × Session → Reply × Session
list_reply project_id status (Query.ok p, s) =
    let (found, s') = list_issues project_id s in (issues_reply project_id status found, s')
list_reply project_id status (Query.err e, s) = (missing (codes "project") e, s)

-- `handleIssueList`, with the query's `status`, empty if absent
unfoldable pub handle_issue_list : Text → Text → Session → Reply × Session
unfolding get_project list_issues issue_list_page
handle_issue_list project_id status s = list_reply project_id status (get_project project_id s)

abbrev pub detail_page : Text → Issue → List StoredEvent → IssueDetailPage
detail_page project_id i events = record {
  project_id = project_id;
  id = i.id;
  title = i.title;
  status = i.status;
  fingerprint = i.fingerprint;
  event_count = i.event_count;
  first_seen = i.first_seen;
  last_seen = i.last_seen;
  events = events;
}

abbrev events_reply : Text → Issue → Result (List StoredEvent) → Reply
events_reply project_id i (Query.ok events) =
    show (codes "issue_detail") (issue_detail (detail_page project_id i events))
events_reply project_id i (Query.err e) = internal_error

abbrev issue_reply : Text → ℕ → Result Issue × Session → Reply × Session
issue_reply project_id id (Query.ok i, s) =
    let (found, s') = list_events_by_issue project_id id s in (events_reply project_id i found, s')
issue_reply project_id id (Query.err e, s) = (missing (codes "issue") e, s)

abbrev pub issue_path : Text → ℕ → Text
issue_path project_id id = codes "/projects/" ++ project_id ++ codes "/issues/" ++ decimal id

abbrev action_reply : Text → ℕ → Result (Unit {0}) → Reply
action_reply project_id id (Query.ok u) = moves 303 (issue_path project_id id)
action_reply project_id id (Query.err e) = missing (codes "issue") e

module _ {J : Type 0} (services : Services J) where
  -- the answer to the error of `parseIssueID`
  unfoldable pub bad_issue_id : Text → Reply
  bad_issue_id issue_id =
      fails 400 (codes "invalid issue_id: " ++ services.parse_int_error issue_id)

  abbrev detail_of : Text → Text → Option ℕ → Session → Reply × Session
  detail_of project_id issue_id none s = (bad_issue_id issue_id, s)
  detail_of project_id issue_id (some id) s = issue_reply project_id id (get_issue project_id id s)

  -- `handleIssueDetail`, with `parseIssueID`
  unfoldable pub handle_issue_detail : Text → Text → Session → Reply × Session
  unfolding get_issue list_events_by_issue bad_issue_id
  handle_issue_detail project_id issue_id s =
      detail_of project_id issue_id (services.parse_int issue_id) s

  abbrev action_on : IssueStatus → Text → Text → Option ℕ → Session → Reply × Session
  action_on status project_id issue_id none s = (bad_issue_id issue_id, s)
  action_on status project_id issue_id (some id) s =
      let (done, s') = set_issue_status project_id id status s in
      (action_reply project_id id done, s')

  -- the handler that `handleIssueAction` returns
  unfoldable pub handle_issue_action : IssueStatus → Text → Text → Session → Reply × Session
  unfolding set_issue_status decimal bad_issue_id
  handle_issue_action status project_id issue_id s =
      action_on status project_id issue_id (services.parse_int issue_id) s

  abbrev event_page : Text → StoredEvent → Option Event → Session → Reply × Session
  event_page project_id stored none s =
      (fails 500 (codes "internal error: corrupt stored event"), s)
  event_page project_id stored (some ev) s =
      let (exceptions, s') = build_display_exceptions services.map_json project_id ev s in
      let page : EventDetailPage = record {
        project_id = project_id;
        stored = stored;
        event = ev;
        exceptions = exceptions;
        raw_json = indent_json services.any_json services.indent stored.payload;
      } in
      (show (codes "event_detail") (event_detail page), s')

  abbrev event_reply : Text → Result StoredEvent × Session → Reply × Session
  event_reply project_id (Query.ok stored, s) =
      event_page project_id stored (parse_event services.event_json stored.payload) s
  event_reply project_id (Query.err e, s) = (missing (codes "event") e, s)

  -- `handleEventDetail`
  unfoldable pub handle_event_detail : Text → Text → Session → Reply × Session
  unfolding get_event parse_event build_display_exceptions indent_json
  handle_event_detail project_id event_id s =
      event_reply project_id (get_event project_id event_id s)
