-- ===== src/WebUi/Reads.antt =====
-- The pages of the web UI only read.
use trackdown.Prelude.{◌≡◌, refl, ◌∙◌, Text, Bool, true, false, Option, none, some, ℕ}
use trackdown.Protocol.Types.{Event}
use trackdown.Protocol.Decode.{parse_event}
use trackdown.Store.Types.{Project}
use trackdown.Store.Query as Query
use trackdown.Store.Query.{Result, Session}
use trackdown.Store.Query.Laws.{select_row-Reads, select_rows-Reads}
use trackdown.Store.Projects.{get_project, list_projects}
use trackdown.Store.Events.{StoredEvent, get_event, list_events_by_issue}
use trackdown.Store.Issues.{Issue, get_issue, list_issues}
use trackdown.WebUi.Symbolication.Raw.{build_display_exceptions-raw}
use trackdown.WebUi.{Services, list_reply, issue_reply, detail_of, event_page, event_reply}
use trackdown.WebUi.Routes.{
  Route, get_home, get_project_index, get_project_setup, get_issue_list, get_issue_detail,
  post_resolve, post_ignore, post_reopen, get_event_detail, serve_route,
}

-- whether a route is one of GET
abbrev pub is_get : Route → Bool
is_get (post_resolve project_id id) = false
is_get (post_ignore project_id id) = false
is_get (post_reopen project_id id) = false
is_get get_home = true
is_get (get_project_index project_id) = true
is_get (get_project_setup project_id o) = true
is_get (get_issue_list project_id status) = true
is_get (get_issue_detail project_id id) = true
is_get (get_event_detail project_id id) = true

list_reply-Reads :
    (project_id status : Text) (r : Result Project × Session)
    → (list_reply project_id status r).1.tables ≡ r.1.tables
unfolding list_issues
list_reply-Reads project_id status (Query.ok p, s) = select_rows-Reads _ s
list_reply-Reads project_id status (Query.err e, s) = refl

issue_reply-Reads :
    (project_id : Text) (id : ℕ) (r : Result Issue × Session)
    → (issue_reply project_id id r).1.tables ≡ r.1.tables
unfolding list_events_by_issue
issue_reply-Reads project_id id (Query.ok i, s) = select_rows-Reads _ s
issue_reply-Reads project_id id (Query.err e, s) = refl

module _ {J : Type 0} (services : Services J) where
  detail_of-Reads :
      (project_id issue_id : Text) (o : Option ℕ) (s : Session)
      → (detail_of services project_id issue_id o s).1.tables ≡ s.tables
  unfolding get_issue
  detail_of-Reads project_id issue_id none s = refl
  detail_of-Reads project_id issue_id (some id) s =
      issue_reply-Reads project_id id (get_issue project_id id s) ∙ select_row-Reads _ s

  event_page-Reads :
      (project_id : Text) (stored : StoredEvent) (o : Option Event) (s : Session)
      → (event_page services project_id stored o s).1.tables ≡ s.tables
  event_page-Reads project_id stored none s = refl
  event_page-Reads project_id stored (some ev) s =
      (build_display_exceptions-raw services.map_json project_id ev s).1

  event_reply-Reads :
      (project_id : Text) (r : Result StoredEvent × Session)
      → (event_reply services project_id r).1.tables ≡ r.1.tables
  event_reply-Reads project_id (Query.ok stored, s) =
      event_page-Reads project_id stored (parse_event services.event_json stored.payload) s
  event_reply-Reads project_id (Query.err e, s) = refl

  -- A GET request to the web UI changes no table, whatever the database answers.
  pub serve_route-Reads :
      (route : Route) (s : Session)
      → is_get route ≡ true
      → (serve_route services route s).1.tables ≡ s.tables
  unfolding serve_route get_project
  serve_route-Reads get_home s h = unfold list_projects in select_rows-Reads _ s
  serve_route-Reads (get_project_index project_id) s h = refl
  serve_route-Reads (get_project_setup project_id o) s h = select_row-Reads _ s
  serve_route-Reads (get_issue_list project_id status) s h =
      list_reply-Reads project_id status (get_project project_id s) ∙ select_row-Reads _ s
  serve_route-Reads (get_issue_detail project_id id) s h =
      detail_of-Reads project_id id (services.parse_int id) s
  serve_route-Reads (post_resolve project_id id) s h = cc
  serve_route-Reads (post_ignore project_id id) s h = cc
  serve_route-Reads (post_reopen project_id id) s h = cc
  serve_route-Reads (get_event_detail project_id id) s h =
      event_reply-Reads project_id (get_event project_id id s)
      ∙ (unfold get_event in select_row-Reads _ s)
