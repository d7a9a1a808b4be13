-- ===== src/WebUi/Routes.antt =====
-- internal/server/server.go: the routes of the web UI, and how an answer is written.
use trackdown.Prelude.{Text}
use trackdown.Store.Types.{unresolved, resolved, ignored}
use trackdown.Store.Query.{Session}
use trackdown.WebUi.Pages.{Response, http_error, redirect, TemplateSet, render}
use trackdown.WebUi.{
  Services, Reply, show, fails, moves, Origin, handle_home, handle_project_index,
  handle_project_setup, handle_issue_list, handle_issue_detail, handle_issue_action,
  handle_event_detail,
}

-- The routes of `Register`, with the path values of a request that net/http matched to one. The
-- files of `GET /static/` are none of the handlers'.
pub data Route : Type 0 where
  get_home : Route
  get_project_index : Text → Route
  get_project_setup : Text → Origin → Route
  get_issue_list : Text → Text → Route
  get_issue_detail : Text → Text → Route
  post_resolve post_ignore post_reopen : Text → Text → Route
  get_event_detail : Text → Text → Route

-- `Server.Register`: the handler of each route
unfoldable pub serve_route : {J : Type 0} → Services J → Route → Session → Reply × Session
unfolding handle_home handle_project_index handle_project_setup handle_issue_list
    handle_issue_detail handle_issue_action handle_event_detail
serve_route services get_home s = handle_home s
serve_route services (get_project_index project_id) s = handle_project_index project_id s
serve_route services (get_project_setup project_id o) s = handle_project_setup project_id o s
serve_route services (get_issue_list project_id status) s = handle_issue_list project_id status s
serve_route services (get_issue_detail project_id id) s =
    handle_issue_detail services project_id id s
serve_route services (post_resolve project_id id) s =
    handle_issue_action services resolved project_id id s
serve_route services (post_ignore project_id id) s =
    handle_issue_action services ignored project_id id s
serve_route services (post_reopen project_id id) s =
    handle_issue_action services unresolved project_id id s
serve_route services (get_event_detail project_id id) s =
    handle_event_detail services project_id id s

abbrev respond_to : TemplateSet → Reply → Response
respond_to ts (show name page) = render ts 200 name page
respond_to ts (fails status text) = http_error status text
respond_to ts (moves status path) = redirect status path

-- a request from its route to the answer
unfoldable pub respond :
    {J : Type 0} → TemplateSet → Services J → Route → Session → Response × Session
unfolding serve_route render
respond ts services route s =
    let (reply, s') = serve_route services route s in (respond_to ts reply, s')
