-- ===== src/Command/Routes/Kept.antt =====
-- Every endpoint keeps what every write of the store keeps.
use trackdown.Prelude.{◌∙◌, refl, sym, subst, Text, Option, none, some}
use trackdown.Store.Types.{IssueStatus, unresolved, resolved, ignored}
use trackdown.Store.Query.{Session, reach}
use trackdown.Store.Types.{Tables}
use trackdown.Store.Kept.{IsKept, reads_keep}
use trackdown.Auth.{Config, Verdict, passed, too_many_attempts, unauthorized, require}
use trackdown.Ingest.Keeps.{serve_envelope_keeps}
use trackdown.WebUi as WebUi
use trackdown.WebUi.{handle_issue_action}
use trackdown.WebUi.Routes.{
  Route, get_home, get_project_index, get_project_setup, get_issue_list, get_issue_detail,
  post_resolve, post_ignore, post_reopen, get_event_detail, serve_route, respond,
}
use trackdown.WebUi.Reads.{serve_route-Reads}
use trackdown.WebUi.Actions.{handle_issue_action-serve_set_issue_status}
use trackdown.Command.Routes.{
  Endpoint, envelope, healthz, management, web_ui, Answer, Caller, App, Setting, judged, guarded,
  serve_endpoint, serve_management, web_handler, serve_healthz, ping,
}
use trackdown.Command.Routes.Managed.{
  reach-Reads, ping-Reads, serve_management_keeps, serve_set_issue_status_keeps,
}

module _ (P : Tables → Type 0) (k : IsKept P) where
  module _ {J : Type 0} (services : WebUi.Services J) where
    action_keeps :
        (status : IssueStatus) (project_id id : Text) (s : Session)
        → P s.tables
        → P (handle_issue_action services status project_id id s).1.tables
    action_keeps status project_id id s c =
        subst (λ (s' : Session). P s'.tables)
          (sym (handle_issue_action-serve_set_issue_status services status project_id id s))
          (serve_set_issue_status_keeps P k services.parse_int project_id id status s c)

    serve_route_keeps :
        (route : Route) (s : Session) → P s.tables → P (serve_route services route s).1.tables
    serve_route_keeps (post_resolve project_id id) s c =
        unfold serve_route in action_keeps resolved project_id id s c
    serve_route_keeps (post_ignore project_id id) s c =
        unfold serve_route in action_keeps ignored project_id id s c
    serve_route_keeps (post_reopen project_id id) s c =
        unfold serve_route in action_keeps unresolved project_id id s c
    serve_route_keeps get_home s c = reads_keep P (serve_route-Reads services get_home s refl) c
    serve_route_keeps (get_project_index p) s c =
        reads_keep P (serve_route-Reads services (get_project_index p) s refl) c
    serve_route_keeps (get_project_setup p o) s c =
        reads_keep P (serve_route-Reads services (get_project_setup p o) s refl) c
    serve_route_keeps (get_issue_list p status) s c =
        reads_keep P (serve_route-Reads services (get_issue_list p status) s refl) c
    serve_route_keeps (get_issue_detail p id) s c =
        reads_keep P (serve_route-Reads services (get_issue_detail p id) s refl) c
    serve_route_keeps (get_event_detail p id) s c =
        reads_keep P (serve_route-Reads services (get_event_detail p id) s refl) c

  module _ {L F J : Type 0} (setting : Setting L F J) (caller : Caller) where
    judged_keeps :
        (handler : Session → Answer × Session)
        → ((s : Session) → P s.tables → P (handler s).1.tables)
        → (app : App L F) (v : Verdict × F) → P app.ingest.session.tables
        → P (judged setting handler app v).1.ingest.session.tables
    judged_keeps handler keeps app (passed, f) c = keeps app.ingest.session c
    judged_keeps handler keeps app (too_many_attempts, f) c = c
    judged_keeps handler keeps app (unauthorized, f) c = c

    guarded_keeps :
        (handler : Session → Answer × Session)
        → ((s : Session) → P s.tables → P (handler s).1.tables)
        → (o : Option Config) (app : App L F) → P app.ingest.session.tables
        → P (guarded setting o caller handler app).1.ingest.session.tables
    guarded_keeps handler keeps none app c = keeps app.ingest.session c
    guarded_keeps handler keeps (some cfg) app c =
        judged_keeps handler keeps app
          (require cfg (some setting.failure_limiter) caller.credentials caller.ip
            app.ingest.session.now app.failures)
          c

    -- Every request to the program keeps what every write keeps: whichever endpoint it is for, with or
    -- without credentials, whatever it holds and whichever statements fail.
    pub serve_endpoint_keeps :
        (endpoint : Endpoint) (app : App L F)
        → P app.ingest.session.tables
        → P (serve_endpoint setting endpoint caller app).1.ingest.session.tables
    unfolding serve_endpoint
    serve_endpoint_keeps (envelope r) app c =
        serve_envelope_keeps setting.services setting.limiter setting.has_notifier P k r app.ingest
          c
    serve_endpoint_keeps healthz app c =
        unfold serve_healthz ping in
        reads_keep P
          (ping-Reads (reach app.ingest.session).0 (reach app.ingest.session).1
            ∙ reach-Reads app.ingest.session)
          c
    serve_endpoint_keeps (management route) app c =
        guarded_keeps (serve_management setting.ui.parse_int route)
          (serve_management_keeps P k setting.ui.parse_int route) setting.auth app c
    serve_endpoint_keeps (web_ui route) app c =
        guarded_keeps (web_handler setting route)
          (λ s h. unfold respond in serve_route_keeps setting.ui route s h) setting.auth app c
