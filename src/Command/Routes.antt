-- ===== src/Command/Routes.antt =====
-- cmd/trackdown/main.go: the endpoints that `serve` puts behind one handler, and which of them the
-- authentication guards (`Handler.Register` of ingest.go). net/http has matched a request to a route
-- and found its path values, and encoding/json the version in the body of a new release.
pub mod Guard
pub mod Managed
pub mod Kept
use trackdown.Prelude.{ℕ, Text, Bool, true, false, Option, none, some, List, if◌then◌else◌}
use trackdown.Store.Types.{IssueStatus, unresolved, resolved, ignored}
use trackdown.Store.Query as Query
use trackdown.Store.Query.{Result, Query, Session, reach, ◌>>=◌}
use trackdown.Store.Events.{StoredEvent}
use trackdown.Store.Issues.{Issue}
use trackdown.Auth.{
  Config, FailedAttemptLimiter, Verdict, passed, too_many_attempts, unauthorized, require,
}
use trackdown.Ingest as Ingest
use trackdown.Ingest.{Server, RateLimiter, serve_envelope}
use trackdown.Ingest.Body.{Request, Stream}
use trackdown.Ingest.Manage.{
  serve_events, serve_event, serve_issues, serve_issue, serve_issue_events, serve_set_issue_status,
}
use trackdown.Ingest.Upload.{serve_create_release, serve_upload_artifact}
use trackdown.WebUi as WebUi
use trackdown.WebUi.Routes.{Route, respond}
use trackdown.WebUi.Pages as Pages
use trackdown.WebUi.Pages.{TemplateSet}

-- the management routes of `Handler.Register`
pub data ManagementRoute : Type 0 where
  list_events list_issues : Text → ManagementRoute
  get_event get_issue list_issue_events : Text → Text → ManagementRoute
  set_status : IssueStatus → Text → Text → ManagementRoute
  create_release : Text → Option Text → ManagementRoute
  upload_artifact : Text → Text → Text → Stream → ManagementRoute

pub data Endpoint : Type 0 where
  envelope : Request → Endpoint
  healthz : Endpoint
  management : ManagementRoute → Endpoint
  web_ui : Route → Endpoint

pub data Answer : Type 0 where
  accepted : Ingest.Response Text → Answer
  events : Ingest.Response (List StoredEvent) → Answer
  event : Ingest.Response StoredEvent → Answer
  issues : Ingest.Response (List Issue) → Answer
  issue : Ingest.Response Issue → Answer
  done : Ingest.Response (Unit {0}) → Answer
  release : Ingest.Response (ℕ × Text) → Answer
  page : Pages.Response → Answer
  healthy unhealthy : Answer
  -- 401 and 429 of the authentication
  denied throttled : Answer

abbrev answered {ℓ} : {A : Type ℓ} → (A → Answer) → A × Session → Answer × Session
answered f (a, s) = (f a, s)

-- the management handlers
unfoldable pub serve_management : (Text → Option ℕ) → ManagementRoute → Session → Answer × Session
unfolding serve_events serve_event serve_issues serve_issue serve_issue_events
    serve_set_issue_status serve_create_release serve_upload_artifact
serve_management parse_int (list_events project_id) s = answered events (serve_events project_id s)
serve_management parse_int (list_issues project_id) s = answered issues (serve_issues project_id s)
serve_management parse_int (get_event project_id id) s =
    answered event (serve_event project_id id s)
serve_management parse_int (get_issue project_id id) s =
    answered issue (serve_issue parse_int project_id id s)
serve_management parse_int (list_issue_events project_id id) s =
    answered events (serve_issue_events parse_int project_id id s)
serve_management parse_int (set_status status project_id id) s =
    answered done (serve_set_issue_status parse_int project_id id status s)
serve_management parse_int (create_release project_id version) s =
    answered release (serve_create_release project_id version s)
serve_management parse_int (upload_artifact project_id version abs_path body) s =
    answered done (serve_upload_artifact project_id version abs_path body s)

-- `Store.Ping`: the writer and the reader
unfoldable pub ping : Query (Unit {0})
unfolding reach
ping = reach >>= λ _. reach

abbrev health : Result (Unit {0}) → Answer
health (Query.ok u) = healthy
health (Query.err e) = unhealthy

-- `healthzHandler`
unfoldable pub serve_healthz : Session → Answer × Session
unfolding ping
serve_healthz s = let (r, s') = ping s in (health r, s')

-- who asks: the credentials of the request, if it has any, and the address
pub record Caller : Type 0 where
  pub credentials : Option (Text × Text)
  pub ip : Text

-- the server of `serve`, with the limiter of failed authentications
pub record App (L F : Type 0) : Type 0 where
  pub ingest : Server L
  pub failures : F

-- what is fixed while the program runs; `auth` is none under `-insecure-no-auth`
pub record Setting (L F J : Type 0) : Type 0 where
  pub services : Ingest.Body.Services
  pub limiter : Option (RateLimiter L)
  pub has_notifier : Bool
  pub auth : Option Config
  pub failure_limiter : FailedAttemptLimiter F
  pub ui : WebUi.Services J
  pub templates : TemplateSet

module _ {L F J : Type 0} (setting : Setting L F J) where
  abbrev pub on_session : (Session → Answer × Session) → App L F → Answer × App L F
  on_session handler app =
      let (a, s) = handler app.ingest.session in
      (a, record app { ingest = record app.ingest { session = s } })

  abbrev pub judged : (Session → Answer × Session) → App L F → Verdict × F → Answer × App L F
  judged handler app (passed, f) = on_session handler (record app { failures = f })
  judged handler app (too_many_attempts, f) = (throttled, record app { failures = f })
  judged handler app (unauthorized, f) = (denied, record app { failures = f })

  -- `wrapManagement` around a handler
  abbrev pub guarded :
      Option Config → Caller → (Session → Answer × Session) → App L F → Answer × App L F
  guarded none caller handler app = on_session handler app
  guarded (some cfg) caller handler app = judged handler app (
      require cfg (some setting.failure_limiter) caller.credentials caller.ip app.ingest.session.now
        app.failures)

  abbrev pub on_ingest : App L F → Ingest.Response Text × Server L → Answer × App L F
  on_ingest app (r, st) = (accepted r, record app { ingest = st })

  abbrev web_handler : Route → Session → Answer × Session
  web_handler route s = answered page (respond setting.templates setting.ui route s)

  -- the root handler of `serve`
  unfoldable pub serve_endpoint : Endpoint → Caller → App L F → Answer × App L F
  unfolding serve_envelope serve_healthz serve_management respond require
  serve_endpoint (envelope r) caller app =
      on_ingest app
        (serve_envelope setting.services setting.limiter setting.has_notifier r app.ingest)
  serve_endpoint healthz caller app = on_session serve_healthz app
  serve_endpoint (management route) caller app =
      guarded setting.auth caller (serve_management setting.ui.parse_int route) app
  serve_endpoint (web_ui route) caller app = guarded setting.auth caller (web_handler route) app
