-- ===== src/Command/Routes/Guard.antt =====
-- What the authentication lets through.
use trackdown.Prelude.{◌≡◌, ◌≢◌, ◌⊎◌, inl, inr, refl, Bool, true, false, some}
use trackdown.Store.Query.{Session}
use trackdown.Auth.{Config, Verdict, passed, too_many_attempts, unauthorized, require}
use trackdown.Auth.Laws.{require_passed}
use trackdown.Command.Routes.{
  Endpoint, envelope, healthz, management, web_ui, Answer, denied, throttled, Caller, App, Setting,
  judged, guarded, serve_endpoint, serve_management, web_handler,
}

-- the endpoints that a caller needs no credentials for
abbrev pub is_open : Endpoint → Bool
is_open (envelope r) = true
is_open healthz = true
is_open (management route) = false
is_open (web_ui route) = false

module _ {L F J : Type 0} (setting : Setting L F J) (cfg : Config) (caller : Caller) where
  abbrev Refused : App L F → Answer × App L F → Type 0
  Refused app r = ((r.0 ≡ denied) ⊎ (r.0 ≡ throttled)) × (r.1.ingest ≡ app.ingest)

  judged-Refused :
      (handler : Session → Answer × Session) (app : App L F) (v : Verdict × F)
      → v.0 ≢ passed
      → Refused app (judged setting handler app v)
  judged-Refused handler app (passed, f) h = absurd (h refl)
  judged-Refused handler app (too_many_attempts, f) h = (inr refl, refl)
  judged-Refused handler app (unauthorized, f) h = (inl refl, refl)

  guarded-Refused :
      (handler : Session → Answer × Session) (app : App L F)
      → caller.credentials ≢ some (cfg.username, cfg.password)
      → Refused app (guarded setting (some cfg) caller handler app)
  guarded-Refused handler app wrong =
      judged-Refused handler app
        (require cfg (some setting.failure_limiter) caller.credentials caller.ip
          app.ingest.session.now app.failures)
        (λ passes. wrong (
          (require_passed cfg (some setting.failure_limiter) caller.credentials caller.ip
              app.ingest.session.now app.failures).0.0
            passes))

  -- With authentication, a request without the configured user and password is answered 401 or 429
  -- by every endpoint but the envelopes' and the health check, and no handler runs: the database,
  -- the limiter of envelopes and the notifications stay as they are, and no statement is made.
  pub serve_endpoint-require :
      (endpoint : Endpoint) (app : App L F)
      → setting.auth ≡ some cfg
      → is_open endpoint ≡ false
      → caller.credentials ≢ some (cfg.username, cfg.password)
      → ((serve_endpoint setting endpoint caller app).0 ≡ denied
          ⊎ (serve_endpoint setting endpoint caller app).0 ≡ throttled)
        × ((serve_endpoint setting endpoint caller app).1.ingest ≡ app.ingest)
  unfolding serve_endpoint
  serve_endpoint-require (envelope r) app on guards wrong = cc
  serve_endpoint-require healthz app on guards wrong = cc
  serve_endpoint-require (management route) app on guards wrong =
      rw on (guarded-Refused (serve_management setting.ui.parse_int route) app wrong)
  serve_endpoint-require (web_ui route) app on guards wrong =
      rw on (guarded-Refused (web_handler setting route) app wrong)
