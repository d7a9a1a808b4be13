-- ===== src/Command/System.antt =====
-- The running program as a step relation: requests, the goroutines that deliver notifications, the
-- two loops that `serve` starts, and all that the environment does between them. A step runs to its
-- end before the next.
pub mod Consistent
pub mod Bounded
pub mod Deliveries
pub mod Projects
use trackdown.Prelude.{
  ◌≡◌, refl, sym, subst, Text, Bool, Option, none, some, List, [], ◌∷◌, ◌++◌, ℤ,
}
use trackdown.Alert.{NotifyEvent, Notifier}
use trackdown.Store.Types.{Time, OutboxEntry, empty_tables, Tables}
use trackdown.Store.Kept.{IsKept}
use trackdown.Store.Query as Query
use trackdown.Store.Query.{Result, Session, execute, select_rows}
use trackdown.Store.Events.{Zone}
use trackdown.Ingest.{notify, enqueue_failed}
use trackdown.Retry.{
  settle_entry, event_of, retry_each, retry_listed, retry_due_alerts, alert_retry_batch_size,
}
use trackdown.Command.{run_once}
use trackdown.Command.Routes.{Endpoint, Caller, App, Setting, serve_endpoint}
use trackdown.Command.Routes.Kept.{serve_endpoint_keeps}

-- the program, and what is outside: mail servers, receivers of webhooks, the network
pub record State (L F W : Type 0) : Type 0 where
  pub app : App L F
  pub outside : W

abbrev pub session_of : {L F W : Type 0} → State L F W → Session
session_of st = st.app.ingest.session

abbrev pub with_session : {L F W : Type 0} → State L F W → Session × W → State L F W
with_session st (s, w) = record {
  app = record st.app { ingest = record st.app.ingest { session = s } };
  outside = w;
}

abbrev pub with_pending : {L F W : Type 0} → State L F W → List NotifyEvent → State L F W
with_pending st events = record st {
  app = record st.app { ingest = record st.app.ingest { pending = events } };
}

module _ {L F J W : Type 0} (setting : Setting L F J) (notifier : Notifier W) (retention : ℤ) where
  pub data Step (st : State L F W) : State L F W → Type 0 where
    -- a request is answered
    request :
        (endpoint : Endpoint) (caller : Caller)
        → Step st (record st { app = (serve_endpoint setting endpoint caller st.app).1 })
    -- one of the goroutines of `notifyAsync` runs, in any order
    deliver :
        (ev : NotifyEvent) (before after : List NotifyEvent)
        → st.app.ingest.pending ≡ before ++ ev ∷ after
        → Step st (
            with_pending
              (with_session st (notify notifier ev (session_of st) st.outside))
              (before ++ after))
    -- a tick of `runAlertRetryLoop`
    retry : Step st (with_session st (retry_due_alerts notifier (session_of st) st.outside))
    -- a tick of `runRetentionLoop`
    clean :
        (zone : Zone)
        → Step st (with_session st (run_once zone retention (session_of st), st.outside))
    -- time passes, other statements will fail, and what is outside changes
    wait :
        (now : Time) (faults : List Bool) (w : W)
        → Step st (with_session st (record (session_of st) { now = now; faults = faults }, w))

  -- the states that the program reaches by some steps
  pub data Reach (st : State L F W) : State L F W → Type 0 where
    here : Reach st st
    next : {st' st'' : State L F W} → Reach st st' → Step st' st'' → Reach st st''

-- what the steps of the program keep: requests, the deliveries of notifications, and the two loops
pub record IsInvariant {W : Type 0} (notifier : Notifier W) (retention : ℤ) (P : Tables → Type 0)
    : Type 0 where
  pub by_requests : IsKept P
  pub by_notify :
      (ev : NotifyEvent) (s : Session) (w : W) → P s.tables → P (notify notifier ev s w).0.tables
  pub by_retry : (s : Session) (w : W) → P s.tables → P (retry_due_alerts notifier s w).0.tables
  pub by_run_once : (zone : Zone) (s : Session) → P s.tables → P (run_once zone retention s).tables

module _ {L F J W : Type 0} (setting : Setting L F J) (notifier : Notifier W) (retention : ℤ)
    (P : Tables → Type 0) (i : IsInvariant notifier retention P) where
  Step_keeps :
      {st st' : State L F W}
      → Step setting notifier retention st st'
      → P (session_of st).tables
      → P (session_of st').tables
  Step_keeps {st} (request endpoint caller) h =
      serve_endpoint_keeps P i.by_requests setting caller endpoint st.app h
  Step_keeps {st} (deliver ev before after queued) h = i.by_notify ev (session_of st) st.outside h
  Step_keeps {st} retry h = i.by_retry (session_of st) st.outside h
  Step_keeps {st} (clean zone) h = i.by_run_once zone (session_of st) h
  Step_keeps (wait now faults w) h = h

  -- An invariant that holds at the start holds in every state that the program reaches.
  pub Reach_keeps :
      {st st' : State L F W}
      → P (session_of st).tables
      → Reach setting notifier retention st st'
      → P (session_of st').tables
  Reach_keeps h here = h
  Reach_keeps h (next r step) = Step_keeps step (Reach_keeps h r)
