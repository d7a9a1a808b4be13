-- ===== src/Command/System/Bounded.antt =====
-- The bound on the attempts that the outbox records of an alert, in the running program.
use trackdown.Prelude.{◌≡◌, sym, subst, Text, Option, none, some, ℤ, All}
use trackdown.Alert.{NotifyEvent, Notifier}
use trackdown.Store.Types.{Tables, empty_tables}
use trackdown.Store.Query.{Session}
use trackdown.Store.Query.Laws.{execute_keeps}
use trackdown.Store.Events.{Zone, delete_old_events}
use trackdown.Store.Kept.Aside.{aside-IsKept}
use trackdown.Ingest.{notify, enqueue_failed, entry_of}
use trackdown.Retry.Attempts.{IsBounded, enqueue_alert-IsBounded, retry_due_alerts-IsBounded}
use trackdown.Command.{run_once}
use trackdown.Command.Routes.{Setting}
use trackdown.Command.System.{State, Reach, session_of, IsInvariant, Reach_keeps}

-- every alert of the outbox is within the bound
abbrev pub OutboxIsBounded : Tables → Type 0
OutboxIsBounded t = All IsBounded t.outbox

enqueue_failed-IsBounded :
    (ev : NotifyEvent) (o : Option Text) (s : Session)
    → OutboxIsBounded s.tables
    → OutboxIsBounded (enqueue_failed ev o s).tables
enqueue_failed-IsBounded ev none s h = h
enqueue_failed-IsBounded ev (some msg) s h = enqueue_alert-IsBounded (entry_of ev) (some msg) s h

run_once-IsBounded :
    (zone : Zone) (retention : ℤ) (s : Session)
    → OutboxIsBounded s.tables
    → OutboxIsBounded (run_once zone retention s).tables
unfolding run_once delete_old_events
run_once-IsBounded zone retention s h = execute_keeps OutboxIsBounded _ s h h

module _ {L F J W : Type 0} (setting : Setting L F J) (notifier : Notifier W) (retention : ℤ) where
  OutboxIsBounded-IsInvariant : IsInvariant notifier retention OutboxIsBounded
  unfolding notify
  OutboxIsBounded-IsInvariant = record {
    by_requests =
        aside-IsKept (λ projects outbox. All IsBounded outbox)
          (λ id public_key now projects outbox absent h. h);
    by_notify = λ ev s w h. enqueue_failed-IsBounded ev (notifier ev w).0 s h;
    by_retry = λ s w h. retry_due_alerts-IsBounded notifier s w h;
    by_run_once = λ zone s h. run_once-IsBounded zone retention s h;
  }

  -- In every state that the program reaches from an empty database, however requests, deliveries,
  -- retries, retention and failures of the database follow each other, each alert of the outbox has
  -- at most eight attempts recorded, and fewer than eight while it is pending. A delivery whose
  -- record the database refuses is not among those recorded.
  pub Reach-IsBounded :
      {st st' : State L F W}
      → (session_of st).tables ≡ empty_tables
      → Reach setting notifier retention st st'
      → All IsBounded (session_of st').tables.outbox
  Reach-IsBounded empty r =
      Reach_keeps setting notifier retention OutboxIsBounded OutboxIsBounded-IsInvariant
        (subst OutboxIsBounded (sym empty) tt) r
