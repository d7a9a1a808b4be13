-- ===== src/Command/System/Deliveries.antt =====
-- Deliveries and retries write to the outbox alone.
use trackdown.Prelude.{ℕ, ℤ, Text, Option, none, some, List, [], ◌∷◌}
use trackdown.Alert.{NotifyEvent, Notifier}
use trackdown.Store.Types.{OutboxEntry, Tables}
use trackdown.Store.Query as Query
use trackdown.Store.Query.{Result, Session}
use trackdown.Store.Query.Laws.{execute_keeps, select_rows-Reads}
use trackdown.Store.Outbox.{enqueue_alert, due_alerts, mark_alert_delivered, mark_alert_failed}
use trackdown.Store.Events.{Zone}
use trackdown.Store.Kept.{IsKept, reads_keep}
use trackdown.Ingest.{notify, enqueue_failed}
use trackdown.Retry.{
  settle_entry, event_of, retry_each, retry_listed, retry_due_alerts, alert_retry_batch_size,
}
use trackdown.Command.{run_once}
use trackdown.Command.System.{IsInvariant}

-- a property of the tables that does not depend on the outbox
module _ (P : Tables → Type 0)
    (free : (t : Tables) (outbox : List OutboxEntry) (seq : ℕ)
      → P t
      → P (record t { outbox = outbox; outbox_seq = seq })) where
  enqueue_failed_keeps :
      (ev : NotifyEvent) (o : Option Text) (s : Session)
      → P s.tables
      → P (enqueue_failed ev o s).tables
  unfolding enqueue_alert
  enqueue_failed_keeps ev none s c = c
  enqueue_failed_keeps ev (some msg) s c = execute_keeps P _ s c (free s.tables _ _ c)

  settle_entry_keeps :
      (e : OutboxEntry) (f : Option Text) (s : Session) → P s.tables → P (settle_entry e f s).tables
  unfolding settle_entry mark_alert_delivered mark_alert_failed
  settle_entry_keeps e none s c = execute_keeps P _ s c (free s.tables _ _ c)
  settle_entry_keeps e (some msg) s c = execute_keeps P _ s c (free s.tables _ _ c)

  module _ {W : Type 0} (notifier : Notifier W) where
    retry_each_keeps :
        (due : List OutboxEntry) (s : Session) (w : W)
        → P s.tables
        → P (retry_each notifier due s w).0.tables
    unfolding retry_each
    retry_each_keeps [] s w c = c
    retry_each_keeps (e ∷ due) s w c =
        let (f, w') = notifier (event_of e) w in
        retry_each_keeps due (settle_entry e f s) w' (settle_entry_keeps e f s c)

    retry_listed_keeps :
        (r : Result (List OutboxEntry)) (s : Session) (w : W)
        → P s.tables
        → P (retry_listed notifier r s w).0.tables
    retry_listed_keeps (Query.ok due) s w c = retry_each_keeps due s w c
    retry_listed_keeps (Query.err e) s w c = c

    retry_due_alerts_keeps :
        (s : Session) (w : W) → P s.tables → P (retry_due_alerts notifier s w).0.tables
    unfolding retry_due_alerts due_alerts
    retry_due_alerts_keeps s w c =
        let q = due_alerts s.now alert_retry_batch_size s in
        retry_listed_keeps q.0 q.1 w (reads_keep P (select_rows-Reads _ s) c)

  -- What every write of the handlers and the retention keep is an invariant of the program.
  pub free-IsInvariant :
      {W : Type 0} (notifier : Notifier W) (retention : ℤ)
      → IsKept P
      → ((zone : Zone) (s : Session) → P s.tables → P (run_once zone retention s).tables)
      → IsInvariant notifier retention P
  unfolding notify
  free-IsInvariant notifier retention kept cleans = record {
    by_requests = kept;
    by_notify = λ ev s w c. enqueue_failed_keeps ev (notifier ev w).0 s c;
    by_retry = λ s w c. retry_due_alerts_keeps notifier s w c;
    by_run_once = cleans;
  }
