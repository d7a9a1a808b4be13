-- ===== src/Retry.antt =====
-- The retry loop of cmd/trackdown/main.go: one tick of `runAlertRetryLoop`.
pub mod Tick
pub mod Attempts
pub mod Turn
use trackdown.Prelude.{ℕ, ◌+◌, Text, Option, none, some, List, [], ◌∷◌}
use trackdown.Alert.{NotifyEvent, Notifier}
use trackdown.Store.Types.{Time, OutboxEntry}
use trackdown.Store.Query.{Result, ok, err, Session}
use trackdown.Store.Outbox.{due_alerts, mark_alert_delivered, mark_alert_failed}

abbrev pub alert_retry_batch_size : ℕ
alert_retry_batch_size = 20

-- the event that an entry redelivers
unfoldable pub event_of : OutboxEntry → NotifyEvent
event_of e = record {
  project_id = e.project_id;
  issue_id = e.issue_id;
  title = e.title;
  level = e.level;
  is_new = e.is_new;
  is_regression = e.is_regression;
  event_count = e.event_count;
  occurred_at = e.occurred_at;
}

-- what is recorded of a delivery; a failure to record it is logged and passed over
unfoldable pub settle_entry : OutboxEntry → Option Text → Session → Session
settle_entry e (some msg) s = (mark_alert_failed e.id (e.attempts + 1) (some msg) s).1
settle_entry e none s = (mark_alert_delivered e.id s).1

module _ {W : Type 0} (notifier : Notifier W) where
  -- the loop of `retryDueAlerts`
  unfoldable pub retry_each : List OutboxEntry → Session → W → Session × W
  unfolding settle_entry event_of
  retry_each [] s w = (s, w)
  retry_each (e ∷ due) s w =
      let (failed, w') = notifier (event_of e) w in retry_each due (settle_entry e failed s) w'

  abbrev pub retry_listed : Result (List OutboxEntry) → Session → W → Session × W
  retry_listed (ok due) s w = retry_each due s w
  retry_listed (err e) s w = (s, w)

  -- `retryDueAlerts`: the body of one tick of `runAlertRetryLoop`
  unfoldable pub retry_due_alerts : Session → W → Session × W
  unfolding retry_each
  retry_due_alerts s w =
      let (due, s') = due_alerts s.now alert_retry_batch_size s in retry_listed due s' w
