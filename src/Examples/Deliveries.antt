-- ===== src/Examples/Deliveries.antt =====
-- The outbox, the retry loop and the first delivery.
use trackdown.Prelude.{◌+◌, ◌*◌, ◌≡◌, refl, codes, [], ◌∷◌, ◌++◌}
use trackdown.Store.Types.{second, pending, Tables, OutboxEntry}
use trackdown.Store.Query.{calm}
use trackdown.Store.Outbox.{due_rows, alert_backoff}
use trackdown.Alert.{NotifyEvent}
use trackdown.Retry.{alert_retry_batch_size, retry_due_alerts, event_of}
use trackdown.Retry.Tick.{AreSettled, retry_due_alerts-settles}
use trackdown.Ingest.{notify}
use trackdown.Ingest.Notices.{notify_failed}
use trackdown.Examples.Data.{entry, tables, deaf}

abbrev pub alert : NotifyEvent
alert = event_of entry

retry_due_alerts-settles_example :
    AreSettled deaf
      (90 * second)
      (retry_due_alerts deaf (calm tables (90 * second)) 0).0.tables.outbox
      (due_rows (90 * second) alert_retry_batch_size tables.outbox)
      0
retry_due_alerts-settles_example = retry_due_alerts-settles deaf (90 * second) tables 0 (tt, tt)

notify_failed_example :
    (e : OutboxEntry) × ((notify deaf alert (calm tables (9 * second)) 0).0.tables
      ≡ record tables { outbox = tables.outbox ++ (e ∷ []); outbox_seq = 1 + 1 })
    × (event_of e ≡ alert)
    × (e.status ≡ pending)
    × (e.attempts ≡ 1)
    × (e.next_attempt_at ≡ 9 * second + alert_backoff 1)
    × (e.last_error ≡ codes "down")
notify_failed_example = notify_failed deaf alert (calm tables (9 * second)) 0 (codes "down") refl

-- an alert that became due after the one of the tables
abbrev second_entry : OutboxEntry
second_entry = record entry { id = 2; next_attempt_at = entry.next_attempt_at + second }

abbrev crowded : Tables
crowded = record tables { outbox = entry ∷ second_entry ∷ []; outbox_seq = 2 }
