-- ===== src/Ingest/Notices.antt =====
-- From a saved event to the alert: the first delivery, and the outbox that the retry loop reads.
use trackdown.Prelude.{◌+◌, ◌≡◌, refl, Text, if◌then◌else◌, arith, none, some, [], ◌∷◌, ◌++◌}
use trackdown.Alert.{NotifyEvent, Notifier}
use trackdown.Store.Types.{Time, Tables, OutboxEntry, pending}
use trackdown.Store.Query.{Session, next_fails, calm, execute}
use trackdown.Store.Outbox.{new_entry, enqueue_alert, alert_backoff}
use trackdown.Retry.{event_of}
use trackdown.Ingest.{notify, entry_of}

module _ {W : Type 0} (notifier : Notifier W) (ev : NotifyEvent) (t : Tables) (now : Time)
    (w : W) where
  -- A delivery that succeeds leaves the outbox, and all else, as it was.
  pub notify_delivered :
      (notifier ev w).0 ≡ none → notify notifier ev (calm t now) w ≡ (calm t now, (notifier ev w).1)
  unfolding notify
  notify_delivered h = rw h refl

-- A first delivery that fails adds one row to the outbox, unless the statement that adds it fails:
-- then the alert is only logged, and no table changes. The row is pending, counted as one attempt
-- and due a first backoff later, with the error as its last, and from it the retry loop makes the
-- same notification again.
pub notify_failed :
    {W : Type 0} (notifier : Notifier W) (ev : NotifyEvent) (s : Session) (w : W) (msg : Text)
    → (notifier ev w).0 ≡ some msg
    → let t = s.tables in
      (e : OutboxEntry) × ((notify notifier ev s w).0.tables ≡ (
        if next_fails s.faults
        then t
        else record t { outbox = t.outbox ++ (e ∷ []); outbox_seq = t.outbox_seq + 1 }))
      × (event_of e ≡ ev)
      × (e.status ≡ pending)
      × (e.attempts ≡ 1)
      × (e.next_attempt_at ≡ s.now + alert_backoff 1)
      × (e.last_error ≡ msg)
unfolding notify enqueue_alert event_of entry_of new_entry execute
notify_failed notifier ev s w msg h = (
  new_entry (s.tables.outbox_seq + 1) (entry_of ev) (some msg) s.now,
  rw h (ground arith),
  refl,
  refl,
  refl,
  refl,
  refl,
)
