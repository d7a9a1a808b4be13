-- ===== src/Retry/Attempts.antt =====
-- The number of attempts stays within its bound, whatever the notifier and the database do.
use trackdown.Prelude.{
  ℕ, ◌+◌, ◌≤◌, ◌<◌, ◌≡◌, Text, Bool, true, false, Option, none, some, List, [], ◌∷◌, arith, All,
  All-append, All-update, All-filter, All-order_by, All-take, All-map, All-both, order_by, filter,
  filter-All,
}
use trackdown.Alert.{Notifier}
use trackdown.Store.Types.{pending, Time, OutboxEntry}
use trackdown.Store.Query.{Session, select_rows}
use trackdown.Store.Query.Laws.{execute_keeps}
use trackdown.Store.Outbox.{
  new_entry, as_delivered, as_failed, enqueue_alert, due_alerts, due_rows, is_due, due_earlier,
  mark_alert_delivered, mark_alert_failed, alert_max_attempts, has_entry_id,
}
use trackdown.Retry.{event_of, settle_entry, retry_each, retry_due_alerts, alert_retry_batch_size}

-- At most eight attempts were made, and fewer while the entry is pending.
pub record IsBounded (e : OutboxEntry) : Type 0 where
  pub at_most : e.attempts ≤ alert_max_attempts
  pub while_pending : e.status ≡ pending → e.attempts < alert_max_attempts

-- `EnqueueAlert` keeps the bound.
pub enqueue_alert-IsBounded :
    (e : OutboxEntry) (last_err : Option Text) (s : Session)
    → All IsBounded s.tables.outbox
    → All IsBounded (enqueue_alert e last_err s).1.tables.outbox
unfolding enqueue_alert new_entry
enqueue_alert-IsBounded e last_err s h =
    execute_keeps (λ t. All IsBounded t.outbox) _ s h
      (All-append IsBounded (λ _. true) s.tables.outbox _ h (ground arith, tt))

abbrev IsRetried : OutboxEntry → Type 0
IsRetried e = IsBounded e × (e.status ≡ pending)

as_failed-IsBounded :
    (e x : OutboxEntry) (msg : Text) (now : Time)
    → IsRetried e
    → IsBounded (as_failed (e.attempts + 1) (some msg) now x)
unfolding as_failed
as_failed-IsBounded e x msg now h = ground (arith, h.0.while_pending h.1)

as_delivered-IsBounded : (x : OutboxEntry) → IsBounded x → IsBounded (as_delivered x)
unfolding as_delivered
as_delivered-IsBounded x h = ground arith

settle_entry-IsBounded :
    (e : OutboxEntry) (f : Option Text) (s : Session)
    → IsRetried e
    → All IsBounded s.tables.outbox
    → All IsBounded (settle_entry e f s).tables.outbox
unfolding settle_entry mark_alert_delivered mark_alert_failed
settle_entry-IsBounded e none s r h =
    execute_keeps (λ t. All IsBounded t.outbox) _ s h
      (All-update (has_entry_id e.id) as_delivered s.tables.outbox (λ x _. as_delivered-IsBounded x)
        (λ x _ k. k) h)
settle_entry-IsBounded e (some msg) s r h =
    execute_keeps (λ t. All IsBounded t.outbox) _ s h
      (All-update (has_entry_id e.id) (as_failed (e.attempts + 1) (some msg) s.now) s.tables.outbox
        (λ x _ _. as_failed-IsBounded e x msg s.now r) (λ x _ k. k) h)

due_rows-IsRetried :
    (now : Time) (limit : ℕ) (rows : List OutboxEntry)
    → All IsBounded rows
    → All IsRetried (due_rows now limit rows)
unfolding due_rows is_due
due_rows-IsRetried now limit rows h =
    let due = filter (is_due now) rows in
    All-take IsRetried limit (order_by due_earlier due) (
      All-order_by due_earlier IsRetried due (
        All-map due (λ e k. (k.0, ground arith))
          (All-both IsBounded (λ e. is_due now e ≡ true) due
            (All-filter IsBounded (is_due now) rows h) (filter-All (is_due now) rows))))

module _ {W : Type 0} (notifier : Notifier W) where
  retry_each-IsBounded :
      (due : List OutboxEntry) (s : Session) (w : W)
      → All IsRetried due
      → All IsBounded s.tables.outbox
      → All IsBounded (retry_each notifier due s w).0.tables.outbox
  unfolding retry_each
  retry_each-IsBounded [] s w r h = h
  retry_each-IsBounded (e ∷ due) s w r h =
      let (f, w') = notifier (event_of e) w in
      retry_each-IsBounded due (settle_entry e f s) w' r.1 (settle_entry-IsBounded e f s r.0 h)

  -- A tick keeps the bound, whatever the notifier does and whatever statements fail.
  pub retry_due_alerts-IsBounded :
      (s : Session) (w : W)
      → All IsBounded s.tables.outbox
      → All IsBounded (retry_due_alerts notifier s w).0.tables.outbox
  unfolding retry_due_alerts due_alerts select_rows
  retry_due_alerts-IsBounded s w h = keep s.faults
    where
      keep :
          (fs : List Bool)
          → All IsBounded (retry_due_alerts notifier (record s { faults = fs }) w).0.tables.outbox
      keep (true ∷ fs) = h
      keep [] =
          retry_each-IsBounded _ _ w
            (due_rows-IsRetried s.now alert_retry_batch_size s.tables.outbox h) h
      keep (false ∷ fs) =
          retry_each-IsBounded _ _ w
            (due_rows-IsRetried s.now alert_retry_batch_size s.tables.outbox h) h
