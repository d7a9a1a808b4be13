-- ===== src/Retry/Tick.antt =====
-- What one tick of the retry loop does to the outbox, if the statements succeed. The clock of the
-- session stands still within a tick.
use trackdown.Prelude.{
  ℕ, ◌+◌, ◌≡◌, refl, sym, ap, ◌∙◌, subst, Text, true, false, Option, none, some, List, [], ◌∷◌,
  arith, ◌==◌, leb, if◌then◌else◌, find, update, filter, find-update, find-update_other, All,
  All-both, All-map, All-filter, All-order_by, All-take, Pairs, Pairs-filter, Pairs-order_by,
  Pairs-take, order_by,
}
use trackdown.Alert.{Notifier}
use trackdown.Store.Types.{Time, delivered, dead, OutboxEntry, Tables}
use trackdown.Store.Query.{calm, execute, select_rows}
use trackdown.Store.Outbox.{
  alert_backoff, has_entry_id, as_delivered, as_failed, due_alerts, due_rows, is_due, due_earlier,
  mark_alert_delivered, mark_alert_failed,
}
use trackdown.Retry.{event_of, settle_entry, retry_each, retry_due_alerts, alert_retry_batch_size}

-- What becomes of a row when the delivery of the entry `e` read from it ended so.
abbrev pub settled : OutboxEntry → Option Text → Time → OutboxEntry → OutboxEntry
settled e none now = as_delivered
settled e (some msg) now = as_failed (e.attempts + 1) (some msg) now

-- A row after its delivery: delivered, or with one more attempt, and then dead if that was the
-- eighth, or else due after the back-off.
abbrev pub outcome : OutboxEntry → Option Text → Time → OutboxEntry
outcome e none now = record e { status = delivered }
outcome e (some msg) now =
    let last = leb 8 (e.attempts + 1) in
    record e {
      status = if last then dead else e.status;
      attempts = e.attempts + 1;
      next_attempt_at = if last then e.next_attempt_at else now + alert_backoff (e.attempts + 1);
      last_error = msg;
    }

settled-outcome :
    (e : OutboxEntry) (f : Option Text) (now : Time) → settled e f now e ≡ outcome e f now
unfolding as_delivered as_failed
settled-outcome e none now = refl
settled-outcome e (some msg) now = ground arith

abbrev pub OtherId : OutboxEntry → OutboxEntry → Type 0
OtherId a b = (a.id == b.id) ≡ false

pub settle_entry-calm :
    (e : OutboxEntry) (f : Option Text) (t : Tables) (now : Time)
    → settle_entry e f (calm t now)
      ≡ calm (record t { outbox = update (has_entry_id e.id) (settled e f now) t.outbox }) now
unfolding settle_entry mark_alert_delivered mark_alert_failed execute
settle_entry-calm e none t now = refl
settle_entry-calm e (some msg) t now = refl

has_entry_id-settled :
    (e : OutboxEntry) (f : Option Text) (now : Time) (id : ℕ) (x : OutboxEntry)
    → has_entry_id id (settled e f now x) ≡ has_entry_id id x
unfolding has_entry_id as_delivered as_failed
has_entry_id-settled e none now id x = refl
has_entry_id-settled e (some msg) now id x = ground arith

has_entry_id_apart :
    (id other : ℕ) (x : OutboxEntry)
    → (id == other) ≡ false
    → has_entry_id other x ≡ true
    → has_entry_id id x ≡ false
unfolding has_entry_id
has_entry_id_apart id other x h k = ground arith

module _ {W : Type 0} (notifier : Notifier W) (now : Time) where
  abbrev outbox_after : List OutboxEntry → Tables → W → List OutboxEntry
  outbox_after due t w = (retry_each notifier due (calm t now) w).0.tables.outbox

  abbrev after_first : OutboxEntry → Tables → W → Tables
  after_first e t w = record t {
    outbox = update (has_entry_id e.id) (settled e (notifier (event_of e) w).0 now) t.outbox;
  }

  retry_each-step :
      (e : OutboxEntry) (due : List OutboxEntry) (t : Tables) (w : W)
      → outbox_after (e ∷ due) t w
        ≡ outbox_after due (after_first e t w) (notifier (event_of e) w).1
  unfolding retry_each
  retry_each-step e due t w =
      let (f, w') = notifier (event_of e) w in
      ap (λ s. (retry_each notifier due s w').0.tables.outbox) (settle_entry-calm e f t now)

  find-after_first :
      (id : ℕ) (e : OutboxEntry) (t : Tables) (w : W)
      → (e.id == id) ≡ false
      → find (has_entry_id id) (after_first e t w).outbox ≡ find (has_entry_id id) t.outbox
  find-after_first id e t w h =
      let f = (notifier (event_of e) w).0 in
      find-update_other (has_entry_id e.id) (has_entry_id id) (settled e f now) t.outbox
        (has_entry_id-settled e f now id) (λ x. has_entry_id_apart e.id id x h)

  -- an entry that is not in the batch stays
  retry_each-other :
      (id : ℕ) (due : List OutboxEntry) (t : Tables) (w : W)
      → All (λ e. (e.id == id) ≡ false) due
      → find (has_entry_id id) (outbox_after due t w) ≡ find (has_entry_id id) t.outbox
  unfolding retry_each
  retry_each-other id [] t w h = refl
  retry_each-other id (e ∷ due) t w h =
      ap (find (has_entry_id id)) (retry_each-step e due t w)
      ∙ retry_each-other id due (after_first e t w) (notifier (event_of e) w).1 h.1
      ∙ find-after_first id e t w h.0

  abbrev IsPresent : List OutboxEntry → OutboxEntry → Type 0
  IsPresent rows e = find (has_entry_id e.id) rows ≡ some e

  -- The row of each entry is what the outcome of its own delivery makes of it. The deliveries follow
  -- each other, the first from this outside world and each later one from what the one before left.
  abbrev pub AreSettled : List OutboxEntry → List OutboxEntry → W → Type 0
  AreSettled after [] w = Unit
  AreSettled after (e ∷ due) w =
      (find (has_entry_id e.id) after ≡ some (outcome e (notifier (event_of e) w).0 now))
      × AreSettled after due (notifier (event_of e) w).1

  retry_each-settles :
      (due : List OutboxEntry) (t : Tables) (w : W)
      → Pairs OtherId due
      → All (IsPresent t.outbox) due
      → AreSettled (outbox_after due t w) due w
  retry_each-settles [] t w h k = tt
  retry_each-settles (e ∷ due) t w h k =
      let f = (notifier (event_of e) w).0 in
      subst (λ rows. AreSettled rows (e ∷ due) w) (sym (retry_each-step e due t w))
        (
          retry_each-other e.id due (after_first e t w) (notifier (event_of e) w).1
                (All-map due (λ x d. ground arith) h.0)
              ∙ find-update (has_entry_id e.id) (settled e f now) t.outbox
                  (has_entry_id-settled e f now e.id)
              ∙ ap (λ o. elim o [ none ↦ none | some x ↦ some (settled e f now x) ]) k.0
              ∙ ap some (settled-outcome e f now),
          retry_each-settles due (after_first e t w) (notifier (event_of e) w).1 h.1 (
              All-map due (λ x d. find-after_first x.id e t w d.0 ∙ d.1)
                (All-both (OtherId e) (IsPresent t.outbox) due h.0 k.1)),
        )

-- in a table whose ids differ, the look-up of a row's id finds that row
OtherId-find :
    (rows : List OutboxEntry)
    → Pairs OtherId rows
    → All (λ e. find (has_entry_id e.id) rows ≡ some e) rows
unfolding find has_entry_id
OtherId-find [] h = tt
OtherId-find (x ∷ rows) h = (
  ground arith,
  All-map rows (λ e d. ground arith)
      (All-both (OtherId x) (λ e. find (has_entry_id e.id) rows ≡ some e) rows h.0
        (OtherId-find rows h.1)),
)

due_rows-OtherId :
    (now : Time) (limit : ℕ) (rows : List OutboxEntry)
    → Pairs OtherId rows
    → Pairs OtherId (due_rows now limit rows)
unfolding due_rows
due_rows-OtherId now limit rows h =
    Pairs-take OtherId limit (order_by due_earlier (filter (is_due now) rows)) (
      Pairs-order_by OtherId due_earlier (λ x y d. ground arith) (filter (is_due now) rows)
        (Pairs-filter OtherId (is_due now) rows h))

due_rows-All {κ} :
    (P : OutboxEntry → Type κ) (now : Time) (limit : ℕ) (rows : List OutboxEntry)
    → All P rows
    → All P (due_rows now limit rows)
unfolding due_rows
due_rows-All P now limit rows h =
    All-take P limit (order_by due_earlier (filter (is_due now) rows))
      (All-order_by due_earlier P (filter (is_due now) rows) (All-filter P (is_due now) rows h))

module _ {W : Type 0} (notifier : Notifier W) (now : Time) (t : Tables) (w : W) where
  abbrev batch : List OutboxEntry
  batch = due_rows now alert_retry_batch_size t.outbox

  abbrev after_tick : Tables
  after_tick = (retry_due_alerts notifier (calm t now) w).0.tables

  -- If no statement fails and the ids of the table differ, a tick delivers its batch in order, the
  -- notifier being called once for each row, and each row is then delivered, if its own call
  -- succeeded, or has that call's failure recorded: one more attempt, and dead at the eighth or else
  -- due after the back-off.
  pub retry_due_alerts-settles :
      Pairs OtherId t.outbox → AreSettled notifier now after_tick.outbox batch w
  unfolding retry_due_alerts due_alerts select_rows
  retry_due_alerts-settles distinct =
      retry_each-settles notifier now batch t w
        (due_rows-OtherId now alert_retry_batch_size t.outbox distinct)
        (due_rows-All (λ e. find (has_entry_id e.id) t.outbox ≡ some e) now alert_retry_batch_size
          t.outbox (OtherId-find t.outbox distinct))

  -- A row whose id is not in the batch stays as it is.
  pub retry_due_alerts-other :
      (id : ℕ)
      → All (λ e. (e.id == id) ≡ false) batch
      → find (has_entry_id id) after_tick.outbox ≡ find (has_entry_id id) t.outbox
  unfolding retry_due_alerts due_alerts select_rows
  retry_due_alerts-other id other = retry_each-other notifier now id batch t w other
