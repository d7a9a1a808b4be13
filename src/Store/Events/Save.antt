-- ===== src/Store/Events/Save.antt =====
-- What `SaveEvent` does, against a plain description of it.
use trackdown.Prelude.{
  ℕ, ◌+◌, ◌≡◌, ◌⊎◌, refl, Text, Bool, true, false, Option, none, some, List, [], ◌∷◌, ◌++◌, arith,
  Option-cases, inl, inr,
}
use trackdown.Protocol.Types.{Event}
use trackdown.Store.Types.{IssueStatus, resolved, Time, IssueRow, EventRow, Tables}
use trackdown.Store.Query.{Result, ok, err, DbError, Session, calm, settle_tx}
use trackdown.Store.Query.Laws.{transaction_atomic}
use trackdown.Store.Events.{
  Saved, find_event, find_issue, upsert_issue, new_event, already_stored, store_event, save_body,
  save_event,
}

abbrev pub is_resolved : IssueStatus → Bool
is_resolved resolved = true
is_resolved _ = false

abbrev pub was_resolved : Option IssueRow → Bool
was_resolved none = false
was_resolved (some i) = is_resolved i.status

abbrev pub issue_of : EventRow → ℕ
issue_of e = elim e.issue_id [ none ↦ 0 | some id ↦ id ]

-- The tables after a new event: its issue is created or updated, and the event is added.
abbrev pub with_event : Text → Event → Text → Text → Text → Tables → Time → Tables
with_event project_id ev raw fingerprint title t now =
    let (id, t') = upsert_issue project_id fingerprint title t now in
    record t' {
      events = t'.events ++ (new_event (t'.event_seq + 1) project_id id ev raw now ∷ []);
      event_seq = t'.event_seq + 1;
    }

-- The description: an event that is stored changes nothing; any other is added, and the flags say
-- whether its issue is new and whether it was resolved.
abbrev save_found :
    Text → Event → Text → Text → Text → Tables → Time → Option EventRow → Saved × Tables
save_found project_id ev raw fingerprint title t now (some e) =
    (record { issue_id = issue_of e; is_new = false; is_regression = false }, t)
save_found project_id ev raw fingerprint title t now none = (
  record {
    issue_id = (upsert_issue project_id fingerprint title t now).0;
    is_new = elim (find_issue project_id fingerprint t) [ none ↦ true | some i ↦ false ];
    is_regression = was_resolved (find_issue project_id fingerprint t);
  },
  with_event project_id ev raw fingerprint title t now,
)

abbrev pub described : Text → Event → Text → Text → Text → Tables → Time → Saved × Tables
described project_id ev raw fingerprint title t now =
    save_found project_id ev raw fingerprint title t now (find_event project_id ev.event_id t)

module _ (project_id : Text) (ev : Event) (raw fingerprint title : Text) where
  -- the row is not there yet when `insert_event` looks
  find_event-upsert_issue :
      (t : Tables) (now : Time)
      → find_event project_id ev.event_id (upsert_issue project_id fingerprint title t now).1
        ≡ find_event project_id ev.event_id t
  unfolding upsert_issue
  find_event-upsert_issue t now = ground arith

  -- If no statement fails, `save_event` returns and does what the description says.
  pub save_event-calm :
      (t : Tables) (now : Time)
      → save_event project_id ev raw fingerprint title (calm t now) ≡ (
        ok (described project_id ev raw fingerprint title t now).0,
        calm (described project_id ev raw fingerprint title t now).1 now,
      )
  unfolding save_event already_stored store_event
  save_event-calm t now = ground (arith, find_event-upsert_issue t now)

  -- From a first look-up that found nothing, the rest either fails or does it all.
  store_event_returns :
      (s : Session) {b : Bool} {v : Saved}
      → find_event project_id ev.event_id s.tables ≡ none
      → (store_event project_id ev raw fingerprint title s).0 ≡ ok (b, v)
      → let d = described project_id ev raw fingerprint title s.tables s.now in
        ((store_event project_id ev raw fingerprint title s).1.tables ≡ d.1)
        × (b ≡ true)
        × (v ≡ d.0)
  unfolding store_event
  store_event_returns s new h = ground (arith, find_event-upsert_issue s.tables s.now)

  already_stored_returns :
      (s : Session) {b : Bool} {v : Saved} {e : EventRow}
      → find_event project_id ev.event_id s.tables ≡ some e
      → (already_stored project_id ev.event_id s).0 ≡ ok (b, v)
      → ((already_stored project_id ev.event_id s).1.tables ≡ s.tables)
        × (b ≡ false)
        × (v.is_new ≡ false)
        × (v.is_regression ≡ false)
        × ((v.issue_id ≡ issue_of e) ⊎ (v.issue_id ≡ 0))
  unfolding already_stored
  already_stored_returns s old h = ground arith

  -- Whatever statements fail: an error leaves every table as it was.
  pub save_event_atomic :
      (s : Session) {e : DbError}
      → (save_event project_id ev raw fingerprint title s).0 ≡ err e
      → (save_event project_id ev raw fingerprint title s).1.tables ≡ s.tables
  save_event_atomic s h =
      unfold save_event in transaction_atomic (save_body project_id ev raw fingerprint title) s h

  -- What a save that returns has done, on the outcomes of its first two statements.
  abbrev IsDone : Tables → Time → Saved → Tables → Type 0
  IsDone t now v t' =
      let d = described project_id ev raw fingerprint title t now in
      (t' ≡ d.1)
      × (v.is_new ≡ d.0.is_new)
      × (v.is_regression ≡ d.0.is_regression)
      × ((v.issue_id ≡ d.0.issue_id) ⊎ (v.issue_id ≡ 0))

  new_IsDone :
      (t : Tables) (now : Time) (r : Result (Bool × Saved) × Session) {v : Saved}
      → find_event project_id ev.event_id t ≡ none
      → ((b : Bool) (w : Saved)
          → r.0 ≡ ok (b, w)
          → let d = described project_id ev raw fingerprint title t now in
            (r.1.tables ≡ d.1) × (b ≡ true) × (w ≡ d.0))
      → (settle_tx t r).0 ≡ ok v
      → IsDone t now v (settle_tx t r).1.tables
  new_IsDone t now (ok (b, w), s') new k h = ground (arith, k b w refl)
  new_IsDone t now (err e, s') new k h = cc

  old_IsDone :
      (t : Tables) (now : Time) (r : Result (Bool × Saved) × Session) {v : Saved} {e : EventRow}
      → find_event project_id ev.event_id t ≡ some e
      → ((b : Bool) (w : Saved)
          → r.0 ≡ ok (b, w)
          → (r.1.tables ≡ t)
            × (b ≡ false)
            × (w.is_new ≡ false)
            × (w.is_regression ≡ false)
            × ((w.issue_id ≡ issue_of e) ⊎ (w.issue_id ≡ 0)))
      → (settle_tx t r).0 ≡ ok v
      → IsDone t now v (settle_tx t r).1.tables
  old_IsDone t now (ok (b, w), s') old k h = ground (arith, k b w refl)
  old_IsDone t now (err e, s') old k h = cc

  -- Past BEGIN and the first look-up, the outcome of the transaction is that of its branch.
  save_event_new :
      (t : Tables) (now : Time) (fs : List Bool)
      → find_event project_id ev.event_id t ≡ none
      → save_event project_id ev raw fingerprint title
          (record { tables = t; now = now; faults = false ∷ false ∷ fs })
        ≡ settle_tx t (
            store_event project_id ev raw fingerprint title
              (record { tables = t; now = now; faults = fs }))
  unfolding save_event
  save_event_new t now fs new = rw new

  save_event_old :
      (t : Tables) (now : Time) (fs : List Bool) {e : EventRow}
      → find_event project_id ev.event_id t ≡ some e
      → save_event project_id ev raw fingerprint title
          (record { tables = t; now = now; faults = false ∷ false ∷ fs })
        ≡ settle_tx t
            (already_stored project_id ev.event_id (record { tables = t; now = now; faults = fs }))
  unfolding save_event
  save_event_old t now fs old = rw old

  save_event-IsDone :
      (t : Tables) (now : Time) (faults : List Bool) {v : Saved}
      → let s : Session = record { tables = t; now = now; faults = faults } in
        (save_event project_id ev raw fingerprint title s).0 ≡ ok v
        → IsDone t now v (save_event project_id ev raw fingerprint title s).1.tables
  save_event-IsDone t now [] h =
      unfold save_event store_event already_stored in ground (arith, find_event-upsert_issue t now)
  save_event-IsDone t now (true ∷ fs) h = unfold save_event in cc
  save_event-IsDone t now (false ∷ []) h =
      unfold save_event store_event already_stored in ground (arith, find_event-upsert_issue t now)
  save_event-IsDone t now (false ∷ true ∷ fs) h = unfold save_event in cc
  save_event-IsDone t now (false ∷ false ∷ fs) {v} h =
      let s₂ : Session = record { tables = t; now = now; faults = fs } in
      elim (Option-cases (find_event project_id ev.event_id t)) [
        | inl new ↦ rw (save_event_new t now fs new) (
            new_IsDone t now (store_event project_id ev raw fingerprint title s₂) new
              (λ b w. store_event_returns s₂ new) (rw (save_event_new t now fs new) at h))
        | inr (e, old) ↦ rw (save_event_old t now fs old) (
            old_IsDone t now (already_stored project_id ev.event_id s₂) old
              (λ b w. already_stored_returns s₂ old) (rw (save_event_old t now fs old) at h))
      ]

  -- Whatever statements fail, a save that returns has done what the description says: the tables
  -- and both flags are the described ones, and so is the issue id, or it is 0.
  pub save_event_returns :
      (s : Session) {v : Saved}
      → (save_event project_id ev raw fingerprint title s).0 ≡ ok v
      → let d = described project_id ev raw fingerprint title s.tables s.now in
        ((save_event project_id ev raw fingerprint title s).1.tables ≡ d.1)
        × (v.is_new ≡ d.0.is_new)
        × (v.is_regression ≡ d.0.is_regression)
        × ((v.issue_id ≡ d.0.issue_id) ⊎ (v.issue_id ≡ 0))
  save_event_returns s h = save_event-IsDone s.tables s.now s.faults h
