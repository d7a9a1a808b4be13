-- ===== src/Store/Events/Stored.antt =====
-- What later calls see of a saved event and of its issue.
use trackdown.Prelude.{
  ℕ, ◌+◌, ◌≡◌, ◌≢◌, ◌⊎◌, refl, ap, ◌∙◌, List, Bool, Text, str_eq_refl, str_eq_iff, true, false,
  if◌then◌else◌, Option, none, some, arith, Option-cases, inl, inr, find-append, find-append_other,
  find-update, find-update_other,
}
use trackdown.Protocol.Types.{Event, message_string}
use trackdown.Store.Types.{
  IssueStatus, unresolved, resolved, ignored, Time, current_timestamp, IssueRow, EventRow, Tables,
}
use trackdown.Store.Query.{Result, ok, err, DbError, Session, select_row, calm}
use trackdown.Store.Events.{
  Saved, is_event, has_fingerprint, find_event, find_issue, reopened, seen_again, new_issue,
  upsert_issue, new_event, save_event, get_event,
}
use trackdown.Store.Events.Save.{
  is_resolved, described, issue_of, save_event-calm, save_event_atomic, save_event_returns,
}

Result-cases {ℓ} :
    {A : Type ℓ} (r : Result A) → ((a : A) × (r ≡ ok a)) ⊎ ((e : DbError) × (r ≡ err e))
Result-cases (ok a) = inl (a, refl)
Result-cases (err e) = inr (e, refl)

-- An issue after one more event: last seen then, counted, and unresolved if it was resolved.
abbrev pub seen_after : Time → IssueRow → IssueRow
seen_after now i = record i {
  last_seen = current_timestamp now;
  event_count = i.event_count + 1;
  status = if is_resolved i.status then unresolved else i.status;
}

-- What a look-up of an issue finds after a new event of the same fingerprint.
abbrev pub issue_after : Text → Text → Text → Tables → Time → Option IssueRow → IssueRow
issue_after project_id fingerprint title t now none = record {
  id = t.issue_seq + 1;
  project_id = project_id;
  fingerprint = fingerprint;
  title = title;
  status = unresolved;
  first_seen = current_timestamp now;
  last_seen = current_timestamp now;
  event_count = 1;
}
issue_after project_id fingerprint title t now (some i) = seen_after now i

reopened_lem :
    (status : IssueStatus) → reopened status ≡ (if is_resolved status then unresolved else status)
unfolding reopened
reopened_lem unresolved = refl
reopened_lem resolved = refl
reopened_lem ignored = refl

seen_again_lem : (now : Time) (i : IssueRow) → seen_again now i ≡ seen_after now i
unfolding seen_again
seen_again_lem now i = rw (reopened_lem i.status) refl

is_event-new_event :
    (id issue_id : ℕ) (project_id raw : Text) (ev : Event) (now : Time)
    → is_event project_id ev.event_id (new_event id project_id issue_id ev raw now) ≡ true
unfolding is_event new_event
is_event-new_event id issue_id project_id raw ev now =
    ground (arith, str_eq_refl project_id, str_eq_refl ev.event_id)

has_fingerprint-new_issue :
    (id : ℕ) (project_id fingerprint title : Text) (now : Time)
    → has_fingerprint project_id fingerprint (new_issue id project_id fingerprint title now) ≡ true
unfolding has_fingerprint new_issue
has_fingerprint-new_issue id project_id fingerprint title now =
    ground (arith, str_eq_refl project_id, str_eq_refl fingerprint)

has_fingerprint-seen_again :
    (project_id fingerprint : Text) (now : Time) (i : IssueRow)
    → has_fingerprint project_id fingerprint (seen_again now i)
      ≡ has_fingerprint project_id fingerprint i
unfolding has_fingerprint seen_again
has_fingerprint-seen_again project_id fingerprint now i = refl

module _ (project_id fingerprint project_id' fingerprint' : Text)
    (other : (project_id' ≢ project_id) ⊎ (fingerprint' ≢ fingerprint)) where
  has_fingerprint_apart :
      (i : IssueRow)
      → has_fingerprint project_id' fingerprint' i ≡ true
      → has_fingerprint project_id fingerprint i ≡ false
  unfolding has_fingerprint
  has_fingerprint_apart i h = ground (
    arith,
    str_eq_iff i.project_id project_id,
    str_eq_iff i.project_id project_id',
    str_eq_iff i.fingerprint fingerprint,
    str_eq_iff i.fingerprint fingerprint',
  )

  has_fingerprint-new_issue_other :
      (id : ℕ) (title : Text) (now : Time)
      → has_fingerprint project_id' fingerprint' (new_issue id project_id fingerprint title now)
        ≡ false
  unfolding has_fingerprint new_issue
  has_fingerprint-new_issue_other id title now =
      ground (arith, str_eq_iff project_id project_id', str_eq_iff fingerprint fingerprint')

module _ (project_id : Text) (ev : Event) (raw fingerprint title : Text) (t : Tables)
    (now : Time) where
  pub events-upsert_issue : (upsert_issue project_id fingerprint title t now).1.events ≡ t.events
  unfolding upsert_issue
  events-upsert_issue = ground arith

  -- The event is found, linked to the issue that the save returned.
  pub described-find_event :
      (e : EventRow) × (find_event project_id ev.event_id
          (described project_id ev raw fingerprint title t now).1
        ≡ some e)
      × (issue_of e ≡ (described project_id ev raw fingerprint title t now).0.issue_id)
  described-find_event = elim (Option-cases (find_event project_id ev.event_id t)) [
    | inl new ↦ (
      new_event ((upsert_issue project_id fingerprint title t now).1.event_seq + 1) project_id
          (upsert_issue project_id fingerprint title t now).0 ev raw now,
      rw new (rw (find-append, events-upsert_issue, new, is_event-new_event)),
      rw new (unfold new_event in refl),
    )
    | inr (e, old) ↦ (e, rw old old, rw old refl)
  ]

  find_issue-upsert_issue :
      find_issue project_id fingerprint (upsert_issue project_id fingerprint title t now).1
      ≡ some (issue_after project_id fingerprint title t now (find_issue project_id fingerprint t))
  unfolding upsert_issue
  find_issue-upsert_issue = elim (Option-cases (find_issue project_id fingerprint t)) [
    | inl new ↦ rw new (rw (find-append, new, has_fingerprint-new_issue) (unfold new_issue in refl))
    | inr (i, old) ↦ rw old (
        rw
          (
            find-update (has_fingerprint project_id fingerprint) (seen_again now) t.issues
                (has_fingerprint-seen_again project_id fingerprint now),
            old,
            seen_again_lem now i,
          )
          refl)
  ]

  find_issue-upsert_issue_other :
      (project_id' fingerprint' : Text)
      → (project_id' ≢ project_id) ⊎ (fingerprint' ≢ fingerprint)
      → find_issue project_id' fingerprint' (upsert_issue project_id fingerprint title t now).1
        ≡ find_issue project_id' fingerprint' t
  unfolding upsert_issue
  find_issue-upsert_issue_other project_id' fingerprint' other =
      elim (Option-cases (find_issue project_id fingerprint t)) [
        | inl new ↦ rw new (
            find-append_other (has_fingerprint project_id' fingerprint') t.issues
              (new_issue (t.issue_seq + 1) project_id fingerprint title now)
              (has_fingerprint-new_issue_other project_id fingerprint project_id' fingerprint' other
                (t.issue_seq + 1) title now))
        | inr (i, old) ↦ rw old (
            find-update_other (has_fingerprint project_id fingerprint)
              (has_fingerprint project_id' fingerprint') (seen_again now) t.issues
              (has_fingerprint-seen_again project_id' fingerprint' now)
              (λ i. has_fingerprint_apart project_id fingerprint project_id' fingerprint' other i))
      ]

  -- After an event that was not stored, its issue is the one that was there, seen once more and
  -- reopened if it was resolved, or a new one with a count of 1.
  pub find_issue-save_event :
      find_event project_id ev.event_id t ≡ none
      → find_issue project_id fingerprint
          (save_event project_id ev raw fingerprint title (calm t now)).1.tables
        ≡ some
            (issue_after project_id fingerprint title t now (find_issue project_id fingerprint t))
  find_issue-save_event new =
      rw (save_event-calm project_id ev raw fingerprint title t now)
        (rw new find_issue-upsert_issue)

  -- The issues of other projects and of other fingerprints are found as before, whether or not
  -- the event was stored.
  pub find_issue-save_event_other :
      (project_id' fingerprint' : Text)
      → (project_id' ≢ project_id) ⊎ (fingerprint' ≢ fingerprint)
      → find_issue project_id' fingerprint'
          (save_event project_id ev raw fingerprint title (calm t now)).1.tables
        ≡ find_issue project_id' fingerprint' t
  find_issue-save_event_other project_id' fingerprint' other =
      rw (save_event-calm project_id ev raw fingerprint title t now)
        (elim (Option-cases (find_event project_id ev.event_id t)) [
          | inl new ↦ rw new (find_issue-upsert_issue_other project_id' fingerprint' other)
          | inr (e, old) ↦ rw old refl
        ])

  -- what a later save of a stored event leaves, whatever statements fail
  save_event-tables :
      (ev' : Event) (raw' fingerprint' title' : Text) (s : Session) {e : EventRow}
      → find_event project_id ev'.event_id s.tables ≡ some e
      → (save_event project_id ev' raw' fingerprint' title' s).1.tables ≡ s.tables
  save_event-tables ev' raw' fingerprint' title' s old =
      elim (Result-cases (save_event project_id ev' raw' fingerprint' title' s).0) [
        | inl (v, done) ↦
            (save_event_returns project_id ev' raw' fingerprint' title' s done).0 ∙ rw old refl
        | inr (e, failed) ↦ save_event_atomic project_id ev' raw' fingerprint' title' s failed
      ]

  -- A save in which no statement fails returns. A second save of the same event id in the project,
  -- whatever else it holds, then changes no table, whatever statements fail in it; and if none
  -- does, it returns the issue that the first save returned, with both flags false.
  pub save_event_again :
      (ev' : Event) (raw' fingerprint' title' : Text) (later : Time) (faults : List Bool)
      → ev'.event_id ≡ ev.event_id
      → let first = save_event project_id ev raw fingerprint title (calm t now) in
        let again = save_event project_id ev' raw' fingerprint' title' in
        (v : Saved) × (first.0 ≡ ok v)
        × ((again (record { tables = first.1.tables; now = later; faults = faults })).1.tables
            ≡ first.1.tables)
        × (again (calm first.1.tables later) ≡ (
          ok (record { issue_id = v.issue_id; is_new = false; is_regression = false }),
          calm first.1.tables later,
        ))
  save_event_again ev' raw' fingerprint' title' later faults same =
      let (e, found, issue) = described-find_event in
      rw (save_event-calm project_id ev raw fingerprint title t now) (
        (described project_id ev raw fingerprint title t now).0,
        refl,
        save_event-tables ev' raw' fingerprint' title'
            (record {
              tables = (described project_id ev raw fingerprint title t now).1;
              now = later;
              faults = faults;
            })
            (ap
                (λ id.
                  find_event project_id id (described project_id ev raw fingerprint title t now).1)
                same
              ∙ found),
        rw (save_event-calm project_id ev' raw' fingerprint' title') (rw (same, found, issue) refl),
      )

  -- If no statement fails, the save of an event whose id was not stored returns, and a later read
  -- of the id gives the event back as it was saved, with the time of the save and the issue that
  -- the save returned.
  pub get_event-save_event :
      (later : Time)
      → find_event project_id ev.event_id t ≡ none
      → let saved = save_event project_id ev raw fingerprint title (calm t now) in
        (v : Saved) × (saved.0 ≡ ok v)
        × (get_event project_id ev.event_id (calm saved.1.tables later) ≡ (
          ok (record {
            event_id = ev.event_id;
            issue_id = v.issue_id;
            received_at = current_timestamp now;
            timestamp = ev.timestamp;
            level = ev.level;
            platform = ev.platform;
            message = message_string ev.message;
            payload = raw;
          }),
          calm saved.1.tables later,
        ))
  unfolding get_event select_row new_event
  get_event-save_event later new = rw (save_event-calm project_id ev raw fingerprint title t now) (
    (described project_id ev raw fingerprint title t now).0,
    refl,
    rw new (rw (find-append, events-upsert_issue, new, is_event-new_event) refl),
  )
