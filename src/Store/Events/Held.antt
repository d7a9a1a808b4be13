-- ===== src/Store/Events/Held.antt =====
-- Saved events stay in the database.
use trackdown.Prelude.{◌≡◌, refl, Text, some, Option-cases, inl, inr, find-append}
use trackdown.Protocol.Types.{Event}
use trackdown.Grouping.{fingerprint, title}
use trackdown.Store.Types.{Tables, Time, EventRow}
use trackdown.Store.Query as Query
use trackdown.Store.Query.{Session}
use trackdown.Store.Query.Laws.{Result-cases}
use trackdown.Store.Events.{Saved, find_event, save_event}
use trackdown.Store.Events.Save.{described, with_event, save_event_returns, save_event_atomic}
use trackdown.Store.Events.Stored.{events-upsert_issue, described-find_event}

-- the project has an event of this id
abbrev pub Holds : Text → Text → Tables → Type 0
Holds project_id event_id t = (e : EventRow) × (find_event project_id event_id t ≡ some e)

with_event-Holds :
    (project_id event_id project_id' : Text) (ev : Event) (raw fingerprint title : Text)
    (t : Tables) (now : Time)
    → Holds project_id event_id t
    → Holds project_id event_id (with_event project_id' ev raw fingerprint title t now)
with_event-Holds project_id event_id project_id' ev raw fingerprint title t now (e, found) =
    (e, rw (find-append, events-upsert_issue, found) refl)

described-Holds :
    (project_id event_id project_id' : Text) (ev : Event) (raw fingerprint title : Text)
    (t : Tables) (now : Time)
    → Holds project_id event_id t
    → Holds project_id event_id (described project_id' ev raw fingerprint title t now).1
described-Holds project_id event_id project_id' ev raw fingerprint title t now h =
    elim (Option-cases (find_event project_id' ev.event_id t)) [
      | inl new ↦
          rw new (with_event-Holds project_id event_id project_id' ev raw fingerprint title t now h)
      | inr (e, old) ↦ rw old h
    ]

-- No save takes an event out of the database.
pub save_event-Holds :
    (project_id event_id project_id' : Text) (ev : Event) (raw fingerprint title : Text)
    (s : Session)
    → Holds project_id event_id s.tables
    → Holds project_id event_id (save_event project_id' ev raw fingerprint title s).1.tables
save_event-Holds project_id event_id project_id' ev raw fingerprint title s h =
    elim (Result-cases (save_event project_id' ev raw fingerprint title s).0) [
      | inl (v, returned) ↦
          rw (save_event_returns project_id' ev raw fingerprint title s returned).0 (
            described-Holds project_id event_id project_id' ev raw fingerprint title s.tables s.now
              h)
      | inr (e, failed) ↦ rw (save_event_atomic project_id' ev raw fingerprint title s failed) h
    ]

-- A save that returns leaves its event there.
pub save_event-Holds_saved :
    (project_id : Text) (ev : Event) (raw fingerprint title : Text) (s : Session) (v : Saved)
    → (save_event project_id ev raw fingerprint title s).0 ≡ Query.ok v
    → Holds project_id ev.event_id (save_event project_id ev raw fingerprint title s).1.tables
save_event-Holds_saved project_id ev raw fingerprint title s v returned =
    let (e, found, _) = described-find_event project_id ev raw fingerprint title s.tables s.now in
    rw (save_event_returns project_id ev raw fingerprint title s returned).0 (e, found)
