-- ===== src/Examples/Program.antt =====
-- The program as a whole.
use trackdown.Prelude.{
  ℕ, ◌-◌, filter, ltb_ℤ, ◌+ℤ◌, ◌+◌, ◌*◌, ◌≡◌, refl, Text, codes, Bool, true, none, some, List, [],
  ◌∷◌, pos, arith, leb, count_where, find, str_eq, length, All,
}
use trackdown.Store.Types.{Project, second, current_timestamp, EventRow, Tables, empty_tables, Time}
use trackdown.Store.Query.{calm}
use trackdown.Store.Events.Invariant.{IsConsistent}
use trackdown.Store.Events.Tracker.{Arrival, save_all, observe_all, tracker_of, tracker_of-save_all}
use trackdown.Auth.{Config}
use trackdown.Command.{gc, start_retention, deleted}
use trackdown.Command.Retention.{
  fixed, gc_overflow, gc-delete_old_events, start_retention-delete_old_events,
}
use trackdown.Command.Routes.{envelope, Caller, App, Setting, serve_endpoint}
use trackdown.Command.System.{
  State, Reach, here, next, request, deliver, session_of, with_session, with_pending,
}
use trackdown.Command.System.Consistent.{Reach-IsConsistent}
use trackdown.Command.System.Projects.{Reach-IsProject}
use trackdown.Store.Projects.{find_project, has_project_id}
use trackdown.Command.System.Bounded.{Reach-IsBounded}
use trackdown.Retry.Attempts.{IsBounded}
use trackdown.Examples.Data as Data
use trackdown.Examples.Data.{shop, tables, event, heard, deaf, services}
use trackdown.Examples.Pages.{ui}
use trackdown.Examples.Deliveries.{alert}
use trackdown.Ingest.{notify}
use trackdown.Store.Events.{Zone}
use trackdown.Command.Retention.Cutoff.{day}
use trackdown.Store.Outbox.{hour}

abbrev pub admin : Config
admin = record { username = codes "admin"; password = codes "secret" }

abbrev pub stranger : Caller
stranger = record { credentials = some (codes "admin", codes "guess"); ip = codes "10.0.0.1" }

-- a limiter of failed attempts that counts them
abbrev setting : Setting ℕ ℕ Text
setting = record {
  services = services;
  limiter = none;
  has_notifier = true;
  auth = some admin;
  failure_limiter = record { allow = λ ip now n. (true, n + 1) };
  ui = ui;
  templates = [];
}

abbrev app : Tables → App ℕ ℕ
app t = record {
  ingest = record { session = calm t (9 * second); limiter = 0; pending = [] };
  failures = 0;
}

abbrev start : State ℕ ℕ ℕ
start = record { app = app empty_tables; outside = 0 }

abbrev answered : State ℕ ℕ ℕ
answered = record start {
  app = (serve_endpoint setting (envelope Data.request) stranger start.app).1;
}

abbrev served : Reach setting heard (pos day) start answered
served = next here (request (envelope Data.request) stranger)

Reach-IsConsistent_example : IsConsistent (session_of answered).tables
Reach-IsConsistent_example = Reach-IsConsistent setting heard (pos day) refl served

-- an alert whose first delivery fails, and which is then in the outbox
abbrev waiting : State ℕ ℕ ℕ
waiting = record {
  app = record {
    ingest = record { session = calm empty_tables (9 * second); limiter = 0; pending = alert ∷ [] };
    failures = 0;
  };
  outside = 0;
}

abbrev undelivered : State ℕ ℕ ℕ
undelivered =
    with_pending (with_session waiting (notify deaf alert (session_of waiting) waiting.outside)) []

Reach-IsBounded_example : All IsBounded (session_of undelivered).tables.outbox
Reach-IsBounded_example =
    Reach-IsBounded setting deaf (pos day) {st = waiting} {st' = undelivered} refl
      (next here (deliver alert [] [] refl))

-- a project that a stranger's envelope for the same id does not change
abbrev shop_project : Project
shop_project = record { id = shop; public_key = codes "first"; name = []; created_at = second }

abbrev settled : State ℕ ℕ ℕ
settled = record { app = app (record empty_tables { projects = shop_project ∷ [] }); outside = 0 }

Reach-IsProject_example :
    find_project shop
      (session_of (record settled {
        app = (serve_endpoint setting (envelope Data.request) stranger settled.app).1;
      })).tables
    ≡ some shop_project
unfolding find has_project_id str_eq
Reach-IsProject_example =
    Reach-IsProject shop shop_project setting heard (pos day) {st = settled} refl
      (next here (request (envelope Data.request) stranger))

abbrev arrival : Text → Time → Arrival
arrival id at_time = record {
  project_id = shop;
  event = event id;
  raw = codes "{}";
  fingerprint = codes "k";
  title = codes "E: boom";
  at_time = at_time;
}

abbrev arrivals : List Arrival
arrivals =
    arrival (codes "a") second
    ∷ arrival (codes "b") (2 * second)
    ∷ arrival (codes "a") (3 * second)
    ∷ []

tracker_of-save_all_example :
    tracker_of (save_all arrivals empty_tables) ≡ observe_all arrivals (tracker_of empty_tables)
tracker_of-save_all_example = tracker_of-save_all arrivals empty_tables

-- one hour ahead of UTC
abbrev berlin : Zone
berlin = fixed (pos hour)

abbrev recent : EventRow → Bool
recent e = leb second e.received_at

start_retention-delete_old_events_example :
    count_where recent
      (start_retention berlin
        (pos 30)
        (day ∷ 2 * day ∷ [])
        (calm tables (9 * second))).tables.events
    ≡ count_where recent tables.events
start_retention-delete_old_events_example =
    start_retention-delete_old_events 30 (omega arith) (omega arith) berlin hour (λ x. omega arith)
      recent (2 * day) (λ e h. ground arith) (day ∷ 2 * day ∷ []) tables (9 * second) (omega arith)
      (omega arith)

gc-delete_old_events_example :
    (gc berlin (pos 1) (calm tables (day - hour + 9 * second))).1.tables.events
    ≡ filter
        (λ e.
          ltb_ℤ
            (pos (day - hour + 9 * second) +ℤ pos hour)
            (pos (current_timestamp e.received_at + 1 * day)))
        tables.events
gc-delete_old_events_example =
    gc-delete_old_events 1 (omega arith) (omega arith) (pos hour) tables (day - hour + 9 * second)

gc_overflow_example :
    gc berlin (pos 106752) (calm tables (9 * second))
    ≡ (deleted (length tables.events), calm (record tables { events = [] }) (9 * second))
gc_overflow_example =
    gc_overflow 106752 (omega arith) berlin tables (9 * second) (omega arith) (omega arith)
      (λ x. omega arith) (omega arith)
