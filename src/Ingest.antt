-- ===== src/Ingest.antt =====
-- internal/ingest/ingest.go: the handler of `POST /api/{project_id}/envelope/` and the background
-- delivery of the notifications it starts.
pub mod Body
pub mod Manage
pub mod Upload
pub mod Keeps
pub mod Refused
pub mod Stored
pub mod Notices
use trackdown.Prelude.{
  ℕ, ◌+◌, Text, codes, Bool, true, false, not, ◌&&◌, ◌||◌, Option, none, some, List, [], ◌∷◌, ◌++◌,
  if◌then◌else◌, str_eq,
}
use trackdown.Protocol.Types.{Item, Envelope, Event}
use trackdown.Protocol.Envelope.{HeaderJson, Parsed, ok, err, panic, stuck, parse_envelope}
use trackdown.Protocol.Decode.{parse_event}
use trackdown.Protocol.Json.{JsonCodec}
use trackdown.Grouping.{fingerprint, title}
use trackdown.Alert.{NotifyEvent, Notifier}
use trackdown.Store.Types.{Time, OutboxEntry, pending}
use trackdown.Store.Query as Query
use trackdown.Store.Query.{Session}
use trackdown.Store.Events.{Saved, save_event}
use trackdown.Store.Issues.{Issue, get_issue}
use trackdown.Store.Projects.{ensure_project}
use trackdown.Store.Outbox.{enqueue_alert}
use trackdown.Ingest.Body.{Request, Services, client_ip, extract_public_key, read_envelope_body}

-- What the client gets, with the status code of each. `aborted` is no response at all: the handler
-- panicked, and net/http closed the connection.
pub data Response {ℓ} (A : Type ℓ) : Type ℓ where
  -- 200, with a body
  content : A → Response A
  -- 201, with a body
  created : A → Response A
  -- 204
  no_content : Response A
  -- 400
  bad_request : Response A
  -- 401
  unauthorized : Response A
  -- 404
  not_found : Response A
  -- 413
  too_large : Response A
  -- 429
  too_many_requests : Response A
  -- 500
  internal_error : Response A
  aborted : Response A

-- `RateLimiter`, as what a call of `Allow` at a time does to the limiter's own state
pub record RateLimiter (L : Type 0) : Type 0 where
  pub allow : Text → Time → L → Bool × L

-- What the handler works on: the database, the limiter, and the notifications that wait for their
-- goroutine to run.
pub record Server (L : Type 0) : Type 0 where
  pub session : Session
  pub limiter : L
  pub pending : List NotifyEvent

-- the row that a failed delivery asks for; `EnqueueAlert` sets the other columns
unfoldable pub entry_of : NotifyEvent → OutboxEntry
entry_of ev = record {
  id = 0;
  project_id = ev.project_id;
  issue_id = ev.issue_id;
  title = ev.title;
  level = ev.level;
  is_new = ev.is_new;
  is_regression = ev.is_regression;
  event_count = ev.event_count;
  occurred_at = ev.occurred_at;
  status = pending;
  attempts = 0;
  next_attempt_at = 0;
  created_at = 0;
  last_error = [];
}

abbrev pub enqueue_failed : NotifyEvent → Option Text → Session → Session
enqueue_failed ev none s = s
enqueue_failed ev (some msg) s = (enqueue_alert (entry_of ev) (some msg) s).1

-- `notifyAsync`: the body of the goroutine
unfoldable pub notify : {W : Type 0} → Notifier W → NotifyEvent → Session → W → Session × W
unfolding entry_of
notify notifier ev s w = let (failed, w') = notifier ev w in (enqueue_failed ev failed s, w')

abbrev count_of : Query.Result Issue → ℕ
count_of (Query.ok i) = i.event_count
count_of (Query.err e) = 1

abbrev notice : Text → Text → Event → Saved → ℕ → Time → NotifyEvent
notice project_id name ev saved count now = record {
  project_id = project_id;
  issue_id = saved.issue_id;
  title = name;
  level = ev.level;
  is_new = saved.is_new;
  is_regression = saved.is_regression;
  event_count = count;
  occurred_at = now;
}

abbrev ended : Bool → Text → Response Text
ended true id = content id
ended false id = internal_error

abbrev pub go_on : {L : Type 0} → Bool → Server L → Bool × Server L → Bool × Server L
go_on true st later = later
go_on false st later = (false, st)

abbrev pub admit :
    {L : Type 0} → Services → Request → Option (RateLimiter L) → Server L → Bool × Server L
admit services r none st = (true, st)
admit services r (some rl) st =
    let (permitted, l) = rl.allow (client_ip services r) st.session.now st.limiter in
    (permitted, record st { limiter = l })

module _ {L : Type 0} (services : Services) (limiter : Option (RateLimiter L))
    (has_notifier : Bool) where
  -- the `if h.Notifier != nil` of the loop
  unfoldable pub queue_notice : Text → Event → Saved → Server L → Server L
  unfolding get_issue title
  queue_notice project_id ev saved st =
      let (issue, s) = get_issue project_id saved.issue_id st.session in
      if has_notifier && (saved.is_new || saved.is_regression)
      then record st {
        session = s;
        pending = st.pending ++ (notice project_id (title ev) ev saved (count_of issue) s.now ∷ []);
      }
      else st

  abbrev pub settle_saved : Text → Event → Server L → Query.Result Saved × Session → Bool × Server L
  settle_saved project_id ev st (Query.ok saved, s) =
      (true, queue_notice project_id ev saved (record st { session = s }))
  settle_saved project_id ev st (Query.err e, s) = (false, record st { session = s })

  abbrev pub save_parsed : Text → Text → Option Event → Server L → Bool × Server L
  save_parsed project_id raw none st = (true, st)
  save_parsed project_id raw (some ev) st =
      settle_saved project_id ev st
        (save_event project_id ev raw (fingerprint services.sha256 ev) (title ev) st.session)

  -- the body of the loop over the items: whether it goes on
  unfoldable pub save_item : Text → Item → Server L → Bool × Server L
  unfolding queue_notice save_event fingerprint title parse_event
  save_item project_id item st =
      if str_eq item.header.type (codes "event")
      then save_parsed project_id item.payload (parse_event services.json item.payload) st
      else (true, st)

  -- the loop over the items: whether it came to its end
  unfoldable pub save_items : Text → List Item → Server L → Bool × Server L
  unfolding save_item
  save_items project_id [] st = (true, st)
  save_items project_id (item ∷ items) st =
      let (continues, st') = save_item project_id item st in
      go_on continues st' (save_items project_id items st')

  abbrev pub serve_items : Text → Envelope → Server L → Response Text × Server L
  serve_items project_id env st =
      let (completed, st') = save_items project_id env.items st in
      (ended completed env.header.event_id, st')

  abbrev pub ensured :
      Text → Envelope → Server L → Query.Result (Unit {0}) × Session → Response Text × Server L
  ensured project_id env st (Query.ok u, s) = serve_items project_id env (record st { session = s })
  ensured project_id env st (Query.err e, s) = (internal_error, record st { session = s })

  abbrev pub serve_parsed : Text → Text → Parsed Envelope → Server L → Response Text × Server L
  serve_parsed project_id public_key (ok env) st =
      ensured project_id env st (ensure_project project_id public_key st.session)
  serve_parsed project_id public_key (err e) st = (bad_request, st)
  serve_parsed project_id public_key panic st = (aborted, st)
  serve_parsed project_id public_key stuck st = (aborted, st)

  abbrev pub serve_body : Text → Text → Option Text → Server L → Response Text × Server L
  serve_body project_id public_key none st = (bad_request, st)
  serve_body project_id public_key (some body) st =
      serve_parsed project_id public_key (parse_envelope services.headers services.alloc_limit body)
        st

  abbrev pub serve_keyed : Request → Option Text → Server L → Response Text × Server L
  serve_keyed r none st = (unauthorized, st)
  serve_keyed r (some public_key) st =
      serve_body r.project_id public_key (read_envelope_body services r) st

  abbrev pub serve_admitted : Request → Bool × Server L → Response Text × Server L
  serve_admitted r (false, st) = (too_many_requests, st)
  serve_admitted r (true, st) = serve_keyed r (extract_public_key services r) st

  -- `ServeEnvelope`
  unfoldable pub serve_envelope : Request → Server L → Response Text × Server L
  unfolding save_items ensure_project parse_envelope read_envelope_body extract_public_key client_ip
  serve_envelope r st = serve_admitted r (admit services r limiter st)
