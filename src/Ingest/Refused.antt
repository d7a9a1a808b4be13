-- ===== src/Ingest/Refused.antt =====
-- A refused envelope leaves no trace.
use trackdown.Prelude.{◌≡◌, refl, Text, Bool, true, false, Option, none, some}
use trackdown.Protocol.Types.{Envelope}
use trackdown.Protocol.Envelope.{Parsed, ok, err, panic, stuck, parse_envelope}
use trackdown.Store.Query as Query
use trackdown.Store.Query.{Session}
use trackdown.Store.Projects.{ensure_project}
use trackdown.Ingest.Body.{Request, Services, extract_public_key, read_envelope_body}
use trackdown.Ingest.{
  Response, content, created, no_content, internal_error, Server, RateLimiter, ensured,
  serve_parsed, ended, serve_body, serve_keyed, serve_admitted, admit, save_items, serve_envelope,
}

-- the client's fault, by the status of the response: 4xx, or none at all
abbrev pub IsRefusal {ℓ} : {A : Type ℓ} → Response A → Type 0
IsRefusal (content a) = ⊥
IsRefusal (created a) = ⊥
IsRefusal no_content = ⊥
IsRefusal internal_error = ⊥
IsRefusal _ = Unit

-- neither the database nor the notifications that wait have changed
abbrev pub Untouched : {L : Type 0} → Server L → Server L → Type 0
Untouched st st' = (st'.session ≡ st.session) × (st'.pending ≡ st.pending)

module _ {L : Type 0} (services : Services) (limiter : Option (RateLimiter L))
    (has_notifier : Bool) where
  ended_served : (completed : Bool) (id : Text) → IsRefusal (ended completed id) → ⊥
  ended_served true id h = h
  ended_served false id h = h

  ensured_refused :
      (project_id : Text) (env : Envelope) (st : Server L) (r : Query.Result (Unit {0}) × Session)
      → IsRefusal (ensured services limiter has_notifier project_id env st r).0
      → Untouched st (ensured services limiter has_notifier project_id env st r).1
  ensured_refused project_id env st (Query.ok u, s) h = absurd (
      ended_served
        (save_items services limiter has_notifier project_id env.items
          (record st { session = s })).0
        env.header.event_id h)
  ensured_refused project_id env st (Query.err e, s) h = absurd h

  parsed_refused :
      (project_id public_key : Text) (p : Parsed Envelope) (st : Server L)
      → IsRefusal (serve_parsed services limiter has_notifier project_id public_key p st).0
      → Untouched st (serve_parsed services limiter has_notifier project_id public_key p st).1
  parsed_refused project_id public_key (ok env) st h =
      ensured_refused project_id env st (ensure_project project_id public_key st.session) h
  parsed_refused project_id public_key (err e) st h = (refl, refl)
  parsed_refused project_id public_key panic st h = (refl, refl)
  parsed_refused project_id public_key stuck st h = (refl, refl)

  body_refused :
      (project_id public_key : Text) (b : Option Text) (st : Server L)
      → IsRefusal (serve_body services limiter has_notifier project_id public_key b st).0
      → Untouched st (serve_body services limiter has_notifier project_id public_key b st).1
  body_refused project_id public_key none st h = (refl, refl)
  body_refused project_id public_key (some body) st h =
      parsed_refused project_id public_key
        (parse_envelope services.headers services.alloc_limit body) st h

  keyed_refused :
      (r : Request) (key : Option Text) (st : Server L)
      → IsRefusal (serve_keyed services limiter has_notifier r key st).0
      → Untouched st (serve_keyed services limiter has_notifier r key st).1
  keyed_refused r none st h = (refl, refl)
  keyed_refused r (some key) st h =
      body_refused r.project_id key (read_envelope_body services r) st h

  admitted_refused :
      (r : Request) (a : Bool × Server L)
      → IsRefusal (serve_admitted services limiter has_notifier r a).0
      → Untouched a.1 (serve_admitted services limiter has_notifier r a).1
  admitted_refused r (false, st) h = (refl, refl)
  admitted_refused r (true, st) h = keyed_refused r (extract_public_key services r) st h

  admit-Untouched :
      (r : Request) (o : Option (RateLimiter L)) (st : Server L) (st' : Server L)
      → Untouched (admit services r o st).1 st'
      → Untouched st st'
  admit-Untouched r none st st' h = h
  admit-Untouched r (some rl) st st' h = h

  -- An envelope that is refused, with 400, 401 or 429 or by a panic, has changed nothing in the
  -- database and has started no notification, also where some of its items could be read.
  pub serve_envelope_refused :
      (r : Request) (st : Server L)
      → IsRefusal (serve_envelope services limiter has_notifier r st).0
      → Untouched st (serve_envelope services limiter has_notifier r st).1
  unfolding serve_envelope
  serve_envelope_refused r st h =
      admit-Untouched r limiter st (serve_envelope services limiter has_notifier r st).1
        (admitted_refused r (admit services r limiter st) h)
