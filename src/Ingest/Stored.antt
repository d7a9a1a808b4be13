-- ===== src/Ingest/Stored.antt =====
-- An accepted envelope: each of its events that could be read is in the database.
use trackdown.Prelude.{
  ◌≡◌, refl, sym, subst, ◌∙◌, ap, Text, Bool, true, false, Option, none, some, List, [], ◌∷◌, arith,
  All, codes, str_eq,
}
use trackdown.Protocol.Types.{Item, Envelope, Event}
use trackdown.Protocol.Decode.{parse_event}
use trackdown.Protocol.Envelope.{Parsed, ok, err, panic, stuck, parse_envelope}
use trackdown.Grouping.{fingerprint, title}
use trackdown.Store.Types.{Tables}
use trackdown.Store.Query as Query
use trackdown.Store.Query.{Session}
use trackdown.Store.Events.{Saved, save_event}
use trackdown.Store.Projects.{ensure_project}
use trackdown.Store.Events.Held.{Holds, save_event-Holds, save_event-Holds_saved}
use trackdown.Ingest.Body.{Request, Services, extract_public_key, read_envelope_body}
use trackdown.Ingest.{
  Server, RateLimiter, go_on, settle_saved, save_item, save_items, ended, ensured, serve_parsed,
  serve_body, serve_keyed, serve_admitted, admit, serve_envelope, Response, content,
}
use trackdown.Ingest.Keeps.{queue_notice-tables, save_items-keeps}

module _ {L : Type 0} (services : Services) (limiter : Option (RateLimiter L))
    (has_notifier : Bool) where
  -- the item is no event that can be read, or the event is stored
  abbrev pub IsStored : Text → Tables → Item → Type 0
  IsStored project_id t item =
      (ev : Event)
      → str_eq item.header.type (codes "event") ≡ true
      → parse_event services.json item.payload ≡ some ev
      → Holds project_id ev.event_id t

  settle_saved-Holds :
      (project_id raw : Text) (ev : Event) (st : Server L) (r : Query.Result Saved × Session)
      → ((v : Saved) → r.0 ≡ Query.ok v → Holds project_id ev.event_id r.1.tables)
      → (settle_saved services limiter has_notifier project_id ev st r).0 ≡ true
      → Holds project_id ev.event_id
          (settle_saved services limiter has_notifier project_id ev st r).1.session.tables
  settle_saved-Holds project_id raw ev st (Query.ok v, s) h completed =
      subst (Holds project_id ev.event_id)
        (sym (
          queue_notice-tables services limiter has_notifier project_id ev v
            (record st { session = s })))
        (h v refl)
  settle_saved-Holds project_id raw ev st (Query.err e, s) h completed = cc

  save_item_event :
      (project_id : Text) (item : Item) (st : Server L) (ev : Event)
      → str_eq item.header.type (codes "event") ≡ true
      → parse_event services.json item.payload ≡ some ev
      → save_item services limiter has_notifier project_id item st
        ≡ settle_saved services limiter has_notifier project_id ev st (
            save_event project_id ev item.payload
              (fingerprint services.sha256 ev)
              (title ev)
              st.session)
  unfolding save_item
  save_item_event project_id item st ev event parsed = rw (event, parsed) refl

  save_item-IsStored :
      (project_id : Text) (item : Item) (st : Server L)
      → (save_item services limiter has_notifier project_id item st).0 ≡ true
      → IsStored project_id
          (save_item services limiter has_notifier project_id item st).1.session.tables
          item
  save_item-IsStored project_id item st completed ev event parsed =
      let step = save_item_event project_id item st ev event parsed in
      let f = fingerprint services.sha256 ev in
      subst (λ (r : Bool × Server L). Holds project_id ev.event_id r.1.session.tables) (sym step)
        (settle_saved-Holds project_id item.payload ev st
          (save_event project_id ev item.payload f (title ev) st.session)
          (save_event-Holds_saved project_id ev item.payload f (title ev) st.session)
          (sym (ap (λ (r : Bool × Server L). r.0) step) ∙ completed))

  go_on_completed :
      (project_id : Text) (items : List Item) (r : Bool × Server L)
      → (go_on r.0 r.1 (save_items services limiter has_notifier project_id items r.1)).0 ≡ true
      → (r.0 ≡ true)
        × (go_on r.0 r.1 (save_items services limiter has_notifier project_id items r.1)
            ≡ save_items services limiter has_notifier project_id items r.1)
  go_on_completed project_id items (true, st) h = (refl, refl)
  go_on_completed project_id items (false, st) h = cc

  -- The loop over the items comes to its end only with each event that can be read in the
  -- database: also those that an earlier item of the envelope brought.
  pub save_items-IsStored :
      (project_id : Text) (items : List Item) (st : Server L)
      → (save_items services limiter has_notifier project_id items st).0 ≡ true
      → All
          (IsStored project_id
            (save_items services limiter has_notifier project_id items st).1.session.tables)
          items
  unfolding save_items
  save_items-IsStored project_id [] st completed = tt
  save_items-IsStored project_id (item ∷ items) st completed =
      let r = save_item services limiter has_notifier project_id item st in
      let (continued, rest) = go_on_completed project_id items r completed in
      subst (λ (x : Bool × Server L). All (IsStored project_id x.1.session.tables) (item ∷ items))
        (sym rest)
        (
          λ ev event parsed.
              save_items-keeps services limiter has_notifier (Holds project_id ev.event_id)
                (save_event-Holds project_id ev.event_id) project_id items r.1
                (save_item-IsStored project_id item st continued ev event parsed),
          save_items-IsStored project_id items r.1
              (ap (λ (x : Bool × Server L). x.0) (sym rest) ∙ completed),
        )

  ended_content :
      (completed : Bool) (event_id id : Text)
      → ended completed event_id ≡ content id
      → (id ≡ event_id) × (completed ≡ true)
  ended_content true event_id id h = (ground arith, refl)
  ended_content false event_id id h = cc

  -- Where `parse_envelope` reads the items, a response of 200 says that each of its events that can
  -- be read is in the database.
  ensured-IsStored :
      (project_id : Text) (env : Envelope) (st : Server L) (r : Query.Result (Unit {0}) × Session)
      (id : Text)
      → (ensured services limiter has_notifier project_id env st r).0 ≡ content id
      → (id ≡ env.header.event_id)
        × All
            (IsStored project_id
              (ensured services limiter has_notifier project_id env st r).1.session.tables)
            env.items
  ensured-IsStored project_id env st (Query.err e, s) id served = cc
  ensured-IsStored project_id env st (Query.ok u, s) id served =
      let (same, completed) =
        ended_content
          (save_items services limiter has_notifier project_id env.items
            (record st { session = s })).0
          env.header.event_id id served in
      (same, save_items-IsStored project_id env.items (record st { session = s }) completed)

  -- what a response of 200 tells of the rest of the handler, from the state `st` on
  abbrev IsServed : Request → Text → Response Text × Server L → Type 0
  IsServed r id served =
      (body : Text) × (env : Envelope) × (read_envelope_body services r ≡ some body)
      × (parse_envelope services.headers services.alloc_limit body ≡ ok env)
      × (id ≡ env.header.event_id)
      × All (IsStored r.project_id served.1.session.tables) env.items

  parsed_stored :
      (r : Request) (public_key body : Text) (p : Parsed Envelope) (st : Server L) (id : Text)
      → read_envelope_body services r ≡ some body
      → parse_envelope services.headers services.alloc_limit body ≡ p
      → (serve_parsed services limiter has_notifier r.project_id public_key p st).0 ≡ content id
      → IsServed r id (serve_parsed services limiter has_notifier r.project_id public_key p st)
  parsed_stored r public_key body (ok env) st id read parses served =
      let (same, stored) =
        ensured-IsStored r.project_id env st (ensure_project r.project_id public_key st.session) id
          served in
      (body, env, read, parses, same, stored)
  parsed_stored r public_key body (err e) st id read parses served = cc
  parsed_stored r public_key body panic st id read parses served = cc
  parsed_stored r public_key body stuck st id read parses served = cc

  body_stored :
      (r : Request) (public_key : Text) (b : Option Text) (st : Server L) (id : Text)
      → read_envelope_body services r ≡ b
      → (serve_body services limiter has_notifier r.project_id public_key b st).0 ≡ content id
      → IsServed r id (serve_body services limiter has_notifier r.project_id public_key b st)
  body_stored r public_key none st id read served = cc
  body_stored r public_key (some body) st id read served =
      parsed_stored r public_key body (parse_envelope services.headers services.alloc_limit body) st
        id read refl served

  keyed_stored :
      (r : Request) (key : Option Text) (st : Server L) (id : Text)
      → (serve_keyed services limiter has_notifier r key st).0 ≡ content id
      → IsServed r id (serve_keyed services limiter has_notifier r key st)
  keyed_stored r none st id served = cc
  keyed_stored r (some key) st id served =
      body_stored r key (read_envelope_body services r) st id refl served

  admitted_stored :
      (r : Request) (a : Bool × Server L) (id : Text)
      → (serve_admitted services limiter has_notifier r a).0 ≡ content id
      → IsServed r id (serve_admitted services limiter has_notifier r a)
  admitted_stored r (false, st) id served = cc
  admitted_stored r (true, st) id served =
      keyed_stored r (extract_public_key services r) st id served

  -- A response of 200 to an envelope says that the envelope could be read, names its id, and comes
  -- only with each of its readable events in the database, under the project of the request.
  pub serve_envelope-IsStored :
      (r : Request) (st : Server L) (id : Text)
      → (serve_envelope services limiter has_notifier r st).0 ≡ content id
      → (body : Text) × (env : Envelope) × (read_envelope_body services r ≡ some body)
        × (parse_envelope services.headers services.alloc_limit body ≡ ok env)
        × (id ≡ env.header.event_id)
        × All
            (IsStored r.project_id
              (serve_envelope services limiter has_notifier r st).1.session.tables)
            env.items
  unfolding serve_envelope
  serve_envelope-IsStored r st id served = admitted_stored r (admit services r limiter st) id served
