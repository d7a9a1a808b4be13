-- ===== src/Ingest/Keeps.antt =====
-- What the envelope handler does to the database.
use trackdown.Prelude.{
  ◌≡◌, refl, sym, subst, Text, Bool, true, false, Option, none, some, List, [], ◌∷◌, inl, inr,
  Bool-cases, codes, str_eq, ◌&&◌, ◌||◌,
}
use trackdown.Protocol.Types.{Item, Envelope, Event}
use trackdown.Protocol.Envelope.{Parsed, ok, err, panic, stuck, parse_envelope}
use trackdown.Protocol.Decode.{parse_event}
use trackdown.Grouping.{fingerprint, title}
use trackdown.Store.Types.{Tables}
use trackdown.Store.Query as Query
use trackdown.Store.Query.{Session, Query}
use trackdown.Store.Query.Laws.{select_row-Reads}
use trackdown.Store.Events.{Saved, save_event}
use trackdown.Store.Kept.{IsKept}
use trackdown.Store.Issues.{get_issue}
use trackdown.Store.Projects.{ensure_project}
use trackdown.Ingest.Body.{Request, Services, extract_public_key, read_envelope_body}
use trackdown.Ingest.{
  Server, RateLimiter, queue_notice, settle_saved, save_parsed, save_item, save_items, ensured,
  serve_parsed, serve_body, serve_keyed, serve_admitted, admit, serve_envelope, go_on,
}

module _ {L : Type 0} (services : Services) (limiter : Option (RateLimiter L))
    (has_notifier : Bool) where
  pub queue_notice-tables :
      (project_id : Text) (ev : Event) (saved : Saved) (st : Server L)
      → (queue_notice services limiter has_notifier project_id ev saved st).session.tables
        ≡ st.session.tables
  unfolding queue_notice get_issue
  queue_notice-tables project_id ev saved st =
      elim (Bool-cases (has_notifier && (saved.is_new || saved.is_regression))) [
        | inl notified ↦ rw notified (select_row-Reads _ st.session)
        | inr silent ↦ rw silent refl
      ]

  -- A property of the database that `SaveEvent` keeps is kept by the loop over the items.
  module _ {κ} (P : Tables → Type κ)
      (keeps : (project_id : Text) (ev : Event) (raw fingerprint title : Text) (s : Session)
        → P s.tables
        → P (save_event project_id ev raw fingerprint title s).1.tables) where
    settle_saved-keeps :
        (project_id : Text) (ev : Event) (st : Server L) (r : Query.Result Saved × Session)
        → P r.1.tables
        → P (settle_saved services limiter has_notifier project_id ev st r).1.session.tables
    settle_saved-keeps project_id ev st (Query.ok saved, s) h =
        subst P (sym (queue_notice-tables project_id ev saved (record st { session = s }))) h
    settle_saved-keeps project_id ev st (Query.err e, s) h = h

    save_parsed-keeps :
        (project_id raw : Text) (o : Option Event) (st : Server L)
        → P st.session.tables
        → P (save_parsed services limiter has_notifier project_id raw o st).1.session.tables
    save_parsed-keeps project_id raw none st h = h
    save_parsed-keeps project_id raw (some ev) st h =
        settle_saved-keeps project_id ev st
          (save_event project_id ev raw (fingerprint services.sha256 ev) (title ev) st.session)
          (keeps project_id ev raw (fingerprint services.sha256 ev) (title ev) st.session h)

    pub save_item-keeps :
        (project_id : Text) (item : Item) (st : Server L)
        → P st.session.tables
        → P (save_item services limiter has_notifier project_id item st).1.session.tables
    unfolding save_item
    save_item-keeps project_id item st h =
        elim (Bool-cases (str_eq item.header.type (codes "event"))) [
          | inl event ↦ rw event (
              save_parsed-keeps project_id item.payload (parse_event services.json item.payload) st
                h)
          | inr other ↦ rw other h
        ]

    go_on-keeps :
        (continues : Bool) (st : Server L) (later : Bool × Server L)
        → P st.session.tables
        → P later.1.session.tables
        → P (go_on continues st later).1.session.tables
    go_on-keeps true st later h k = k
    go_on-keeps false st later h k = h

    pub save_items-keeps :
        (project_id : Text) (items : List Item) (st : Server L)
        → P st.session.tables
        → P (save_items services limiter has_notifier project_id items st).1.session.tables
    unfolding save_items
    save_items-keeps project_id [] st h = h
    save_items-keeps project_id (item ∷ items) st h =
        let (continues, st') = save_item services limiter has_notifier project_id item st in
        go_on-keeps continues st' (save_items services limiter has_notifier project_id items st')
          (save_item-keeps project_id item st h)
          (save_items-keeps project_id items st' (save_item-keeps project_id item st h))

    module _
        (ensures : (id public_key : Text) (s : Session)
          → P s.tables
          → P (ensure_project id public_key s).1.tables) where
      ensured-keeps :
          (project_id : Text) (env : Envelope) (st : Server L)
          (r : Query.Result (Unit {0}) × Session)
          → P r.1.tables
          → P (ensured services limiter has_notifier project_id env st r).1.session.tables
      ensured-keeps project_id env st (Query.ok u, s) h =
          save_items-keeps project_id env.items (record st { session = s }) h
      ensured-keeps project_id env st (Query.err e, s) h = h

      serve_parsed-keeps :
          (project_id public_key : Text) (p : Parsed Envelope) (st : Server L)
          → P st.session.tables
          → P
              (serve_parsed services limiter has_notifier project_id public_key p
                st).1.session.tables
      serve_parsed-keeps project_id public_key (ok env) st h =
          ensured-keeps project_id env st (ensure_project project_id public_key st.session)
            (ensures project_id public_key st.session h)
      serve_parsed-keeps project_id public_key (err e) st h = h
      serve_parsed-keeps project_id public_key panic st h = h
      serve_parsed-keeps project_id public_key stuck st h = h

      serve_body-keeps :
          (project_id public_key : Text) (b : Option Text) (st : Server L)
          → P st.session.tables
          → P (serve_body services limiter has_notifier project_id public_key b st).1.session.tables
      serve_body-keeps project_id public_key none st h = h
      serve_body-keeps project_id public_key (some body) st h =
          serve_parsed-keeps project_id public_key
            (parse_envelope services.headers services.alloc_limit body) st h

      serve_keyed-keeps :
          (r : Request) (key : Option Text) (st : Server L)
          → P st.session.tables
          → P (serve_keyed services limiter has_notifier r key st).1.session.tables
      serve_keyed-keeps r none st h = h
      serve_keyed-keeps r (some key) st h =
          serve_body-keeps r.project_id key (read_envelope_body services r) st h

      serve_admitted-keeps :
          (r : Request) (a : Bool × Server L)
          → P a.1.session.tables
          → P (serve_admitted services limiter has_notifier r a).1.session.tables
      serve_admitted-keeps r (false, st) h = h
      serve_admitted-keeps r (true, st) h = serve_keyed-keeps r (extract_public_key services r) st h

      admit-keeps :
          (r : Request) (o : Option (RateLimiter L)) (st : Server L)
          → P st.session.tables
          → P (admit services r o st).1.session.tables
      admit-keeps r none st h = h
      admit-keeps r (some rl) st h = h

      pub serve_envelope-keeps :
          (r : Request) (st : Server L)
          → P st.session.tables
          → P (serve_envelope services limiter has_notifier r st).1.session.tables
      unfolding serve_envelope
      serve_envelope-keeps r st h =
          serve_admitted-keeps r (admit services r limiter st) (admit-keeps r limiter st h)

  -- The envelope endpoint keeps what every write keeps, whatever a client posts and whichever
  -- statements fail.
  pub serve_envelope_keeps :
      (P : Tables → Type 0) (k : IsKept P) (r : Request) (st : Server L)
      → P st.session.tables
      → P (serve_envelope services limiter has_notifier r st).1.session.tables
  serve_envelope_keeps P k r st c =
      serve_envelope-keeps P k.by_save_event k.by_ensure_project r st c
