-- ===== src/Examples/Saves.antt =====
-- Saved events and their issues.
use trackdown.Prelude.{◌*◌, ◌≡◌, refl, ◌⊎◌, codes, true, false, some, [], ◌∷◌, find, str_eq}
use trackdown.Protocol.Types.{message_string}
use trackdown.Protocol.Decode.{no_message}
use trackdown.Store.Types.{second, resolved, empty_tables, Tables, current_timestamp}
use trackdown.Store.Query.{
  Result, ok, calm, Session, transaction, reach, select_row, statement, execute,
}
use trackdown.Store.Events.{
  save_body, Saved, store_event, upsert_issue, insert_event, new_event, is_event, has_fingerprint,
  find_issue, save_event, get_event,
}
use trackdown.Store.Events.Save.{described, save_event-calm, save_event_returns}
use trackdown.Store.Events.Stored.{seen_after, save_event_again, get_event-save_event}
use trackdown.Store.Events.Invariant.{IsConsistent, empty-IsConsistent, described-IsConsistent}
use trackdown.Store.Issues.{set_issue_status}
use trackdown.Store.Lifecycle.{save_event-set_issue_status}
use trackdown.Examples.Data.{shop, event, issue, tables}

abbrev first_save : Tables
first_save =
    (described shop (event (codes "a")) (codes "{}") (codes "k") (codes "E: boom") empty_tables
      (3 * second)).1

first_save-IsConsistent : IsConsistent first_save
first_save-IsConsistent =
    described-IsConsistent shop (event (codes "a")) (codes "{}") (codes "k") (codes "E: boom")
      empty_tables (3 * second) empty-IsConsistent

-- a session whose third statement fails
abbrev faulty : Session
faulty = record { tables = tables; now = 9 * second; faults = false ∷ false ∷ true ∷ [] }

save_event-calm_example :
    save_event shop
      (event (codes "b"))
      (codes "{}")
      (codes "k")
      (codes "E: boom")
      (calm tables (9 * second))
    ≡ (
      ok
          (described shop
            (event (codes "b"))
            (codes "{}")
            (codes "k")
            (codes "E: boom")
            tables
            (9 * second)).0,
      calm
          (described shop
            (event (codes "b"))
            (codes "{}")
            (codes "k")
            (codes "E: boom")
            tables
            (9 * second)).1
          (9 * second),
    )
save_event-calm_example =
    save_event-calm shop (event (codes "b")) (codes "{}") (codes "k") (codes "E: boom") tables
      (9 * second)

abbrev known : Saved
known = record { issue_id = 1; is_new = false; is_regression = false }

save_event_returns_example :
    let d =
      described shop
        (event (codes "b"))
        (codes "{}")
        (codes "k")
        (codes "E: boom")
        tables
        (9 * second) in
    let r =
      save_event shop
        (event (codes "b"))
        (codes "{}")
        (codes "k")
        (codes "E: boom")
        (calm tables (9 * second)) in
    (r.1.tables ≡ d.1)
    × (known.is_new ≡ d.0.is_new)
    × (known.is_regression ≡ d.0.is_regression)
    × ((known.issue_id ≡ d.0.issue_id) ⊎ (known.issue_id ≡ 0))
unfolding save_event save_body store_event transaction reach select_row statement find is_event
    has_fingerprint str_eq execute upsert_issue insert_event new_event
save_event_returns_example =
    save_event_returns shop (event (codes "b")) (codes "{}") (codes "k") (codes "E: boom")
      (calm tables (9 * second)) {v = known} refl

abbrev saved : Result Saved × Session
saved =
    save_event shop (event (codes "b")) (codes "{}") (codes "k") (codes "E: boom")
      (calm tables (9 * second))

save_event_again_example :
    (v : Saved) × (saved.0 ≡ ok v)
    × ((save_event shop (event (codes "b")) (codes "[]") (codes "z") (codes "other") (record {
      tables = saved.1.tables;
      now = 12 * second;
      faults = false ∷ true ∷ [];
    })).1.tables
        ≡ saved.1.tables)
    × (save_event shop
          (event (codes "b"))
          (codes "[]")
          (codes "z")
          (codes "other")
          (calm saved.1.tables (12 * second))
        ≡ (
          ok (record { issue_id = v.issue_id; is_new = false; is_regression = false }),
          calm saved.1.tables (12 * second),
        ))
save_event_again_example =
    save_event_again shop (event (codes "b")) (codes "{}") (codes "k") (codes "E: boom") tables
      (9 * second) (event (codes "b")) (codes "[]") (codes "z") (codes "other") (12 * second)
      (false ∷ true ∷ []) refl

get_event-save_event_example :
    (v : Saved) × (saved.0 ≡ ok v)
    × (get_event shop (codes "b") (calm saved.1.tables (12 * second)) ≡ (
      ok (record {
        event_id = codes "b";
        issue_id = v.issue_id;
        received_at = current_timestamp (9 * second);
        timestamp = some (3 * second);
        level = codes "error";
        platform = codes "go";
        message = message_string no_message;
        payload = codes "{}";
      }),
      calm saved.1.tables (12 * second),
    ))
unfolding find is_event str_eq
get_event-save_event_example =
    get_event-save_event shop (event (codes "b")) (codes "{}") (codes "k") (codes "E: boom") tables
      (9 * second) (12 * second) refl

save_event-set_issue_status_example :
    let t' = (set_issue_status shop 1 resolved (calm tables (5 * second))).1.tables in
    let r =
      save_event shop
        (event (codes "b"))
        (codes "{}")
        (codes "k")
        (codes "E: boom")
        (calm t' (9 * second)) in
    (r.0 ≡ ok (record { issue_id = 1; is_new = false; is_regression = true }))
    × (find_issue shop (codes "k") r.1.tables
        ≡ some (seen_after (9 * second) (record issue { status = resolved })))
unfolding find is_event has_fingerprint str_eq
save_event-set_issue_status_example =
    save_event-set_issue_status shop (codes "k") (codes "{}") (codes "E: boom") (event (codes "b"))
      resolved issue tables (5 * second) (9 * second) refl refl
