-- ===== src/Examples/Pages.antt =====
-- The pages of the web UI.
use trackdown.Prelude.{
  ◌*◌, ◌≡◌, refl, Text, codes, str_eq, true, Option, none, some, [], ◌∷◌, map, find,
}
use trackdown.Store.Types.{resolved, second}
use trackdown.Store.Query.{Session, calm}
use trackdown.Store.Issues.{is_issue}
use trackdown.Store.Events.{list_events_by_issue}
use trackdown.Symbolicate.{SourceMap}
use trackdown.WebUi.Symbolication.{build_display_exceptions}
use trackdown.WebUi.Symbolication.Cached.{display_exception, map_of, build_display_exceptions-map}
use trackdown.WebUi.Symbolication.Raw.{raw_of, raw_shown, build_display_exceptions-raw}
use trackdown.WebUi.Pages.{IssueListPage, IssueDetailPage, issue_detail}
use trackdown.WebUi.{Services, show, moves, issue_path, handle_issue_action, handle_issue_detail}
use trackdown.WebUi.Routes.{get_event_detail, serve_route}
use trackdown.WebUi.Reads.{serve_route-Reads}
use trackdown.WebUi.Actions.{events_listed, handle_issue_detail-handle_issue_action}
use trackdown.Examples.Data.{shop, event, issue, tables, codec}

abbrev no_map : Text → Option SourceMap
no_map content = none

-- handlers that read every number as 1
abbrev pub ui : Services Text
ui = record {
  parse_int = λ t. some 1;
  parse_int_error = λ t. [];
  event_json = codec;
  map_json = no_map;
  any_json = λ t. some t;
  indent = λ t. some t;
}

build_display_exceptions-map_example :
    build_display_exceptions no_map shop (event (codes "a")) (calm tables (9 * second)) ≡ (
      map
          (display_exception (map_of no_map shop tables (9 * second) []))
          (event (codes "a")).exception,
      calm tables (9 * second),
    )
build_display_exceptions-map_example =
    build_display_exceptions-map no_map shop tables (9 * second) (event (codes "a"))

abbrev broken : Session
broken = record { tables = tables; now = 9 * second; faults = true ∷ [] }

build_display_exceptions-raw_example :
    (map raw_shown (build_display_exceptions no_map shop (event (codes "a")) broken).0
      ≡ map raw_of (event (codes "a")).exception)
    × ((build_display_exceptions no_map shop (event (codes "a")) broken).1.tables ≡ tables)
build_display_exceptions-raw_example =
    build_display_exceptions-raw no_map shop (event (codes "a")) broken

serve_route-Reads_example :
    (serve_route ui (get_event_detail shop (codes "a")) broken).1.tables ≡ tables
serve_route-Reads_example = serve_route-Reads ui (get_event_detail shop (codes "a")) broken refl

abbrev listed : IssueListPage
listed = record {
  project_id = shop;
  status = codes "all";
  counts = (codes "unresolved", 1) ∷ [];
  issues =
      record {
        id = 1;
        title = codes "E: boom";
        status = issue.status;
        level = codes "error";
        event_count = 1;
        first_seen = 3 * second;
        last_seen = 3 * second;
      }
      ∷ [];
}

handle_issue_detail-handle_issue_action_example :
    let after = handle_issue_action ui resolved shop (codes "1") (calm tables (9 * second)) in
    (p : IssueDetailPage) × (after.0 ≡ moves 303 (issue_path shop 1))
    × ((handle_issue_detail ui shop (codes "1") after.1).0
        ≡ show (codes "issue_detail") (issue_detail p))
    × (p.status ≡ resolved)
    × (p.project_id ≡ shop)
    × (p.id ≡ issue.id)
    × (p.title ≡ issue.title)
    × (p.fingerprint ≡ issue.fingerprint)
    × (p.event_count ≡ issue.event_count)
    × (p.first_seen ≡ issue.first_seen)
    × (p.last_seen ≡ issue.last_seen)
    × (p.events ≡ events_listed (list_events_by_issue shop 1 (calm tables (9 * second))).0)
unfolding find str_eq is_issue
handle_issue_detail-handle_issue_action_example =
    handle_issue_detail-handle_issue_action ui resolved shop (codes "1") 1 tables (9 * second) issue
      refl refl
