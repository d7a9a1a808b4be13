-- ===== src/Examples/Formats.antt =====
-- An envelope as an SDK writes it, and the templates of the web UI.
use trackdown.Prelude.{
  Lacks, Option, ◌++◌, order_by, map, ◌≡◌, refl, Text, codes, some, [], ◌∷◌, pos, arith,
}
use trackdown.Protocol.Types.{EnvelopeHeader, ItemHeader, Item, Envelope}
use trackdown.Protocol.Envelope.{HeaderJson, ok, parse_envelope, no_header}
use trackdown.Protocol.Envelope.RoundTrip.{
  IsObject, Fits, write_envelope, parse_envelope-write_envelope,
}
use trackdown.Store.Query.{calm, select_rows, reach}
use trackdown.Store.Types.{empty_tables}
use trackdown.WebUi.{handle_home}
use trackdown.Store.Projects.{list_projects}
use trackdown.WebUi.Pages.{TemplateSet, Page, Execution, complete, written, home}
use trackdown.WebUi.Routes.{get_home, serve_route, respond}
use trackdown.WebUi.Templates.{load_templates, page_names}
use trackdown.WebUi.Templates.Loaded.{respond-load_templates}
use trackdown.Examples.Pages.{ui}

abbrev item_header : ItemHeader
item_header = record {
  type = codes "event";
  length = some (pos 3);
  content_type = [];
  filename = [];
}

-- a payload that holds a newline
abbrev item : Item
item = record { header = item_header; payload = codes "{\n}" }

abbrev envelope : Envelope
envelope = record { header = no_header; items = item ∷ item ∷ [] }

abbrev json : HeaderJson
json = record { envelope_header = λ t. some no_header; item_header = λ t. some item_header }

abbrev write_header : EnvelopeHeader → Text
write_header h = codes "{}"

abbrev write_item : ItemHeader → Text
write_item h = codes "{\"type\":\"event\",\"length\":3}"

abbrev written_object :
    (fields : Text)
    → Lacks 10 (b'{' ∷ (fields ++ b'}' ∷ []))
    → IsObject (b'{' ∷ (fields ++ b'}' ∷ []))
written_object fields h = record { fields = fields; braced = refl; one_line = h }

item-Fits : Fits json 1000 write_header write_item item
item-Fits = (
  written_object (codes "\"type\":\"event\",\"length\":3") (ground arith),
  refl,
  (refl, omega arith),
)

parse_envelope-write_envelope_example :
    parse_envelope json 1000 (write_envelope json 1000 write_header write_item envelope)
    ≡ ok envelope
parse_envelope-write_envelope_example =
    parse_envelope-write_envelope json 1000 write_header write_item envelope
      (written_object [] (ground arith)) refl (item-Fits, (item-Fits, tt))

abbrev blank : Page → Execution
blank page = complete []

abbrev templates : TemplateSet
templates = map (λ (name : Text). (name, blank)) page_names

respond-load_templates_example :
    (t : Page → Execution) × (◌≡◌ {A = Option (Page → Execution)} (some blank) (some t))
    × ((respond templates ui get_home (calm empty_tables 9)).0
        ≡ written 200 (t (home (record { projects = [] }))))
unfolding load_templates serve_route handle_home list_projects select_rows reach order_by
respond-load_templates_example =
    respond-load_templates (λ name. some blank) ui get_home (calm empty_tables 9) templates
      (codes "home") (home (record { projects = [] })) refl refl
