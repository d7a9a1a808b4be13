-- ===== src/Examples/Maps.antt =====
-- Source maps and event pages.
use trackdown.Prelude.{◌≡◌, ◌≢◌, refl, codes, some, none, List, [], ◌∷◌, pos, arith}
use trackdown.Symbolicate.Mappings as Mappings
use trackdown.Symbolicate.Mappings.{Segment, decode_mappings}
use trackdown.Symbolicate.Mappings.Fuel.{decode_mappings-ne-stuck}
use trackdown.Symbolicate.Mappings.Encode.{encode_mappings}
use trackdown.Symbolicate.{SourceMap, ok, parse, segment_position, resolve}
use trackdown.Symbolicate.Resolve.{covering}
use trackdown.Symbolicate.EndToEnd.{resolve-parse}

decode_mappings-ne-stuck_example : decode_mappings (codes "AAAA,IAAM;;gB!") ≢ Mappings.stuck
decode_mappings-ne-stuck_example = decode_mappings-ne-stuck (codes "AAAA,IAAM;;gB!")

abbrev bare_segment : Segment
bare_segment = record { gen_col = pos 0; original = none }

abbrev named_segment : Segment
named_segment = record {
  gen_col = pos 9;
  original =
      some (record { src_idx = pos 0; src_line = pos 4; src_col = pos 2; name_idx = some (pos 0) });
}

abbrev segments : List Segment
segments = bare_segment ∷ named_segment ∷ []

-- the text of two lines, of which the first is empty
abbrev bundle : SourceMap
bundle = record {
  version = pos 3;
  sources = codes "app.ts" ∷ [];
  sources_content = [];
  names = codes "boot" ∷ [];
  mappings = encode_mappings ([] ∷ segments ∷ []);
  lines = [];
}

abbrev loaded : SourceMap
loaded = record bundle { lines = [] ∷ segments ∷ [] }

resolve-parse_example :
    (sm : SourceMap) × (parse (λ _. some bundle) (codes "{}") ≡ ok sm)
    × (sm.sources ≡ bundle.sources)
    × (sm.names ≡ bundle.names)
    × (resolve sm (pos 1) (pos 12) ≡ segment_position sm (covering (pos 12) none segments))
resolve-parse_example =
    resolve-parse (λ _. some bundle) (codes "{}") bundle [] (segments ∷ []) 1 (pos 12) segments refl
      refl refl (omega arith) refl (omega arith)
