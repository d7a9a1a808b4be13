-- ===== src/Symbolicate.antt =====
-- internal/symbolicate/sourcemap.go: source maps, parsed and asked for original positions.
-- encoding/json is a parameter: `unmarshal` gives the fields of a document.
pub mod Vlq
pub mod Mappings
pub mod Search
use mathlib.Core.Option
use trackdown.Prelude.{
  ℕ, zero, suc, Text, Bool, true, false, Option, none, some, List, [], ◌∷◌, if◌then◌else◌, length,
  get_elem?, get_or, ℤ, pos, negsuc, ltb, ◌==◌, ltb_ℤ,
}
use trackdown.Symbolicate.Mappings as Mappings
use trackdown.Symbolicate.Mappings.{MappingError, Original, Segment, Decoded, decode_mappings}
use trackdown.Symbolicate.Search.{sort_search}
pub mod Resolve
pub mod EndToEnd

-- `SourceMap`
pub record SourceMap : Type 0 where
  pub version : ℤ
  pub sources : List Text
  pub sources_content : List Text
  pub names : List Text
  pub mappings : Text
  pub lines : List (List Segment)

-- `Position`; its `Name` and `HasName` are an `Option`
pub record Position : Type 0 where
  pub source : Text
  pub line : ℤ
  pub column : ℤ
  pub name : Option Text

pub data ParseError : Type 0 where
  bad_json : ParseError
  unsupported_version : ℤ → ParseError
  bad_mappings : MappingError → ParseError

-- `stuck` is no outcome of the source: the fuel of `decode_mappings` ran out.
pub data Parsed : Type 0 where
  ok : SourceMap → Parsed
  err : ParseError → Parsed
  stuck : Parsed

abbrev pub with_lines : SourceMap → Decoded (List (List Segment)) → Parsed
with_lines sm (Mappings.ok lines) = ok (record sm { lines = lines })
with_lines sm (Mappings.err e) = err (bad_mappings e)
with_lines sm Mappings.stuck = stuck

abbrev pub is_version_3 : ℤ → Bool
is_version_3 (pos v) = v == 3
is_version_3 (negsuc v) = false

abbrev pub parse_document : Option SourceMap → Parsed
parse_document none = err bad_json
parse_document (some sm) =
    let decoded = with_lines sm (decode_mappings sm.mappings) in
    if is_version_3 sm.version then decoded else err (unsupported_version sm.version)

-- `Parse`
unfoldable pub parse : (Text → Option SourceMap) → Text → Parsed
unfolding decode_mappings
parse unmarshal content = parse_document (unmarshal content)

-- an element by an index that may be negative or too large
abbrev pub element {ℓ} : {A : Type ℓ} → List A → ℤ → Option A
element xs (pos i) = get_elem? xs i
element xs (negsuc i) = none

abbrev pub text_or_empty : Option Text → Text
text_or_empty none = []
text_or_empty (some t) = t

abbrev pub name_of : SourceMap → Option ℤ → Option Text
name_of sm none = none
name_of sm (some i) = element sm.names i

-- the position that a segment with a source stands for
unfoldable pub original_position : SourceMap → Original → Position
original_position sm o = record {
  source = text_or_empty (element sm.sources o.src_idx);
  line = o.src_line;
  column = o.src_col;
  name = name_of sm o.name_idx;
}

abbrev pub segment_position : SourceMap → Option Segment → Option Position
segment_position sm none = none
segment_position sm (some seg) = Option.map (original_position sm) seg.original

-- `segs[i].genCol > genCol`, for an index within the line
abbrev pub is_beyond : ℤ → Option Segment → Bool
is_beyond col none = true
is_beyond col (some seg) = ltb_ℤ col seg.gen_col

-- `segs[idx]` for `idx` one below what the search found, if that is an index
abbrev pub before : List Segment → ℕ → Option Segment
before segs zero = none
before segs (suc i) = get_elem? segs i

abbrev pub resolve_in : SourceMap → ℤ → List Segment → Option Position
resolve_in sm col [] = none
resolve_in sm col (seg ∷ segs) = segment_position sm (
    before (seg ∷ segs)
      (sort_search (length (seg ∷ segs)) (λ i. is_beyond col (get_elem? (seg ∷ segs) i))))

abbrev pub resolve_line : SourceMap → ℤ → Option (List Segment) → Option Position
resolve_line sm col none = none
resolve_line sm col (some segs) = resolve_in sm col segs

-- `SourceMap.Resolve`
unfoldable pub resolve : SourceMap → ℤ → ℤ → Option Position
unfolding sort_search original_position
resolve sm gen_line gen_col = resolve_line sm gen_col (element sm.lines gen_line)
