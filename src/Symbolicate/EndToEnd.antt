-- ===== src/Symbolicate/EndToEnd.antt =====
-- A source map from its document to a resolved position.
use trackdown.Prelude.{
  ◌≡◌, refl, true, Text, Option, none, some, List, ◌∷◌, ℕ, get_elem?, ℤ, pos, All, ap, ◌∙◌,
}
use trackdown.Symbolicate.Mappings.{Segment, decode_mappings}
use trackdown.Symbolicate.Mappings.Encode.{encode_mappings, IsSmallSegment}
use trackdown.Symbolicate.Mappings.RoundTrip.{decode_mappings-encode_mappings}
use trackdown.Symbolicate.{
  SourceMap, ok, parse, parse_document, with_lines, is_version_3, segment_position, resolve,
}
use trackdown.Symbolicate.Resolve.{covering, IsSorted, resolve-covering}

module _ (unmarshal : Text → Option SourceMap) (content : Text) (doc : SourceMap) where
  parse-encode_mappings :
      (line : List Segment) (lines : List (List Segment))
      → unmarshal content ≡ some doc
      → doc.version ≡ pos 3
      → doc.mappings ≡ encode_mappings (line ∷ lines)
      → All (All IsSmallSegment) (line ∷ lines)
      → parse unmarshal content ≡ ok (record doc { lines = line ∷ lines })
  unfolding parse
  parse-encode_mappings line lines document v3 written small =
      let version_3 : is_version_3 doc.version ≡ true = ap is_version_3 v3 in
      ap parse_document document
      ∙ rw version_3 (
          ap (with_lines doc)
            (ap decode_mappings written ∙ decode_mappings-encode_mappings line lines small))

  -- Take a document of version 3 whose mappings are the text that the specification writes for some
  -- lines of segments, with every number below 2 ^ 61 in size. `Parse` accepts it, and the map that
  -- it returns resolves a column of a line whose segments are in order to the position of the last
  -- segment of that line that is not beyond the column.
  pub resolve-parse :
      (line : List Segment) (lines : List (List Segment)) (n : ℕ) (col : ℤ) (segs : List Segment)
      → unmarshal content ≡ some doc
      → doc.version ≡ pos 3
      → doc.mappings ≡ encode_mappings (line ∷ lines)
      → All (All IsSmallSegment) (line ∷ lines)
      → get_elem? (line ∷ lines) n ≡ some segs
      → IsSorted segs
      → (sm : SourceMap) × (parse unmarshal content ≡ ok sm)
        × (sm.sources ≡ doc.sources)
        × (sm.names ≡ doc.names)
        × (resolve sm (pos n) col ≡ segment_position sm (covering col none segs))
  resolve-parse line lines n col segs document v3 written small here sorted =
      let sm : SourceMap = record doc { lines = line ∷ lines } in
      (
        sm,
        parse-encode_mappings line lines document v3 written small,
        refl,
        refl,
        resolve-covering sm n col segs here sorted,
      )
