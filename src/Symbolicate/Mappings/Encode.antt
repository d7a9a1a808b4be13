-- ===== src/Symbolicate/Mappings/Encode.antt =====
-- The text of mappings, after the Source Map specification.
use trackdown.Prelude.{Text, Option, none, some, List, [], ◌∷◌, ◌++◌, join, ℤ, pos, ◌-ℤ◌}
use trackdown.Prelude.Int64.{IsSmall}
use trackdown.Symbolicate.Vlq.RoundTrip.{encode_vlq}
use trackdown.Symbolicate.Mappings.{Original, Segment, Totals, no_totals}

-- The values that the specification writes for a segment: each is the difference to the one before.
abbrev pub name_fields : Totals → Option ℤ → List ℤ
name_fields t none = []
name_fields t (some n) = (n -ℤ t.name_idx) ∷ []

abbrev pub source_fields : Totals → Option Original → List ℤ
source_fields t none = []
source_fields t (some o) =
    (o.src_idx -ℤ t.src_idx)
    ∷ (o.src_line -ℤ t.src_line)
    ∷ (o.src_col -ℤ t.src_col)
    ∷ name_fields t o.name_idx

abbrev pub name_after : ℤ → Option ℤ → ℤ
name_after n none = n
name_after n (some m) = m

abbrev pub totals_after : Totals → Option Original → Totals
totals_after t none = t
totals_after t (some o) = record {
  src_idx = o.src_idx;
  src_line = o.src_line;
  src_col = o.src_col;
  name_idx = name_after t.name_idx o.name_idx;
}

abbrev pub encode_fields : List ℤ → Text
encode_fields [] = []
encode_fields (v ∷ vs) = encode_vlq v ++ encode_fields vs

abbrev pub encode_segment : Totals → ℤ → Segment → Text
encode_segment t gen_col seg =
    encode_fields ((seg.gen_col -ℤ gen_col) ∷ source_fields t seg.original)

abbrev pub encode_segments : Totals → ℤ → List Segment → List Text
encode_segments t gen_col [] = []
encode_segments t gen_col (seg ∷ segs) =
    encode_segment t gen_col seg ∷ encode_segments (totals_after t seg.original) seg.gen_col segs

abbrev pub line_totals : Totals → List Segment → Totals
line_totals t [] = t
line_totals t (seg ∷ segs) = line_totals (totals_after t seg.original) segs

abbrev pub encode_lines : Totals → List (List Segment) → List Text
encode_lines t [] = []
encode_lines t (segs ∷ lines) =
    join (encode_segments t (pos 0) segs) 44 ∷ encode_lines (line_totals t segs) lines

-- the text of the lines
unfoldable pub encode_mappings : List (List Segment) → Text
unfolding join encode_vlq ◌-ℤ◌
encode_mappings lines = join (encode_lines no_totals lines) 59

abbrev pub IsSmallTotals : Totals → Type 0
IsSmallTotals t = IsSmall t.src_idx × IsSmall t.src_line × IsSmall t.src_col × IsSmall t.name_idx

-- every number of the segment is below 2 ^ 61 in size
abbrev pub IsSmallName : Option ℤ → Type 0
IsSmallName none = Unit
IsSmallName (some n) = IsSmall n

abbrev pub IsSmallOriginal : Option Original → Type 0
IsSmallOriginal none = Unit
IsSmallOriginal (some o) =
    IsSmall o.src_idx × IsSmall o.src_line × IsSmall o.src_col × IsSmallName o.name_idx

abbrev pub IsSmallSegment : Segment → Type 0
IsSmallSegment seg = IsSmall seg.gen_col × IsSmallOriginal seg.original
