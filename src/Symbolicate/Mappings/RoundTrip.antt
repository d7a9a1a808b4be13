-- ===== src/Symbolicate/Mappings/RoundTrip.antt =====
-- `decodeMappings` reads back the lines that an encoder after the specification writes.
use trackdown.Prelude.{
  ℕ, ◌≡◌, refl, sym, ap, subst, ◌∙◌, Text, true, false, List, [], ◌∷◌, ◌++◌, arith, length, split,
  join, split-join, Lacks, All, All-append, All-map, ◌==◌, ℤ, pos, ◌-ℤ◌,
}
use trackdown.Prelude.Int64.{IsSmall}
use trackdown.Symbolicate.Vlq.RoundTrip.{LacksSeparators, encode_vlq-cons}
use trackdown.Symbolicate.Mappings.{
  ok, ◌>>=◌, Segment, Totals, no_totals, decode_fields, segment_of, decode_segments, decode_line,
  decode_lines, decode_mappings,
}
use trackdown.Symbolicate.Mappings.Encode.{
  source_fields, totals_after, encode_fields, encode_segment, encode_segments, line_totals,
  encode_lines, encode_mappings, IsSmallTotals, IsSmallSegment,
}
use trackdown.Symbolicate.Mappings.Fields.{
  decode_fields-encode_fields, segment_of-source_fields, totals_after-IsSmall, sub-FitsVlq,
  source_fields-FitsVlq, encode_fields-LacksSeparators,
}

-- a text with a first byte is decoded, and not passed over
decode_segments_step :
    (t : Totals) (gen_col : ℤ) (text : Text) (c : ℕ) (s : Text) (segs : List Text)
    → text ≡ c ∷ s
    → decode_segments t gen_col (text ∷ segs) ≡ (
        decode_fields (length text) text >>= λ vs. segment_of t gen_col vs >>= λ r.
        decode_segments r.1 r.0.gen_col segs >>= λ r'. ok (r.0 ∷ r'.0, r'.1))
unfolding decode_segments
decode_segments_step t gen_col text c s segs e =
    subst
      (λ x. decode_segments t gen_col (x ∷ segs) ≡ (
        decode_fields (length x) x >>= λ vs. segment_of t gen_col vs >>= λ r.
        decode_segments r.1 r.0.gen_col segs >>= λ r'. ok (r.0 ∷ r'.0, r'.1)))
      (sym e) refl

encode_segment-cons :
    (t : Totals) (gen_col : ℤ) (seg : Segment)
    → (c : ℕ) × (s : Text) × (encode_segment t gen_col seg ≡ c ∷ s)
encode_segment-cons t gen_col seg =
    let (c, s, e) = encode_vlq-cons (seg.gen_col -ℤ gen_col) in
    (
      c,
      s ++ encode_fields (source_fields t seg.original),
      ap (λ x. x ++ encode_fields (source_fields t seg.original)) e,
    )

decode_segments-encode_segments :
    (t : Totals) (gen_col : ℤ) (segs : List Segment)
    → IsSmallTotals t
    → IsSmall gen_col
    → All IsSmallSegment segs
    → decode_segments t gen_col (encode_segments t gen_col segs) ≡ ok (segs, line_totals t segs)
decode_segments-encode_segments t gen_col [] ht hg hs = unfold decode_segments in refl
decode_segments-encode_segments t gen_col (seg ∷ segs) ht hg hs =
    let (c, s, e) = encode_segment-cons t gen_col seg in
    let text = encode_segment t gen_col seg in
    let fields = (seg.gen_col -ℤ gen_col) ∷ source_fields t seg.original in
    decode_segments_step t gen_col text c s
      (encode_segments (totals_after t seg.original) seg.gen_col segs) e
    ∙ rw
        (
          decode_fields-encode_fields (length text) fields
              (
                sub-FitsVlq gen_col seg.gen_col hg hs.0.0,
                source_fields-FitsVlq t seg.original ht hs.0.1,
              )
              (omega arith),
          segment_of-source_fields t gen_col seg.gen_col seg.original ht hg hs.0.0 hs.0.1,
          decode_segments-encode_segments (totals_after t seg.original) seg.gen_col segs
              (totals_after-IsSmall t seg.original ht hs.0.1) hs.0.0 hs.1,
        )
        refl

encode_segments-LacksSeparators :
    (t : Totals) (gen_col : ℤ) (segs : List Segment)
    → All LacksSeparators (encode_segments t gen_col segs)
encode_segments-LacksSeparators t gen_col [] = tt
encode_segments-LacksSeparators t gen_col (seg ∷ segs) = (
  encode_fields-LacksSeparators ((seg.gen_col -ℤ gen_col) ∷ source_fields t seg.original),
  encode_segments-LacksSeparators (totals_after t seg.original) seg.gen_col segs,
)

decode_line_step :
    (t : Totals) (line : Text) (c : ℕ) (s : Text)
    → line ≡ c ∷ s
    → decode_line t line ≡ decode_segments t (pos 0) (split line 44)
decode_line_step t line c s e =
    subst (λ x. decode_line t x ≡ decode_segments t (pos 0) (split x 44)) (sym e) refl

join-cons :
    (p : Text) (ps : List Text) (c : ℕ) (s : Text)
    → p ≡ c ∷ s
    → (s' : Text) × (join (p ∷ ps) 44 ≡ c ∷ s')
unfolding join
join-cons p [] c s e = (s, e)
join-cons p (q ∷ ps) c s e = (s ++ 44 ∷ join (q ∷ ps) 44, ap (λ x. x ++ 44 ∷ join (q ∷ ps) 44) e)

decode_line-encode_segments :
    (t : Totals) (segs : List Segment)
    → IsSmallTotals t
    → All IsSmallSegment segs
    → decode_line t (join (encode_segments t (pos 0) segs) 44) ≡ ok (segs, line_totals t segs)
decode_line-encode_segments t [] ht hs = unfold join in refl
decode_line-encode_segments t (seg ∷ segs) ht hs =
    let (c, s, e) = encode_segment-cons t (pos 0) seg in
    let p = encode_segment t (pos 0) seg in
    let ps = encode_segments (totals_after t seg.original) seg.gen_col segs in
    let (s', e') = join-cons p ps c s e in
    decode_line_step t (join (p ∷ ps) 44) c s' e'
    ∙ rw
        (split-join p ps 44
          (All-map (p ∷ ps) (λ x h. h.0) (encode_segments-LacksSeparators t (pos 0) (seg ∷ segs))))
        (decode_segments-encode_segments t (pos 0) (seg ∷ segs) ht (omega arith) hs)

line_totals-IsSmall :
    (t : Totals) (segs : List Segment)
    → IsSmallTotals t
    → All IsSmallSegment segs
    → IsSmallTotals (line_totals t segs)
line_totals-IsSmall t [] ht hs = ht
line_totals-IsSmall t (seg ∷ segs) ht hs =
    line_totals-IsSmall (totals_after t seg.original) segs
      (totals_after-IsSmall t seg.original ht hs.0.1) hs.1

decode_lines-encode_lines :
    (t : Totals) (lines : List (List Segment))
    → IsSmallTotals t
    → All (All IsSmallSegment) lines
    → decode_lines t (encode_lines t lines) ≡ ok lines
unfolding decode_lines
decode_lines-encode_lines t [] ht hs = refl
decode_lines-encode_lines t (segs ∷ lines) ht hs =
    rw
      (
        decode_line-encode_segments t segs ht hs.0,
        decode_lines-encode_lines (line_totals t segs) lines (line_totals-IsSmall t segs ht hs.0)
            hs.1,
      )
      refl

join-Lacks : (ps : List Text) → All LacksSeparators ps → Lacks 59 (join ps 44)
unfolding join
join-Lacks [] h = tt
join-Lacks (p ∷ []) h = h.0.1
join-Lacks (p ∷ q ∷ ps) h =
    All-append (λ c. (c == 59) ≡ false) (λ _. true) p (44 ∷ join (q ∷ ps) 44) h.0.1
      (refl, join-Lacks (q ∷ ps) h.1)

encode_lines-Lacks :
    (t : Totals) (lines : List (List Segment)) → All (Lacks 59) (encode_lines t lines)
encode_lines-Lacks t [] = tt
encode_lines-Lacks t (segs ∷ lines) = (
  join-Lacks (encode_segments t (pos 0) segs) (encode_segments-LacksSeparators t (pos 0) segs),
  encode_lines-Lacks (line_totals t segs) lines,
)

-- The text that the specification writes for some lines of segments is decoded into these lines,
-- if there is a line and every number is below 2 ^ 61 in size.
pub decode_mappings-encode_mappings :
    (line : List Segment) (lines : List (List Segment))
    → All (All IsSmallSegment) (line ∷ lines)
    → decode_mappings (encode_mappings (line ∷ lines)) ≡ ok (line ∷ lines)
unfolding decode_mappings encode_mappings
decode_mappings-encode_mappings line lines small =
    rw
      (split-join (join (encode_segments no_totals (pos 0) line) 44)
        (encode_lines (line_totals no_totals line) lines) 59
        (encode_lines-Lacks no_totals (line ∷ lines)))
      (decode_lines-encode_lines no_totals (line ∷ lines)
        (omega arith, omega arith, omega arith, omega arith) small)
