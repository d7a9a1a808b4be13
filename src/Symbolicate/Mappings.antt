-- ===== src/Symbolicate/Mappings.antt =====
-- `decodeMappings` of sourcemap.go. A segment's `hasSource` and `hasName`, with the fields that they
-- guard, are `Option`s.
pub mod Fuel
pub mod Encode
pub mod Fields
pub mod RoundTrip
use trackdown.Prelude.{
  ℕ, zero, suc, Text, Bool, Option, none, some, List, [], ◌∷◌, if◌then◌else◌, is_empty, length,
  split, ℤ, pos,
}
use trackdown.Prelude.Int64.{add}
use trackdown.Symbolicate.Vlq as Vlq
use trackdown.Symbolicate.Vlq.{VlqError, VlqResult, decode_vlq}

-- `srcIdx`, `srcLine` and `srcCol` of a segment that has a source, and its `nameIdx` if it has one
pub record Original : Type 0 where
  pub src_idx : ℤ
  pub src_line : ℤ
  pub src_col : ℤ
  pub name_idx : Option ℤ

-- `segment`
pub record Segment : Type 0 where
  pub gen_col : ℤ
  pub original : Option Original

-- the sums that run through the whole text
pub record Totals : Type 0 where
  pub src_idx : ℤ
  pub src_line : ℤ
  pub src_col : ℤ
  pub name_idx : ℤ

abbrev pub no_totals : Totals
no_totals = record { src_idx = pos 0; src_line = pos 0; src_col = pos 0; name_idx = pos 0 }

pub data MappingError : Type 0 where
  bad_vlq : VlqError → MappingError
  bad_field_count : ℕ → MappingError

-- `stuck` is no outcome of the source: the fuel ran out.
pub data Decoded {ℓ} (A : Type ℓ) : Type ℓ where
  ok : A → Decoded A
  err : MappingError → Decoded A
  stuck : Decoded A

infixl 5 ◌>>=◌
abbrev pub ◌>>=◌ {ℓ κ} : {A : Type ℓ} {B : Type κ} → Decoded A → (A → Decoded B) → Decoded B
◌>>=◌ (ok a) f = f a
◌>>=◌ (err e) f = err e
◌>>=◌ stuck f = stuck

-- a value before those that follow it
abbrev pub read_field : (Text → Decoded (List ℤ)) → VlqResult → Decoded (List ℤ)
read_field later (Vlq.err e) = err (bad_vlq e)
read_field later (Vlq.ok v rest) = later rest >>= λ vs. ok (v ∷ vs)

-- `for rest != ""`: all the values of a segment, of which the source keeps the first five
unfoldable pub decode_fields : ℕ → Text → Decoded (List ℤ)
unfolding decode_vlq
decode_fields fuel [] = ok []
decode_fields zero (c ∷ s) = stuck
decode_fields (suc fuel) (c ∷ s) = read_field (decode_fields fuel) (decode_vlq (c ∷ s))

-- the sums after the fields of a source, and the segment's part
abbrev move_source : Totals → ℤ → ℤ → ℤ → Totals
move_source t idx line col = record t {
  src_idx = add t.src_idx idx;
  src_line = add t.src_line line;
  src_col = add t.src_col col;
}

abbrev original_of : Totals → Option ℤ → Original
original_of t name = record {
  src_idx = t.src_idx;
  src_line = t.src_line;
  src_col = t.src_col;
  name_idx = name;
}

abbrev move_name : Totals → ℤ → Totals
move_name t name = record t { name_idx = add t.name_idx name }

-- a segment of one, four or five values
abbrev pub segment_of : Totals → ℤ → List ℤ → Decoded (Segment × Totals)
segment_of t gen_col (c ∷ []) = ok (record { gen_col = add gen_col c; original = none }, t)
segment_of t gen_col (c ∷ i ∷ l ∷ o ∷ []) =
    let t' = move_source t i l o in
    ok (record { gen_col = add gen_col c; original = some (original_of t' none) }, t')
segment_of t gen_col (c ∷ i ∷ l ∷ o ∷ n ∷ []) =
    let t' = move_name (move_source t i l o) n in
    ok (record { gen_col = add gen_col c; original = some (original_of t' (some t'.name_idx)) }, t')
segment_of t gen_col vs = err (bad_field_count (length vs))

-- the loop over the segments of a line; an empty one is passed over
unfoldable pub decode_segments : Totals → ℤ → List Text → Decoded (List Segment × Totals)
unfolding decode_fields add
decode_segments t gen_col [] = ok ([], t)
decode_segments t gen_col ([] ∷ segs) = decode_segments t gen_col segs
decode_segments t gen_col ((c ∷ s) ∷ segs) = do
  vs ← decode_fields (length (c ∷ s)) (c ∷ s)
  (seg, t') ← segment_of t gen_col vs
  (later, t'') ← decode_segments t' seg.gen_col segs
  ok (seg ∷ later, t'')

abbrev pub decode_line : Totals → Text → Decoded (List Segment × Totals)
decode_line t [] = ok ([], t)
decode_line t (c ∷ s) = decode_segments t (pos 0) (split (c ∷ s) 44)

-- the loop over the lines
unfoldable pub decode_lines : Totals → List Text → Decoded (List (List Segment))
unfolding decode_segments
decode_lines t [] = ok []
decode_lines t (line ∷ lines) = do
  (segs, t') ← decode_line t line
  later ← decode_lines t' lines
  ok (segs ∷ later)

-- `decodeMappings`: lines end at `;`, segments at `,`
unfoldable pub decode_mappings : Text → Decoded (List (List Segment))
unfolding decode_lines
decode_mappings mappings = decode_lines no_totals (split mappings 59)
