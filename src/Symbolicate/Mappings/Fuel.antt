-- ===== src/Symbolicate/Mappings/Fuel.antt =====
-- The loops of `decodeMappings` end: each value takes a byte at least.
use trackdown.Prelude.{
  ℕ, zero, suc, ◌+◌, ◌≤◌, ◌≢◌, refl, Text, Option, none, some, List, [], ◌∷◌, arith, length, split,
  ltb, ℤ, pos, Bool-cases, inl, inr,
}
use trackdown.Symbolicate.Vlq as Vlq
use trackdown.Symbolicate.Vlq.{VlqResult, decode_vlq, decode_from, decode_digit, base64_decode}
use trackdown.Symbolicate.Mappings.{
  Decoded, ok, err, stuck, ◌>>=◌, Totals, no_totals, read_field, decode_fields, segment_of,
  decode_segments, decode_line, decode_lines, decode_mappings,
}

-- what is left of the text after a value is no longer than `n`
abbrev LeavesAtMost : ℕ → VlqResult → Type 0
LeavesAtMost n (Vlq.err e) = Unit
LeavesAtMost n (Vlq.ok v rest) = length rest ≤ n

decode_digit-LeavesAtMost :
    (later : ℕ → VlqResult) (shift result c : ℕ) (s : Text) (digit : Option ℕ)
    → ((r : ℕ) → LeavesAtMost (length s) (later r))
    → LeavesAtMost (length s) (decode_digit later shift result c s digit)
decode_digit-LeavesAtMost later shift result c s none h = tt
decode_digit-LeavesAtMost later shift result c s (some digit) h = elim (Bool-cases (ltb digit 32)) [
  | inl last ↦ rw last (omega arith)
  | inr more ↦ rw more (h _)
]

weaken : (n m : ℕ) (r : VlqResult) → n ≤ m → LeavesAtMost n r → LeavesAtMost m r
weaken n m (Vlq.err e) h k = tt
weaken n m (Vlq.ok v rest) h k = omega arith

decode_from-LeavesAtMost :
    (shift result c : ℕ) (s : Text) → LeavesAtMost (length s) (decode_from shift result (c ∷ s))
unfolding decode_from
decode_from-LeavesAtMost shift result c [] =
    decode_digit-LeavesAtMost (λ r. decode_from (shift + 5) r []) shift result c []
      (base64_decode c) (λ r. tt)
decode_from-LeavesAtMost shift result c (d ∷ s) =
    decode_digit-LeavesAtMost (λ r. decode_from (shift + 5) r (d ∷ s)) shift result c (d ∷ s)
      (base64_decode c)
      (λ r.
        weaken (length s) (length (d ∷ s)) (decode_from (shift + 5) r (d ∷ s)) (omega arith)
          (decode_from-LeavesAtMost (shift + 5) r d s))

>>=-ne-stuck :
    {A B : Type 0} (m : Decoded A) (f : A → Decoded B)
    → m ≢ stuck
    → ((a : A) → f a ≢ stuck)
    → (m >>= f) ≢ stuck
>>=-ne-stuck (ok a) f h k = k a
>>=-ne-stuck (err x) f h k = λ e. cc
>>=-ne-stuck stuck f h k = λ e. h refl

ok-ne-stuck : {A : Type 0} (a : A) → ok a ≢ stuck
ok-ne-stuck a e = cc

read_field-ne-stuck :
    (later : Text → Decoded (List ℤ)) (n : ℕ) (r : VlqResult)
    → LeavesAtMost n r
    → ((s : Text) → length s ≤ n → later s ≢ stuck)
    → read_field later r ≢ stuck
read_field-ne-stuck later n (Vlq.err e) h k = λ e. cc
read_field-ne-stuck later n (Vlq.ok v rest) h k =
    >>=-ne-stuck (later rest) (λ vs. ok (v ∷ vs)) (k rest h) (λ vs. ok-ne-stuck (v ∷ vs))

decode_fields-ne-stuck : (fuel : ℕ) (s : Text) → length s ≤ fuel → decode_fields fuel s ≢ stuck
unfolding decode_fields decode_vlq
decode_fields-ne-stuck fuel [] h = λ e. cc
decode_fields-ne-stuck zero (c ∷ s) h = absurd (omega arith)
decode_fields-ne-stuck (suc fuel) (c ∷ s) h =
    read_field-ne-stuck (decode_fields fuel) (length s) (decode_vlq (c ∷ s))
      (decode_from-LeavesAtMost 0 0 c s) (λ s' k. decode_fields-ne-stuck fuel s' (omega arith))

segment_of-ne-stuck : (t : Totals) (gen_col : ℤ) (vs : List ℤ) → segment_of t gen_col vs ≢ stuck
segment_of-ne-stuck t gen_col [] = λ e. cc
segment_of-ne-stuck t gen_col (a ∷ []) = λ e. cc
segment_of-ne-stuck t gen_col (a ∷ b ∷ []) = λ e. cc
segment_of-ne-stuck t gen_col (a ∷ b ∷ c ∷ []) = λ e. cc
segment_of-ne-stuck t gen_col (a ∷ b ∷ c ∷ d ∷ []) = λ e. cc
segment_of-ne-stuck t gen_col (a ∷ b ∷ c ∷ d ∷ f ∷ []) = λ e. cc
segment_of-ne-stuck t gen_col (a ∷ b ∷ c ∷ d ∷ f ∷ g ∷ vs) = λ e. cc

decode_segments-ne-stuck :
    (t : Totals) (gen_col : ℤ) (segs : List Text) → decode_segments t gen_col segs ≢ stuck
unfolding decode_segments
decode_segments-ne-stuck t gen_col [] = ok-ne-stuck ([], t)
decode_segments-ne-stuck t gen_col ([] ∷ segs) = decode_segments-ne-stuck t gen_col segs
decode_segments-ne-stuck t gen_col ((c ∷ s) ∷ segs) =
    >>=-ne-stuck (decode_fields (length (c ∷ s)) (c ∷ s)) _
      (decode_fields-ne-stuck (length (c ∷ s)) (c ∷ s) (omega arith))
      (λ vs. >>=-ne-stuck (segment_of t gen_col vs) _ (segment_of-ne-stuck t gen_col vs) (λ r.
        >>=-ne-stuck (decode_segments r.1 r.0.gen_col segs) _
          (decode_segments-ne-stuck r.1 r.0.gen_col segs) (λ r'. ok-ne-stuck (r.0 ∷ r'.0, r'.1))))

decode_line-ne-stuck : (t : Totals) (line : Text) → decode_line t line ≢ stuck
decode_line-ne-stuck t [] = ok-ne-stuck ([], t)
decode_line-ne-stuck t (c ∷ s) = decode_segments-ne-stuck t (pos 0) (split (c ∷ s) 44)

decode_lines-ne-stuck : (t : Totals) (lines : List Text) → decode_lines t lines ≢ stuck
unfolding decode_lines
decode_lines-ne-stuck t [] = ok-ne-stuck []
decode_lines-ne-stuck t (line ∷ lines) =
    >>=-ne-stuck (decode_line t line) _ (decode_line-ne-stuck t line) (λ r.
      >>=-ne-stuck (decode_lines r.1 lines) _ (decode_lines-ne-stuck r.1 lines)
        (λ later. ok-ne-stuck (r.0 ∷ later)))

-- On every text `decodeMappings` ends, with lines of segments or an error.
pub decode_mappings-ne-stuck : (mappings : Text) → decode_mappings mappings ≢ stuck
unfolding decode_mappings
decode_mappings-ne-stuck mappings = decode_lines-ne-stuck no_totals (split mappings 59)
