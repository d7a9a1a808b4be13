-- ===== src/Symbolicate/Mappings/Fields.antt =====
-- The values of one segment, written after the specification and read back.
use trackdown.Prelude.{
  ℕ, zero, suc, ◌+◌, ◌^◌, ◌≤◌, ◌<◌, ◌≡◌, refl, sym, ap, subst, ◌∙◌, Text, true, false, Option, none,
  some, List, [], ◌∷◌, ◌++◌, arith, length, All, All-append, ◌==◌, ℤ, ◌-ℤ◌, pos_part, neg_part,
  length-append,
}
use trackdown.Prelude.Int64.{add-sub, IsSmall}
use trackdown.Symbolicate.Vlq.{decode_vlq}
use trackdown.Symbolicate.Vlq.RoundTrip.{
  encode_vlq, decode_vlq-encode_vlq, LacksSeparators, encode_vlq-LacksSeparators, encode_vlq-cons,
}
use trackdown.Symbolicate.Mappings.{ok, Original, Totals, read_field, decode_fields, segment_of}
use trackdown.Symbolicate.Mappings.Encode.{
  name_fields, source_fields, name_after, totals_after, encode_fields, IsSmallTotals, IsSmallName,
  IsSmallOriginal,
}

abbrev pub FitsVlq : ℤ → Type 0
FitsVlq z = pos_part z + neg_part z < 2 ^ 62

pub decode_fields_step :
    (fuel : ℕ) (s : Text) (c : ℕ) (s' : Text)
    → s ≡ c ∷ s'
    → decode_fields (suc fuel) s ≡ read_field (decode_fields fuel) (decode_vlq s)
unfolding decode_fields
decode_fields_step fuel s c s' e =
    subst (λ x. decode_fields (suc fuel) x ≡ read_field (decode_fields fuel) (decode_vlq x)) (sym e)
      refl

-- the fields of a segment, with any fuel that is enough
pub decode_fields-encode_fields :
    (fuel : ℕ) (vs : List ℤ)
    → All FitsVlq vs
    → length (encode_fields vs) ≤ fuel
    → decode_fields fuel (encode_fields vs) ≡ ok vs
decode_fields-encode_fields zero [] h enough = unfold decode_fields in refl
decode_fields-encode_fields (suc fuel) [] h enough = unfold decode_fields in refl
decode_fields-encode_fields zero (v ∷ vs) h enough =
    let (c, s, e) = encode_vlq-cons v in
    absurd (omega (arith, length-append (encode_vlq v) (encode_fields vs), ap length e))
decode_fields-encode_fields (suc fuel) (v ∷ vs) h enough =
    let (c, s, e) = encode_vlq-cons v in
    decode_fields_step fuel (encode_vlq v ++ encode_fields vs) c (s ++ encode_fields vs)
      (ap (λ x. x ++ encode_fields vs) e)
    ∙ ap (read_field (decode_fields fuel)) (decode_vlq-encode_vlq v (encode_fields vs) h.0)
    ∙ rw
        (decode_fields-encode_fields fuel vs h.1
          (omega (arith, length-append (encode_vlq v) (encode_fields vs), ap length e)))
        refl

pub segment_of-name_fields :
    (t : Totals) (gen_col col i l c : ℤ) (name : Option ℤ)
    → IsSmallTotals t
    → IsSmall gen_col
    → IsSmall col
    → IsSmall i × IsSmall l × IsSmall c × IsSmallName name
    → let o : Original = record { src_idx = i; src_line = l; src_col = c; name_idx = name } in
      segment_of t gen_col ((col -ℤ gen_col) ∷ source_fields t (some o))
      ≡ ok (record { gen_col = col; original = some o }, totals_after t (some o))
segment_of-name_fields t gen_col col i l c none ht hg hc ho =
    rw
      (
        add-sub gen_col col hg hc,
        add-sub t.src_idx i ht.0 ho.0,
        add-sub t.src_line l ht.1 ho.1,
        add-sub t.src_col c ht.2 ho.2,
      )
      refl
segment_of-name_fields t gen_col col i l c (some n) ht hg hc ho =
    rw
      (
        add-sub gen_col col hg hc,
        add-sub t.src_idx i ht.0 ho.0,
        add-sub t.src_line l ht.1 ho.1,
        add-sub t.src_col c ht.2 ho.2,
        add-sub t.name_idx n ht.3 ho.3,
      )
      refl

pub segment_of-source_fields :
    (t : Totals) (gen_col col : ℤ) (o : Option Original)
    → IsSmallTotals t
    → IsSmall gen_col
    → IsSmall col
    → IsSmallOriginal o
    → segment_of t gen_col ((col -ℤ gen_col) ∷ source_fields t o)
      ≡ ok (record { gen_col = col; original = o }, totals_after t o)
segment_of-source_fields t gen_col col none ht hg hc ho = rw (add-sub gen_col col hg hc) refl
segment_of-source_fields t gen_col col (some o) ht hg hc ho =
    segment_of-name_fields t gen_col col o.src_idx o.src_line o.src_col o.name_idx ht hg hc ho

pub name_after-IsSmall :
    (n : ℤ) (name : Option ℤ) → IsSmall n → IsSmallName name → IsSmall (name_after n name)
name_after-IsSmall n none h k = h
name_after-IsSmall n (some m) h k = k

pub totals_after-IsSmall :
    (t : Totals) (o : Option Original)
    → IsSmallTotals t
    → IsSmallOriginal o
    → IsSmallTotals (totals_after t o)
totals_after-IsSmall t none ht ho = ht
totals_after-IsSmall t (some o) ht ho =
    (ho.0, ho.1, ho.2, name_after-IsSmall t.name_idx o.name_idx ht.3 ho.3)

pub sub-FitsVlq : (a b : ℤ) → IsSmall a → IsSmall b → FitsVlq (b -ℤ a)
unfolding ◌-ℤ◌
sub-FitsVlq a b h k = ground arith

pub source_fields-FitsVlq :
    (t : Totals) (o : Option Original)
    → IsSmallTotals t
    → IsSmallOriginal o
    → All FitsVlq (source_fields t o)
source_fields-FitsVlq t none ht ho = tt
source_fields-FitsVlq t (some o) ht ho =
    let idx = sub-FitsVlq t.src_idx o.src_idx ht.0 ho.0 in
    let line = sub-FitsVlq t.src_line o.src_line ht.1 ho.1 in
    let col = sub-FitsVlq t.src_col o.src_col ht.2 ho.2 in
    (idx, (line, (col, name_fields-FitsVlq t o.name_idx ht.3 ho.3)))
  where
    name_fields-FitsVlq :
        (t : Totals) (name : Option ℤ)
        → IsSmall t.name_idx
        → IsSmallName name
        → All FitsVlq (name_fields t name)
    name_fields-FitsVlq t none h k = tt
    name_fields-FitsVlq t (some n) h k = (sub-FitsVlq t.name_idx n h k, tt)

pub encode_fields-LacksSeparators : (vs : List ℤ) → LacksSeparators (encode_fields vs)
encode_fields-LacksSeparators [] = (tt, tt)
encode_fields-LacksSeparators (v ∷ vs) =
    let first = encode_vlq-LacksSeparators v in
    let later = encode_fields-LacksSeparators vs in
    (
      All-append (λ c. (c == 44) ≡ false) (λ _. true) (encode_vlq v) (encode_fields vs) first.0
          later.0,
      All-append (λ c. (c == 59) ≡ false) (λ _. true) (encode_vlq v) (encode_fields vs) first.1
          later.1,
    )
