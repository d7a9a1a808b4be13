-- ===== src/Symbolicate/Resolve.antt =====
-- `Resolve` against a scan of the line.
use trackdown.Prelude.{
  ℕ, zero, suc, ◌≤◌, ◌≡◌, refl, sym, ap, ◌∙◌, Bool, true, Option, none, some, List, [], ◌∷◌,
  if◌then◌else◌, length, get_elem?, ℤ, pos, ltb_ℤ, ◌≤ℤ◌, All, Pairs, arith,
}
use trackdown.Symbolicate.Mappings.{Segment}
use trackdown.Symbolicate.Search.{sort_search, Splits, sort_search-Splits}
use trackdown.Symbolicate.{SourceMap, segment_position, is_beyond, before, resolve_in, resolve}

-- The last segment whose column is not beyond the column asked for, by a scan of the line.
unfoldable pub covering : ℤ → Option Segment → List Segment → Option Segment
covering col found [] = found
covering col found (seg ∷ segs) =
    covering col (if ltb_ℤ col seg.gen_col then found else some seg) segs

abbrev pub IsSorted : List Segment → Type 0
IsSorted segs = Pairs (λ a b. a.gen_col ≤ℤ b.gen_col) segs

abbrev beyond : ℤ → List Segment → ℕ → Bool
beyond col segs i = is_beyond col (get_elem? segs i)

abbrev pick : Option Segment → List Segment → ℕ → Option Segment
pick found segs zero = found
pick found segs (suc i) = get_elem? segs i

covering-pick :
    (col : ℤ) (found : Option Segment) (segs : List Segment) (r : ℕ)
    → Splits (beyond col segs) r
    → covering col found segs ≡ pick found segs r
unfolding covering
covering-pick col found [] zero h = refl
covering-pick col found [] (suc r) h = cc (h.0 r (omega arith))
covering-pick col found (seg ∷ segs) zero h = rw (h.1 0 (omega arith)) (
    covering-pick col found segs zero
      ((λ k p. absurd (omega arith)), λ k p. h.1 (suc k) (omega arith)))
covering-pick col found (seg ∷ segs) (suc zero) h = rw (h.0 0 (omega arith)) (
    covering-pick col (some seg) segs zero
      ((λ k p. absurd (omega arith)), λ k p. h.1 (suc k) (omega arith)))
covering-pick col found (seg ∷ segs) (suc (suc r)) h = rw (h.0 0 (omega arith)) (
    covering-pick col (some seg) segs (suc r)
      ((λ k p. h.0 (suc k) (omega arith)), λ k p. h.1 (suc k) (omega arith)))

beyond-past : (col : ℤ) (segs : List Segment) (k : ℕ) → length segs ≤ k → beyond col segs k ≡ true
beyond-past col [] k h = refl
beyond-past col (seg ∷ segs) zero h = absurd (omega arith)
beyond-past col (seg ∷ segs) (suc k) h = beyond-past col segs k (omega arith)

beyond_first :
    (col : ℤ) (seg : Segment) (segs : List Segment) (k : ℕ)
    → All (λ s. seg.gen_col ≤ℤ s.gen_col) segs
    → ltb_ℤ col seg.gen_col ≡ true
    → beyond col segs k ≡ true
beyond_first col seg [] k h first = refl
beyond_first col seg (s ∷ segs) zero h first = ground (arith, h.0)
beyond_first col seg (s ∷ segs) (suc k) h first = beyond_first col seg segs k h.1 first

beyond_mono :
    (col : ℤ) (segs : List Segment)
    → IsSorted segs
    → (a b : ℕ) → a ≤ b
    → beyond col segs a ≡ true
    → beyond col segs b ≡ true
beyond_mono col [] sorted a b le h = refl
beyond_mono col (seg ∷ segs) sorted zero zero le h = h
beyond_mono col (seg ∷ segs) sorted zero (suc b) le h = beyond_first col seg segs b sorted.0 h
beyond_mono col (seg ∷ segs) sorted (suc a) zero le h = absurd (omega arith)
beyond_mono col (seg ∷ segs) sorted (suc a) (suc b) le h =
    beyond_mono col segs sorted.1 a b (omega arith) h

before-pick : (segs : List Segment) (r : ℕ) → before segs r ≡ pick none segs r
before-pick segs zero = refl
before-pick segs (suc r) = refl

resolve_in-covering :
    (sm : SourceMap) (col : ℤ) (segs : List Segment)
    → IsSorted segs
    → resolve_in sm col segs ≡ segment_position sm (covering col none segs)
resolve_in-covering sm col [] sorted = unfold covering in refl
resolve_in-covering sm col (seg ∷ segs) sorted =
    let all : List Segment = seg ∷ segs in
    let r = sort_search (length all) (beyond col all) in
    ap (segment_position sm) (
      before-pick all r
      ∙ sym (
          covering-pick col none all r (
            sort_search-Splits (beyond col all) (beyond_mono col all sorted) (length all)
              (beyond-past col all))))

-- On a line whose segments are in order of their generated columns, `Resolve` finds by its binary
-- search the position of the last segment whose column is not beyond the column asked for, and
-- nothing if there is no such segment or it has no source.
pub resolve-covering :
    (sm : SourceMap) (line : ℕ) (col : ℤ) (segs : List Segment)
    → get_elem? sm.lines line ≡ some segs
    → IsSorted segs
    → resolve sm (pos line) col ≡ segment_position sm (covering col none segs)
unfolding resolve
resolve-covering sm line col segs here sorted = rw here (resolve_in-covering sm col segs sorted)
