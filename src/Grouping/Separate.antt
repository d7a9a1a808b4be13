-- ===== src/Grouping/Separate.antt =====
-- When two events get one fingerprint.
use trackdown.Prelude.{
  ℕ, ◌/◌, ◌%◌, ◌<◌, ◌≡◌, ◌≢◌, refl, sym, ap, ap₂, ◌∙◌, Text, List, [], ◌∷◌, ◌++◌, arith, All,
  Option, none, some, ◌↔◌,
}
use trackdown.Protocol.Types.{Event, ExceptionValue}
use trackdown.Grouping.{
  join_nul, components, components_of, get_last?, fingerprint, encode_hex, hex_digit,
}

abbrev pub HasNoNul : Text → Type 0
HasNoNul p = All (λ b. b ≢ 0) p

-- a separator ends a part
split_at_nul :
    (p q r s : Text) → HasNoNul p → HasNoNul q → p ++ 0 ∷ r ≡ q ++ 0 ∷ s → (p ≡ q) × (r ≡ s)
split_at_nul [] [] r s h k e = (refl, cc)
split_at_nul [] (y ∷ q) r s h k e = absurd (k.0 (cc))
split_at_nul (x ∷ p) [] r s h k e = absurd (h.0 (cc))
split_at_nul (x ∷ p) (y ∷ q) r s h k e =
    let (same, rest) = split_at_nul p q r s h.1 k.1 (cc) in (cc (same), rest)

no_split : (p q r : Text) → HasNoNul p → p ≢ q ++ 0 ∷ r
no_split [] [] r h e = cc
no_split [] (y ∷ q) r h e = cc
no_split (x ∷ p) [] r h e = h.0 (cc)
no_split (x ∷ p) (y ∷ q) r h e = no_split p q r h.1 (cc)

-- A list of parts with at least one part is read off its join, if no part holds a NUL.
join_nul_injective :
    (p : Text) (ps : List Text) (q : Text) (qs : List Text)
    → All HasNoNul (p ∷ ps)
    → All HasNoNul (q ∷ qs)
    → join_nul (p ∷ ps) ≡ join_nul (q ∷ qs)
    → ◌≡◌ {A = List Text} (p ∷ ps) (q ∷ qs)
unfolding join_nul
join_nul_injective p [] q [] h k e = ap (λ x. x ∷ []) e
join_nul_injective p [] q (q' ∷ qs) h k e = absurd (no_split p q (join_nul (q' ∷ qs)) h.0 e)
join_nul_injective p (p' ∷ ps) q [] h k e = absurd (no_split q p (join_nul (p' ∷ ps)) k.0 (sym e))
join_nul_injective p (p' ∷ ps) q (q' ∷ qs) h k e =
    let (same, rest) = split_at_nul p q _ _ h.0 k.0 e in
    ap₂ (λ x xs. x ∷ xs) same (join_nul_injective p' ps q' qs h.1 k.1 rest)

-- a byte is read off its two digits
hex_digit_injective : (a b : ℕ) → a < 16 → b < 16 → hex_digit a ≡ hex_digit b → a ≡ b
unfolding hex_digit
hex_digit_injective a b h k e = ground arith

pub encode_hex_injective :
    (xs ys : Text)
    → All (λ b. b < 256) xs
    → All (λ b. b < 256) ys
    → encode_hex xs ≡ encode_hex ys
    → xs ≡ ys
unfolding encode_hex
encode_hex_injective [] [] h k e = refl
encode_hex_injective [] (y ∷ ys) h k e = cc
encode_hex_injective (x ∷ xs) [] h k e = cc
encode_hex_injective (x ∷ xs) (y ∷ ys) h k e =
    let high = hex_digit_injective (x / 16) (y / 16) (omega arith) (omega arith) (cc) in
    let low = hex_digit_injective (x % 16) (y % 16) (omega arith) (omega arith) (cc) in
    ap₂ (λ b bs. b ∷ bs) (omega (arith, high, low)) (encode_hex_injective xs ys h.1 k.1 (cc))

components_cons : (ev : Event) → (p : Text) × (ps : List Text) × (components ev ≡ p ∷ ps)
unfolding components
components_cons ev = go (get_last? ev.exception)
  where
    go : (o : Option ExceptionValue) → (p : Text) × (ps : List Text) × (components_of ev o ≡ p ∷ ps)
    go none = (_, _, refl)
    go (some primary) = (_, _, refl)

-- If SHA-256 does not collide on the two joined texts, and no component holds a NUL byte, two
-- events have one fingerprint exactly if they have the same components.
pub fingerprint_iff :
    (sha256 : Text → Text) (a b : Event)
    → ((x : Text) → All (λ d. d < 256) (sha256 x))
    → (sha256 (join_nul (components a)) ≡ sha256 (join_nul (components b))
        → join_nul (components a) ≡ join_nul (components b))
    → All HasNoNul (components a)
    → All HasNoNul (components b)
    → (fingerprint sha256 a ≡ fingerprint sha256 b) ↔ (components a ≡ components b)
unfolding fingerprint
fingerprint_iff sha256 a b bytes no_collision clean_a clean_b =
    let (p, ps, ea) = components_cons a in
    let (q, qs, eb) = components_cons b in
    (
      λ e.
          let joined = no_collision (
            encode_hex_injective _ _ (bytes (join_nul (components a)))
              (bytes (join_nul (components b))) e) in
          ea
          ∙ join_nul_injective p ps q qs (rw ea at clean_a) (rw eb at clean_b)
              (sym (ap join_nul ea) ∙ joined ∙ ap join_nul eb)
          ∙ sym eb,
      ap (λ c. encode_hex (sha256 (join_nul c))),
    )
