-- ===== src/Symbolicate/Vlq/RoundTrip.antt =====
-- `decodeVLQ` reads back what an encoder after the Source Map specification writes.
use trackdown.Prelude.{
  ℕ, zero, suc, ◌+◌, ◌*◌, ◌/◌, ◌%◌, ◌^◌, ◌≤◌, ◌<◌, ◌≡◌, refl, sym, ap, ◌∙◌, Text, Bool, true, false,
  ◌&&◌, not, Lacks, none, some, [], ◌∷◌, ◌++◌, arith, if◌then◌else◌, ltb, ◌==◌, ==_iff, ltb→lt,
  Bool-cases, inl, inr, ℤ, pos, negsuc, get_or, pos_part, neg_part,
}
use native.Mathlib.Nat.{pow-suc, add-mul, mul_assoc}
use trackdown.Symbolicate.Vlq.{
  base64_chars, base64_decode, ok, finish, decode_digit, decode_from, decode_vlq,
}

-- The digits of `n`, the lowest first: each but the last has 32 added. `more` bounds their number.
unfoldable pub vlq_digits : ℕ → ℕ → Text
vlq_digits zero n = get_or base64_chars (n % 32) 0 ∷ []
vlq_digits (suc more) n =
    let later = vlq_digits more (n / 32) in
    if ltb n 32 then get_or base64_chars n 0 ∷ [] else get_or base64_chars (32 + n % 32) 0 ∷ later

-- the sign in the lowest bit
unfoldable pub vlq_number : ℤ → ℕ
vlq_number (pos n) = 2 * n
vlq_number (negsuc n) = 2 * (n + 1) + 1

-- Thirteen digits of five bits hold 64 bits.
unfoldable pub encode_vlq : ℤ → Text
unfolding vlq_digits vlq_number
encode_vlq z = vlq_digits 12 (vlq_number z)

is_read : ℕ → Bool
unfolding base64_decode
is_read d = elim (base64_decode (get_or base64_chars d 0)) [ none ↦ false | some e ↦ e == d ]

all_below : ℕ → (ℕ → Bool) → Bool
all_below zero p = true
all_below (suc n) p = p n && all_below n p

all_below_sound : (n : ℕ) (p : ℕ → Bool) (d : ℕ) → all_below n p ≡ true → d < n → p d ≡ true
unfolding all_below
all_below_sound zero p d h lt = absurd (omega arith)
all_below_sound (suc n) p d h lt = ground (arith, all_below_sound n p d)

digits_read : all_below 64 is_read ≡ true
unfolding all_below is_read
digits_read = refl

is_read_sound : (d : ℕ) → is_read d ≡ true → base64_decode (get_or base64_chars d 0) ≡ some d
unfolding is_read
is_read_sound d h =
    elim (base64_decode (get_or base64_chars d 0))
        as (λ o. (elim o [ none ↦ false | some e ↦ e == d ]) ≡ true → o ≡ some d) [
          | none ↦ λ e. cc
          | some e ↦ λ k. ap some ((==_iff e d).0 k)
        ]
      h

base64_decode_digit : (d : ℕ) → d < 64 → base64_decode (get_or base64_chars d 0) ≡ some d
base64_decode_digit d h = is_read_sound d (all_below_sound 64 is_read d digits_read h)

pow_step : (shift : ℕ) → 2 ^ (shift + 5) ≡ 32 * 2 ^ shift
pow_step shift = grind (
  arith,
  pow-suc 2 (shift + 4),
  pow-suc 2 (shift + 3),
  pow-suc 2 (shift + 2),
  pow-suc 2 (shift + 1),
  pow-suc 2 shift,
)

-- a digit and what the later ones add
split_digits : (n place : ℕ) → n % 32 * place + n / 32 * (32 * place) ≡ n * place
split_digits n place = sym (
    ap (λ m. m * place) (omega arith)
    ∙ add-mul (n % 32) (n / 32 * 32) place
    ∙ ap (λ m. n % 32 * place + m) (mul_assoc (n / 32) 32 place))

first_digit : (n shift : ℕ) → n % 32 * 2 ^ shift + n / 32 * 2 ^ (shift + 5) ≡ n * 2 ^ shift
first_digit n shift =
    ap (λ q. n % 32 * 2 ^ shift + n / 32 * q) (pow_step shift) ∙ split_digits n (2 ^ shift)

exact_sum :
    (d place result m : ℕ)
    → m ≡ d
    → result + d * place < 2 ^ 64
    → (result + m * place) % 2 ^ 64 ≡ result + d * place
exact_sum d place result m same fits = ap (λ x. (result + x * place) % 2 ^ 64) same ∙ omega arith

last_digit :
    (d shift result : ℕ) (s : Text)
    → d < 32
    → result + d * 2 ^ shift < 2 ^ 64
    → decode_from shift result (get_or base64_chars d 0 ∷ s)
      ≡ ok (finish (result + d * 2 ^ shift)) s
unfolding decode_from
last_digit d shift result s h fits =
    ap (decode_digit (λ r. decode_from (shift + 5) r s) shift result (get_or base64_chars d 0) s)
      (base64_decode_digit d (omega arith))
    ∙ rw (exact_sum d (2 ^ shift) result (d % 32) (omega arith) fits) (ground arith)

next_digit :
    (d shift result : ℕ) (s : Text)
    → d < 32
    → result + d * 2 ^ shift < 2 ^ 64
    → decode_from shift result (get_or base64_chars (32 + d) 0 ∷ s)
      ≡ decode_from (shift + 5) (result + d * 2 ^ shift) s
unfolding decode_from
next_digit d shift result s h fits =
    ap
      (decode_digit (λ r. decode_from (shift + 5) r s) shift result (get_or base64_chars (32 + d) 0)
        s)
      (base64_decode_digit (32 + d) (omega arith))
    ∙ rw (exact_sum d (2 ^ shift) result ((32 + d) % 32) (omega arith) fits) (ground arith)

decode_from-vlq_digits :
    (more n shift result : ℕ) (rest : Text)
    → n < 32 ^ (more + 1)
    → result + n * 2 ^ shift < 2 ^ 64
    → decode_from shift result (vlq_digits more n ++ rest)
      ≡ ok (finish (result + n * 2 ^ shift)) rest
unfolding vlq_digits
decode_from-vlq_digits zero n shift result rest small fits =
    ground (arith, last_digit n shift result rest)
decode_from-vlq_digits (suc more) n shift result rest small fits = elim (Bool-cases (ltb n 32)) [
  | inl one ↦ rw one (last_digit n shift result rest (ltb→lt n 32 one) fits)
  | inr several ↦
      let whole = first_digit n shift in
      let bound : 32 ^ (suc more + 1) ≡ 32 ^ (more + 1) * 32 =
        ap (λ m. 32 ^ m) (omega arith) ∙ pow-suc 32 (more + 1) in
      rw several (
        next_digit (n % 32) shift result (vlq_digits more (n / 32) ++ rest) (omega arith)
          (omega (arith, whole))
        ∙ decode_from-vlq_digits more (n / 32) (shift + 5) (result + n % 32 * 2 ^ shift) rest
            (omega (arith, bound)) (omega (arith, whole))
        ∙ ap (λ m. ok (finish m) rest) (omega (arith, whole)))
]

finish-vlq_number : (z : ℤ) → pos_part z + neg_part z < 2 ^ 62 → finish (vlq_number z) ≡ z
unfolding finish vlq_number
finish-vlq_number (pos n) h = ground arith
finish-vlq_number (negsuc n) h = ground arith

vlq_number_bound : (z : ℤ) → vlq_number z ≤ 2 * (pos_part z + neg_part z) + 1
unfolding vlq_number
vlq_number_bound (pos n) = omega arith
vlq_number_bound (negsuc n) = omega arith

-- An integer below 2 ^ 62 in size is read back from its encoding, and the text behind it is left,
-- whatever it is.
pub decode_vlq-encode_vlq :
    (z : ℤ) (rest : Text)
    → pos_part z + neg_part z < 2 ^ 62
    → decode_vlq (encode_vlq z ++ rest) ≡ ok z rest
unfolding decode_vlq encode_vlq
decode_vlq-encode_vlq z rest small =
    decode_from-vlq_digits 12 (vlq_number z) 0 0 rest (omega (arith, vlq_number_bound z))
      (omega (arith, vlq_number_bound z))
    ∙ ap (λ w. ok w rest)
        (ap finish {x = 0 + vlq_number z * 2 ^ 0} {y = vlq_number z} (omega arith)
          ∙ finish-vlq_number z (omega arith))

-- No digit is `,` or `;`.
is_digit : ℕ → Bool
is_digit c = not (c == 44) && not (c == 59)

digits_apart : all_below 64 (λ d. is_digit (get_or base64_chars d 0)) ≡ true
unfolding all_below is_digit
digits_apart = refl

digit-Lacks :
    (d : ℕ)
    → d < 64
    → ((get_or base64_chars d 0 == 44) ≡ false) × ((get_or base64_chars d 0 == 59) ≡ false)
unfolding is_digit
digit-Lacks d h =
    ground (arith, all_below_sound 64 (λ d. is_digit (get_or base64_chars d 0)) d digits_apart h)

-- the separators of segments and of lines do not occur in the text
abbrev pub LacksSeparators : Text → Type 0
LacksSeparators s = Lacks 44 s × Lacks 59 s

vlq_digits-LacksSeparators : (more n : ℕ) → LacksSeparators (vlq_digits more n)
unfolding vlq_digits
vlq_digits-LacksSeparators zero n =
    let d = digit-Lacks (n % 32) (omega arith) in ((d.0, tt), (d.1, tt))
vlq_digits-LacksSeparators (suc more) n = elim (Bool-cases (ltb n 32)) [
  | inl one ↦
      let d = digit-Lacks n (omega (arith, ltb→lt n 32 one)) in rw one ((d.0, tt), (d.1, tt))
  | inr several ↦
      let d = digit-Lacks (32 + n % 32) (omega arith) in
      let later = vlq_digits-LacksSeparators more (n / 32) in
      rw several ((d.0, later.0), (d.1, later.1))
]

pub encode_vlq-LacksSeparators : (z : ℤ) → LacksSeparators (encode_vlq z)
unfolding encode_vlq
encode_vlq-LacksSeparators z = vlq_digits-LacksSeparators 12 (vlq_number z)

vlq_digits-cons : (more n : ℕ) → (c : ℕ) × (s : Text) × (vlq_digits more n ≡ c ∷ s)
unfolding vlq_digits
vlq_digits-cons zero n = (get_or base64_chars (n % 32) 0, [], refl)
vlq_digits-cons (suc more) n = elim (Bool-cases (ltb n 32)) [
  | inl one ↦ (get_or base64_chars n 0, [], rw one refl)
  | inr several ↦ (get_or base64_chars (32 + n % 32) 0, vlq_digits more (n / 32), rw several refl)
]

-- an encoding has a byte at least
pub encode_vlq-cons : (z : ℤ) → (c : ℕ) × (s : Text) × (encode_vlq z ≡ c ∷ s)
unfolding encode_vlq
encode_vlq-cons z = vlq_digits-cons 12 (vlq_number z)
