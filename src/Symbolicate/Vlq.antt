-- ===== src/Symbolicate/Vlq.antt =====
-- `decodeVLQ` of sourcemap.go: integers as base-64 digits of five bits, the lowest first.
pub mod RoundTrip
use trackdown.Prelude.{
  ℕ, suc, ◌+◌, ◌-◌, ◌*◌, ◌/◌, ◌%◌, ◌^◌, Text, codes, Bool, true, false, Option, none, some, List,
  [], ◌∷◌, if◌then◌else◌, ltb, ◌==◌, ℤ,
}
use trackdown.Prelude.Int64.{signed, shift_right, negate}

-- `base64Chars`
abbrev pub base64_chars : Text
base64_chars = codes "ABCDEFGHIJKLMNOPQRSTUVWXYZabcdefghijklmnopqrstuvwxyz0123456789+/"

unfoldable pub index_from : ℕ → ℕ → Text → Option ℕ
index_from i c [] = none
index_from i c (x ∷ xs) = let later = index_from (i + 1) c xs in if x == c then some i else later

-- `base64Decode`, as `init` fills it: the place of a character in the alphabet
unfoldable pub base64_decode : ℕ → Option ℕ
unfolding index_from
base64_decode c = index_from 0 c base64_chars

pub data VlqError : Type 0 where
  invalid_character : ℕ → VlqError
  truncated : VlqError

-- What `decodeVLQ` returns: the value and what is left of the text, or an error.
pub data VlqResult : Type 0 where
  ok : ℤ → Text → VlqResult
  err : VlqError → VlqResult

-- the last steps, on the pattern of `result`: the lowest bit is the sign
unfoldable pub finish : ℕ → ℤ
unfolding signed shift_right negate
finish result =
    let magnitude = shift_right result in
    if result % 2 == 1 then signed (negate magnitude) else signed magnitude

-- a round of the loop, with what the later rounds make of `result`
abbrev pub decode_digit : (ℕ → VlqResult) → ℕ → ℕ → ℕ → Text → Option ℕ → VlqResult
decode_digit later shift result c s none = err (invalid_character c)
decode_digit later shift result c s (some digit) =
    let result' = (result + digit % 32 * 2 ^ shift) % 2 ^ 64 in
    if ltb digit 32 then ok (finish result') s else later result'

-- The loop of `decodeVLQ`, on the pattern of `result`. `digit & 0x1f` is the remainder by 32, and
-- `digit & 0x20` is not zero from 32 on.
unfoldable pub decode_from : ℕ → ℕ → Text → VlqResult
unfolding finish
decode_from shift result [] = err truncated
decode_from shift result (c ∷ s) =
    decode_digit (λ r. decode_from (shift + 5) r s) shift result c s (base64_decode c)

-- `decodeVLQ`
unfoldable pub decode_vlq : Text → VlqResult
unfolding decode_from
decode_vlq s = decode_from 0 0 s
