-- ===== src/Prelude/Int64.antt =====
-- Go's 64-bit `int`: an integer, or the pattern of its bits, a number below 2 ^ 64.
use trackdown.Prelude.{
  ℕ, ◌+◌, ◌-◌, ◌/◌, ◌%◌, ◌^◌, ◌<◌, ◌≡◌, arith, if◌then◌else◌, ltb, ℤ, pos, negsuc, ◌+ℤ◌, ◌-ℤ◌, ◌*ℤ◌,
  pos_part, neg_part,
}

-- the integer that a pattern stands for
unfoldable pub signed : ℕ → ℤ
signed w = if ltb w (2 ^ 63) then pos w else negsuc (2 ^ 64 - w - 1)

-- the pattern of an integer, whose bits beyond 64 are lost
unfoldable pub pattern_of : ℤ → ℕ
pattern_of (pos n) = n % 2 ^ 64
pattern_of (negsuc n) = 2 ^ 64 - 1 - n % 2 ^ 64

-- Go's `+` on `int`
unfoldable pub add : ℤ → ℤ → ℤ
unfolding signed pattern_of ◌+ℤ◌
add a b = signed (pattern_of (a +ℤ b))

-- `x >> 1`, which keeps the sign, on patterns
unfoldable pub shift_right : ℕ → ℕ
shift_right w = if ltb w (2 ^ 63) then w / 2 else w / 2 + 2 ^ 63

-- `-x` on patterns
unfoldable pub negate : ℕ → ℕ
negate w = (2 ^ 64 - w) % 2 ^ 64

-- far from the ends of the range, so that sums and differences of two stay within it
abbrev pub IsSmall : ℤ → Type 0
IsSmall z = pos_part z + neg_part z < 2 ^ 61

pub add-sub : (a b : ℤ) → IsSmall a → IsSmall b → add a (b -ℤ a) ≡ b
unfolding add ◌-ℤ◌
add-sub a b ha hb = ground arith

-- `-x`, of which the least integer is its own
unfoldable pub negation : ℤ → ℤ
unfolding signed pattern_of negate
negation z = signed (negate (pattern_of z))

-- Go's `*` on `int`
unfoldable pub multiply : ℤ → ℕ → ℤ
unfolding signed pattern_of ◌*ℤ◌
multiply a n = signed (pattern_of (a *ℤ n))
