-- ===== src/Prelude/Decimal.antt =====
-- `%d` of fmt and `strings.Join`.
use Prim.Native.Nat.{ℕ, zero, suc, ◌+◌, ◌/◌, ◌%◌}
use mathlib.Core.List.{List, [], ◌∷◌, ◌++◌}
use trackdown.Prelude.Tests.{if◌then◌else◌, ltb}
use trackdown.Prelude.Strings.{Text}
use trackdown.Prelude.Int.{ℤ, pos, negsuc}

-- A round for each digit but the first: a number has no more rounds than its size.
unfoldable pub digits : ℕ → ℕ → Text
digits zero n = []
digits (suc fuel) n =
    let higher = digits fuel (n / 10) in
    if ltb n 10 then (48 + n) ∷ [] else higher ++ (48 + n % 10) ∷ []

unfoldable pub decimal : ℕ → Text
unfolding digits
decimal n = digits (suc n) n

unfoldable pub signed_decimal : ℤ → Text
unfolding decimal
signed_decimal (pos n) = decimal n
signed_decimal (negsuc n) = 45 ∷ decimal (suc n)

-- `strings.Join`
abbrev pub join_text : Text → List Text → Text
join_text sep [] = []
join_text sep (s ∷ []) = s
join_text sep (s ∷ t ∷ ss) = s ++ sep ++ join_text sep (t ∷ ss)
