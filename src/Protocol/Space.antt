-- ===== src/Protocol/Space.antt =====
-- The white space of `bytes.TrimSpace` and `strings.TrimSpace`, as far as it is ASCII; the white
-- space beyond ASCII is not modelled.
use trackdown.Prelude.{ℕ, Text, Bool, ◌||◌, [], ◌∷◌, ◌==◌, if◌then◌else◌}

unfoldable pub is_space : ℕ → Bool
is_space c = c == 9 || c == 10 || c == 11 || c == 12 || c == 13 || c == 32

unfoldable pub trim_left : Text → Text
trim_left [] = []
trim_left (c ∷ cs) = let rest = trim_left cs in if is_space c then rest else c ∷ cs

unfoldable pub trim_right : Text → Text
trim_right [] = []
trim_right (c ∷ cs) =
    let rest = trim_right cs in
    elim rest [ [] ↦ (if is_space c then [] else c ∷ []) | d ∷ ds ↦ c ∷ d ∷ ds ]

unfoldable pub trim_space : Text → Text
unfolding trim_left trim_right
trim_space s = trim_right (trim_left s)
