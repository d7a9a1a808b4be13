-- ===== src/Prelude/Split.antt =====
-- `strings.Split` and `strings.Join` at a separator of one byte.
use Prim.Native.Nat.{ℕ}
use mathlib.Core.Path.{◌≡◌, refl, ap, ◌∙◌}
use mathlib.Core.Bool.{false}
use mathlib.Core.List.{List, [], ◌∷◌, ◌++◌}
use native.Mathlib.Omega.{arith}
use trackdown.Prelude.Tests.{◌==◌, if◌then◌else◌}
use trackdown.Prelude.Lists.{All}
use trackdown.Prelude.Strings.{Text}

-- a byte before the first part
abbrev pub prefix_first : ℕ → List Text → List Text
prefix_first c [] = (c ∷ []) ∷ []
prefix_first c (p ∷ ps) = (c ∷ p) ∷ ps

-- `strings.Split`: there is always a part, the empty one for the empty text
unfoldable pub split : Text → ℕ → List Text
split [] sep = [] ∷ []
split (c ∷ s) sep = let parts = split s sep in if c == sep then [] ∷ parts else prefix_first c parts

-- `strings.Join`
unfoldable pub join : List Text → ℕ → Text
join [] sep = []
join (p ∷ []) sep = p
join (p ∷ q ∷ ps) sep = p ++ sep ∷ join (q ∷ ps) sep

-- no byte of the text is the separator
abbrev pub Lacks : ℕ → Text → Type 0
Lacks sep p = All (λ c. (c == sep) ≡ false) p

split_part : (p : Text) (sep : ℕ) → Lacks sep p → split p sep ≡ p ∷ []
unfolding split
split_part [] sep h = refl
split_part (c ∷ p) sep h = rw (h.0, split_part p sep h.1) refl

split_first :
    (p rest : Text) (sep : ℕ) → Lacks sep p → split (p ++ sep ∷ rest) sep ≡ p ∷ split rest sep
unfolding split
split_first [] rest sep h = ground arith
split_first (c ∷ p) rest sep h = rw (h.0, split_first p rest sep h.1) refl

-- Splitting a join gives the parts back, if there is a part and none holds the separator.
pub split-join :
    (p : Text) (ps : List Text) (sep : ℕ)
    → All (Lacks sep) (p ∷ ps)
    → split (join (p ∷ ps) sep) sep ≡ p ∷ ps
unfolding join
split-join p [] sep h = split_part p sep h.0
split-join p (q ∷ ps) sep h =
    split_first p (join (q ∷ ps) sep) sep h.0 ∙ ap (λ xs. p ∷ xs) (split-join q ps sep h.1)
