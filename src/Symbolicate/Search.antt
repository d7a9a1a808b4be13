-- ===== src/Symbolicate/Search.antt =====
-- `sort.Search`, as `Resolve` of sourcemap.go uses it.
use trackdown.Prelude.{
  ℕ, zero, suc, ◌+◌, ◌-◌, ◌/◌, ◌≤◌, ◌<◌, ◌≡◌, Bool, true, false, if◌then◌else◌, ltb, arith,
  Bool-cases, inl, inr,
}

-- The loop, with the interval [i, j) that is left. One half of it goes in each round.
unfoldable pub search_from : ℕ → (ℕ → Bool) → ℕ → ℕ → ℕ
search_from zero f i j = i
search_from (suc fuel) f i j =
    let h = (i + j) / 2 in
    let left = search_from fuel f i h in
    let right = search_from fuel f (h + 1) j in if ltb i j then if f h then left else right else i

-- the smallest index below `n` at which `f` holds, or else `n`
unfoldable pub sort_search : ℕ → (ℕ → Bool) → ℕ
unfolding search_from
sort_search n f = search_from n f 0 n

-- `f` is false below `r`, and true from there on
abbrev pub Splits : (ℕ → Bool) → ℕ → Type 0
Splits f r = ((k : ℕ) → k < r → f k ≡ false) × ((k : ℕ) → r ≤ k → f k ≡ true)

module _ (f : ℕ → Bool) (mono : (a b : ℕ) → a ≤ b → f a ≡ true → f b ≡ true) where
  below : (h k : ℕ) → f h ≡ false → k ≤ h → f k ≡ false
  below h k no_h le = elim (Bool-cases (f k)) [
    | inl true_k ↦ ground (arith, mono k h le true_k)
    | inr false_k ↦ false_k
  ]

  search_from-Splits :
      (fuel i j : ℕ)
      → i ≤ j
      → j - i ≤ fuel
      → ((k : ℕ) → k < i → f k ≡ false)
      → ((k : ℕ) → j ≤ k → f k ≡ true)
      → Splits f (search_from fuel f i j)
  unfolding search_from
  search_from-Splits zero i j le enough lo hi = (lo, λ k h. hi k (omega arith))
  search_from-Splits (suc fuel) i j le enough lo hi = elim (Bool-cases (ltb i j)) [
    | inr done ↦ rw done (lo, λ k h. hi k (ground arith))
    | inl more ↦ rw more (elim (Bool-cases (f ((i + j) / 2))) [
      | inl yes_h ↦ rw yes_h (
          search_from-Splits fuel i ((i + j) / 2) (ground arith) (ground arith) lo
            (λ k h. mono ((i + j) / 2) k h yes_h))
      | inr no_h ↦ rw no_h (
          search_from-Splits fuel ((i + j) / 2 + 1) j (ground arith) (ground arith)
            (λ k h. below ((i + j) / 2) k no_h (omega arith)) hi)
    ])
  ]

  pub sort_search-Splits : (n : ℕ) → ((k : ℕ) → n ≤ k → f k ≡ true) → Splits f (sort_search n f)
  unfolding sort_search
  sort_search-Splits n hi =
      search_from-Splits n 0 n (omega arith) (omega arith) (λ k h. absurd (omega arith)) hi
