-- ===== src/Prelude/Rows.antt =====
-- Properties of all rows of a table, and of all pairs of rows, under insertion, update and deletion.
use Prim.Native.Nat.{ℕ, zero, suc}
use mathlib.Core.Path.{◌≡◌, subst}
use mathlib.Core.Logic.{inl, inr}
use mathlib.Core.Bool.{Bool, true, false}
use mathlib.Core.Option.{some}
use mathlib.Core.List.{List, [], ◌∷◌, ◌++◌}
use native.Mathlib.Omega.{arith}
use trackdown.Prelude.Tests.{Bool-cases}
use trackdown.Prelude.Lists.{All, take}
use trackdown.Prelude.Query.{
  filter, find, update, insert_sorted, order_by, All-insert_sorted, All-order_by,
}

module _ {ℓ κ} {A : Type ℓ} (P : A → Type κ) (p : A → Bool) where
  pub All-append : (xs ys : List A) → All P xs → All P ys → All P (xs ++ ys)
  All-append [] ys h k = k
  All-append (x ∷ xs) ys h k = (h.0, All-append xs ys h.1 k)

  pub All-filter : (xs : List A) → All P xs → All P (filter p xs)
  unfolding filter
  All-filter [] h = tt
  All-filter (x ∷ xs) h = elim (Bool-cases (p x)) [
    | inl e ↦ rw e (h.0, All-filter xs h.1)
    | inr e ↦ rw e (All-filter xs h.1)
  ]

  pub All-find : (xs : List A) {x : A} → All P xs → find p xs ≡ some x → P x
  unfolding find
  All-find [] h e = cc
  All-find (y ∷ xs) {x} h e = elim (Bool-cases (p y)) [
    | inl t ↦ subst P (ground arith) h.0
    | inr t ↦ All-find xs h.1 (rw t at e)
  ]

module _ {ℓ κ} {A : Type ℓ} where
  pub All-map {μ} :
      {P : A → Type κ} {Q : A → Type μ} (xs : List A) → ((x : A) → P x → Q x) → All P xs → All Q xs
  All-map [] f h = tt
  All-map (x ∷ xs) f h = (f x h.0, All-map xs f h.1)

  pub All-update {μ} :
      {P : A → Type κ} {Q : A → Type μ} (p : A → Bool) (f : A → A) (xs : List A)
      → ((x : A) → p x ≡ true → P x → Q (f x))
      → ((x : A) → p x ≡ false → P x → Q x)
      → All P xs
      → All Q (update p f xs)
  unfolding update
  All-update p f [] hit miss h = tt
  All-update p f (x ∷ xs) hit miss h = elim (Bool-cases (p x)) [
    | inl e ↦ rw e (hit x e h.0, All-update p f xs hit miss h.1)
    | inr e ↦ rw e (miss x e h.0, All-update p f xs hit miss h.1)
  ]

  pub All-both {μ} :
      (P : A → Type κ) (Q : A → Type μ) (xs : List A)
      → All P xs
      → All Q xs
      → All (λ x. P x × Q x) xs
  All-both P Q [] h k = tt
  All-both P Q (x ∷ xs) h k = ((h.0, k.0), All-both P Q xs h.1 k.1)

module _ {ℓ} {A : Type ℓ} (R : A → A → Type 0) where
  -- every row is related to all that follow it
  abbrev pub Pairs : List A → Type 0
  Pairs [] = Unit
  Pairs (x ∷ xs) = All (R x) xs × Pairs xs

  pub Pairs-append : (xs : List A) (y : A) → Pairs xs → All (λ x. R x y) xs → Pairs (xs ++ y ∷ [])
  Pairs-append [] y h k = (tt, tt)
  Pairs-append (x ∷ xs) y h k =
      (All-append (R x) (λ _. true) xs (y ∷ []) h.0 (k.0, tt), Pairs-append xs y h.1 k.1)

  pub Pairs-filter : (p : A → Bool) (xs : List A) → Pairs xs → Pairs (filter p xs)
  unfolding filter
  Pairs-filter p [] h = tt
  Pairs-filter p (x ∷ xs) h = elim (Bool-cases (p x)) [
    | inl e ↦ rw e (All-filter (R x) p xs h.0, Pairs-filter p xs h.1)
    | inr e ↦ rw e (Pairs-filter p xs h.1)
  ]

  pub Pairs-update :
      (p : A → Bool) (f : A → A) (xs : List A)
      → ((x y : A) → R x y → R (f x) y)
      → ((x y : A) → R x y → R x (f y))
      → Pairs xs
      → Pairs (update p f xs)
  unfolding update
  Pairs-update p f [] left right h = tt
  Pairs-update p f (x ∷ xs) left right h = elim (Bool-cases (p x)) [
    | inl e ↦ rw e (
      All-update p f xs (λ y _ r. left x (f y) (right x y r)) (λ y _ r. left x y r) h.0,
      Pairs-update p f xs left right h.1,
    )
    | inr e ↦ rw e (
      All-update p f xs (λ y _ r. right x y r) (λ y _ r. r) h.0,
      Pairs-update p f xs left right h.1,
    )
  ]

module _ {ℓ κ} {A : Type ℓ} (P : A → Type κ) where
  pub All-take : (n : ℕ) (xs : List A) → All P xs → All P (take n xs)
  All-take zero xs h = tt
  All-take (suc n) [] h = tt
  All-take (suc n) (x ∷ xs) h = (h.0, All-take n xs h.1)

module _ {ℓ} {A : Type ℓ} (R : A → A → Type 0) where
  pub Pairs-take : (n : ℕ) (xs : List A) → Pairs R xs → Pairs R (take n xs)
  Pairs-take zero xs h = tt
  Pairs-take (suc n) [] h = tt
  Pairs-take (suc n) (x ∷ xs) h = (All-take (R x) n xs h.0, Pairs-take n xs h.1)

  module _ (le : A → A → Bool) (symm : (x y : A) → R x y → R y x) where
    Pairs-insert_sorted :
        (x : A) (xs : List A) → All (R x) xs → Pairs R xs → Pairs R (insert_sorted le x xs)
    unfolding insert_sorted
    Pairs-insert_sorted x [] h k = (tt, tt)
    Pairs-insert_sorted x (y ∷ ys) h k = elim (Bool-cases (le x y)) [
      | inl e ↦ rw e (h, k)
      | inr e ↦
          rw e
            (All-insert_sorted le (R y) x ys (symm x y h.0) k.0, Pairs-insert_sorted x ys h.1 k.1)
    ]

    pub Pairs-order_by : (xs : List A) → Pairs R xs → Pairs R (order_by le xs)
    unfolding order_by
    Pairs-order_by [] h = tt
    Pairs-order_by (x ∷ xs) h =
        Pairs-insert_sorted x (order_by le xs) (All-order_by le (R x) xs h.0)
          (Pairs-order_by xs h.1)
