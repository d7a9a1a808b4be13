-- ===== src/Prelude/Query.antt =====
-- What SQL statements do to a table kept as the list of its rows: selection by a Boolean test,
-- update of the rows that pass it, and `ORDER BY` as a stable insertion sort.
use Prim.Native.Nat.{ℕ, suc, ◌+◌}
use mathlib.Core.Path.{◌≡◌, refl, ap, ap₂}
use mathlib.Core.Logic.{inl, inr}
use mathlib.Core.Bool.{Bool, true, false}
use mathlib.Core.Option.{Option, none, some}
use mathlib.Core.List.{List, [], ◌∷◌, ◌++◌, Perm}
use mathlib.Core.List.Perm
use native.Mathlib.Omega.{arith}
use trackdown.Prelude.Tests.{if◌then◌else◌, Bool-cases}
use trackdown.Prelude.Lists.{length, All}

module _ {ℓ} {A : Type ℓ} where
  -- WHERE
  unfoldable pub filter : (A → Bool) → List A → List A
  filter p [] = []
  filter p (x ∷ xs) = let rest = filter p xs in if p x then x ∷ rest else rest

  -- the first row that passes, as `QueryRow` returns it
  unfoldable pub find : (A → Bool) → List A → Option A
  find p [] = none
  find p (x ∷ xs) = if p x then some x else find p xs

  -- UPDATE … SET f WHERE p
  unfoldable pub update : (A → Bool) → (A → A) → List A → List A
  update p f [] = []
  update p f (x ∷ xs) = (if p x then f x else x) ∷ update p f xs

  -- SELECT COUNT(*) … WHERE p
  unfoldable pub count_where : (A → Bool) → List A → ℕ
  count_where p [] = 0
  count_where p (x ∷ xs) = let rest = count_where p xs in if p x then suc rest else rest

  unfoldable pub insert_sorted : (A → A → Bool) → A → List A → List A
  insert_sorted le x [] = x ∷ []
  insert_sorted le x (y ∷ ys) =
      let rest = insert_sorted le x ys in if le x y then x ∷ y ∷ ys else y ∷ rest

  -- ORDER BY le
  unfoldable pub order_by : (A → A → Bool) → List A → List A
  unfolding insert_sorted
  order_by le [] = []
  order_by le (x ∷ xs) = insert_sorted le x (order_by le xs)

  abbrev pub first : List A → Option A
  first [] = none
  first (x ∷ xs) = some x

  -- every row stands before all that follow it
  abbrev pub IsOrdered : (A → A → Bool) → List A → Type ℓ
  IsOrdered le [] = Unit
  IsOrdered le (x ∷ xs) = All (λ y. le x y ≡ true) xs × IsOrdered le xs

module _ {ℓ} {A : Type ℓ} (p : A → Bool) where
  pub find-none : (xs : List A) → find p xs ≡ none → All (λ x. p x ≡ false) xs
  unfolding find
  find-none [] h = tt
  find-none (x ∷ xs) h = elim (Bool-cases (p x)) [
    | inl e ↦ ground (arith, e)
    | inr e ↦ (e, find-none xs (rw e at h))
  ]

  pub find_sound : (xs : List A) {x : A} → find p xs ≡ some x → p x ≡ true
  unfolding find
  find_sound [] h = cc
  find_sound (y ∷ xs) h = elim (Bool-cases (p y)) [
    | inl e ↦ ground (arith, e)
    | inr e ↦ find_sound xs (rw e at h)
  ]

  pub find-append :
      (xs : List A) (x : A)
      → find p (xs ++ x ∷ [])
        ≡ (elim (find p xs) [ none ↦ if p x then some x else none | some y ↦ some y ])
  unfolding find
  find-append [] x = refl
  find-append (y ∷ xs) x = ground (arith, find-append xs x)

  pub find-append_other : (xs : List A) (x : A) → p x ≡ false → find p (xs ++ x ∷ []) ≡ find p xs
  unfolding find
  find-append_other [] x h = rw h
  find-append_other (y ∷ xs) x h = rw (find-append_other xs x h)

  -- an update that keeps the test changes the row found
  pub find-update :
      (f : A → A) (xs : List A)
      → ((x : A) → p (f x) ≡ p x)
      → find p (update p f xs) ≡ (elim (find p xs) [ none ↦ none | some x ↦ some (f x) ])
  unfolding find update
  find-update f [] keep = refl
  find-update f (x ∷ xs) keep = ground (arith, keep x, find-update f xs keep)

  pub filter-append : (xs ys : List A) → filter p (xs ++ ys) ≡ filter p xs ++ filter p ys
  unfolding filter
  filter-append [] ys = refl
  filter-append (x ∷ xs) ys = ground (arith, filter-append xs ys)

  pub length-filter : (xs : List A) → length (filter p xs) ≡ count_where p xs
  unfolding filter count_where
  length-filter [] = refl
  length-filter (x ∷ xs) = ground (arith, length-filter xs)

  pub filter-cons_true : (x : A) (xs : List A) → p x ≡ true → filter p (x ∷ xs) ≡ x ∷ filter p xs
  unfolding filter
  filter-cons_true x xs h = rw h

  pub filter-cons_false : (x : A) (xs : List A) → p x ≡ false → filter p (x ∷ xs) ≡ filter p xs
  unfolding filter
  filter-cons_false x xs h = rw h

  pub filter-All : (xs : List A) → All (λ x. p x ≡ true) (filter p xs)
  unfolding filter
  filter-All [] = tt
  filter-All (x ∷ xs) = elim (Bool-cases (p x)) [
    | inl e ↦ rw e (e, filter-All xs)
    | inr e ↦ rw e (filter-All xs)
  ]

  pub count_where-append :
      (xs ys : List A) → count_where p (xs ++ ys) ≡ count_where p xs + count_where p ys
  unfolding count_where
  count_where-append [] ys = omega arith
  count_where-append (x ∷ xs) ys = ground (arith, count_where-append xs ys)

module _ {ℓ} {A : Type ℓ} (p : A → Bool) (f : A → A) where
  -- an update that writes what is there
  pub update_self : (xs : List A) → ((x : A) → p x ≡ true → f x ≡ x) → update p f xs ≡ xs
  unfolding update
  update_self [] same = refl
  update_self (x ∷ xs) same = elim (Bool-cases (p x)) [
    | inl e ↦ rw e (ap₂ (λ y ys. y ∷ ys) (same x e) (update_self xs same))
    | inr e ↦ rw e (ap (λ ys. x ∷ ys) (update_self xs same))
  ]

module _ {ℓ} {A : Type ℓ} (p q : A → Bool) (f : A → A) where
  -- an update that leaves the rows of another look-up alone
  pub find-update_other :
      (xs : List A)
      → ((x : A) → q (f x) ≡ q x)
      → ((x : A) → q x ≡ true → p x ≡ false)
      → find q (update p f xs) ≡ find q xs
  unfolding find update
  find-update_other [] keep apart = refl
  find-update_other (x ∷ xs) keep apart =
      ground (arith, keep x, apart x, find-update_other xs keep apart)

module _ {ℓ} {A : Type ℓ} (p q : A → Bool) (f : A → A) where
  -- a look-up by one test after an update by another
  pub find-update_by :
      (xs : List A)
      → ((x : A) → q (f x) ≡ q x)
      → find q (update p f xs)
        ≡ (elim (find q xs) [ none ↦ none | some x ↦ some (if p x then f x else x) ])
  unfolding find update
  find-update_by [] keep = refl
  find-update_by (x ∷ xs) keep = ground (arith, keep x, find-update_by xs keep)

module _ {ℓ} {A : Type ℓ} (le : A → A → Bool) where
  insert_sorted-perm : (x : A) (xs : List A) → Perm (insert_sorted le x xs) (x ∷ xs)
  unfolding insert_sorted
  insert_sorted-perm x [] = Perm.refl (x ∷ [])
  insert_sorted-perm x (y ∷ ys) = elim (Bool-cases (le x y)) [
    | inl e ↦ rw e (Perm.refl (x ∷ y ∷ ys))
    | inr e ↦ rw e (Perm.trans (Perm.cons y (insert_sorted-perm x ys)) (Perm.swap x y ys))
  ]

  pub order_by-perm : (xs : List A) → Perm (order_by le xs) xs
  unfolding order_by
  order_by-perm [] = Perm.refl []
  order_by-perm (x ∷ xs) =
      Perm.trans (insert_sorted-perm x (order_by le xs)) (Perm.cons x (order_by-perm xs))

  pub All-insert_sorted {κ} :
      (P : A → Type κ) (x : A) (xs : List A) → P x → All P xs → All P (insert_sorted le x xs)
  unfolding insert_sorted
  All-insert_sorted P x [] h k = (h, tt)
  All-insert_sorted P x (y ∷ ys) h k = elim (Bool-cases (le x y)) [
    | inl e ↦ rw e (h, k)
    | inr e ↦ rw e (k.0, All-insert_sorted P x ys h k.1)
  ]

  pub All-order_by {κ} : (P : A → Type κ) (xs : List A) → All P xs → All P (order_by le xs)
  unfolding order_by
  All-order_by P [] h = tt
  All-order_by P (x ∷ xs) h = All-insert_sorted P x (order_by le xs) h.0 (All-order_by P xs h.1)

  module _ (total : (x y : A) → le x y ≡ false → le y x ≡ true)
      (trans : (x y z : A) → le x y ≡ true → le y z ≡ true → le x z ≡ true) where
    All-le_trans :
        (x y : A) (xs : List A)
        → le x y ≡ true
        → All (λ z. le y z ≡ true) xs
        → All (λ z. le x z ≡ true) xs
    All-le_trans x y [] h k = tt
    All-le_trans x y (z ∷ xs) h k = (trans x y z h k.0, All-le_trans x y xs h k.1)

    insert_sorted-IsOrdered :
        (x : A) (xs : List A) → IsOrdered le xs → IsOrdered le (insert_sorted le x xs)
    unfolding insert_sorted
    insert_sorted-IsOrdered x [] h = (tt, tt)
    insert_sorted-IsOrdered x (y ∷ ys) h = elim (Bool-cases (le x y)) [
      | inl e ↦ rw e ((e, All-le_trans x y ys e h.0), h)
      | inr e ↦ rw e (
        All-insert_sorted (λ z. le y z ≡ true) x ys (total x y e) h.0,
        insert_sorted-IsOrdered x ys h.1,
      )
    ]

    pub order_by-IsOrdered : (xs : List A) → IsOrdered le (order_by le xs)
    unfolding order_by
    order_by-IsOrdered [] = tt
    order_by-IsOrdered (x ∷ xs) = insert_sorted-IsOrdered x (order_by le xs) (order_by-IsOrdered xs)
