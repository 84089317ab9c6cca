-- ===== src/Prelude/Rows.antt =====
-- Tables as lists of rows in insertion order, with the queries that the services make.
use Prim.Native.Nat.{ℕ}
use mathlib.Core.Path.{◌≡◌, refl, subst}
use mathlib.Core.Logic.{◌⊎◌, inl, inr}
use alice_uprm.Prelude.Lists.{All, All-imp}
use native.Mathlib.Omega.{arith}
use alice_uprm.Prelude.Tests.{Bool-cases}
use mathlib.Core.Bool.{Bool, true, false, ◌||◌}
use mathlib.Core.Option.{Option, none, some}
use mathlib.Core.List.{List, [], ◌∷◌, ◌++◌}
use alice_uprm.Prelude.Tests.{◌==◌, if◌then◌else◌}
use alice_uprm.Prelude.Int.{ℤ, pos, ◌+ℤ◌, int_laws}

module _ {ℓ} {A : Type ℓ} where
  -- `findFirst`, `findUnique`, `Array.find`
  abbrev pub find : (A → Bool) → List A → Option A
  find p [] = none
  find p (x ∷ xs) = if p x then some x else find p xs

  -- `findMany`, `Array.filter`
  abbrev pub filter : (A → Bool) → List A → List A
  filter p [] = []
  filter p (x ∷ xs) = if p x then x ∷ filter p xs else filter p xs

  -- `update` and `updateMany`
  abbrev pub update_where : (A → Bool) → (A → A) → List A → List A
  update_where p f [] = []
  update_where p f (x ∷ xs) = (if p x then f x else x) ∷ update_where p f xs

  abbrev pub any : (A → Bool) → List A → Bool
  any p [] = false
  any p (x ∷ xs) = p x || any p xs

  -- `aggregate({_sum})`, where no row sums to 0
  unfoldable pub sum_by : (A → ℤ) → List A → ℤ
  sum_by f [] = pos 0
  sum_by f (x ∷ xs) = f x +ℤ sum_by f xs

  pub sum_by-append :
      (f : A → ℤ) (xs ys : List A) → sum_by f (xs ++ ys) ≡ sum_by f xs +ℤ sum_by f ys
  unfolding sum_by
  sum_by-append f [] ys = omega int_laws
  sum_by-append f (x ∷ xs) ys = rw (sum_by-append f xs ys) (omega int_laws)

-- `{ in: ids }`
abbrev pub member : ℕ → List ℕ → Bool
member i [] = false
member i (j ∷ js) = i == j || member i js

module _ {ℓ} {A : Type ℓ} where
  pub filter-append :
      (p : A → Bool) (xs ys : List A) → filter p (xs ++ ys) ≡ filter p xs ++ filter p ys
  filter-append p [] ys = refl
  filter-append p (x ∷ xs) ys = ground (arith, filter-append p xs ys)

  -- A sum over selected rows splits as the table does.
  pub sum_where-append :
      (f : A → ℤ) (p : A → Bool) (xs ys : List A)
      → sum_by f (filter p (xs ++ ys)) ≡ sum_by f (filter p xs) +ℤ sum_by f (filter p ys)
  sum_where-append f p xs ys =
      rw (filter-append p xs ys) (sum_by-append f (filter p xs) (filter p ys))

  pub find-append_some :
      (p : A → Bool) (xs ys : List A) (a : A) → find p xs ≡ some a → find p (xs ++ ys) ≡ some a
  find-append_some p [] ys a h = cc
  find-append_some p (x ∷ xs) ys a h = ground (arith, find-append_some p xs ys a)

  pub find-append_none :
      (p : A → Bool) (xs ys : List A) → find p xs ≡ none → find p (xs ++ ys) ≡ find p ys
  find-append_none p [] ys h = refl
  find-append_none p (x ∷ xs) ys h = ground (arith, find-append_none p xs ys)

  -- What `find` returns passes the test.
  pub find-passes : (p : A → Bool) (xs : List A) (a : A) → find p xs ≡ some a → p a ≡ true
  find-passes p [] a h = cc
  find-passes p (x ∷ xs) a h = elim (Bool-cases (p x)) [
    | inl here ↦ ground arith
    | inr there ↦ find-passes p xs a (rw there at h)
  ]

  -- What `find` returns has every property that all rows have.
  pub find-All {κ} :
      (P : A → Type κ) (p : A → Bool) (xs : List A) (a : A) → All P xs → find p xs ≡ some a → P a
  find-All P p [] a h e = cc
  find-All P p (x ∷ xs) a h e = elim (Bool-cases (p x)) [
    | inl here ↦ let q : some x ≡ some a = rw here at e in let r : x ≡ a = cc in subst P r h.0
    | inr there ↦ find-All P p xs a h.1 (rw there at e)
  ]

  -- A row found among the selected rows is the row found among all.
  pub find-filter :
      (p q : A → Bool) (xs : List A)
      → ((x : A) → p x ≡ true → q x ≡ true)
      → find p (filter q xs) ≡ find p xs
  find-filter p q [] h = refl
  find-filter p q (x ∷ xs) h = ground (arith, h x, find-filter p q xs h)

module _ {ℓ} {A : Type ℓ} where
  -- A sum over selected rows, as a sum over all.
  pub sum_where :
      (f : A → ℤ) (p : A → Bool) (xs : List A)
      → sum_by f (filter p xs) ≡ sum_by (λ x. if p x then f x else pos 0) xs
  unfolding sum_by
  sum_where f p [] = refl
  sum_where f p (x ∷ xs) = elim (Bool-cases (p x)) [
    | inl kept ↦ rw (kept, sum_where f p xs)
    | inr dropped ↦ rw (dropped, sum_where f p xs) (omega int_laws)
  ]

  pub All-filter {κ} :
      (P : A → Type κ) (p : A → Bool) (xs : List A)
      → All (λ x. p x ≡ true → P x) xs
      → All P (filter p xs)
  All-filter P p [] h = tt
  All-filter P p (x ∷ xs) h = elim (Bool-cases (p x)) [
    | inl kept ↦ rw kept (h.0 kept, All-filter P p xs h.1)
    | inr dropped ↦ rw dropped (All-filter P p xs h.1)
  ]

module _ {ℓ} {A : Type ℓ} where
  pub any-append : (p : A → Bool) (xs ys : List A) → any p (xs ++ ys) ≡ (any p xs || any p ys)
  any-append p [] ys = refl
  any-append p (x ∷ xs) ys = ground (arith, any-append p xs ys)

  -- Selecting rows by a test that `p` implies does not change whether a row passes `p`.
  pub any-filter :
      (p q : A → Bool) (xs : List A)
      → ((x : A) → p x ≡ true → q x ≡ true)
      → any p (filter q xs) ≡ any p xs
  any-filter p q [] h = refl
  any-filter p q (x ∷ xs) h = ground (arith, h x, any-filter p q xs h)

  pub any-filter-false :
      (p q : A → Bool) (xs : List A) → any p xs ≡ false → any p (filter q xs) ≡ false
  any-filter-false p q [] h = refl
  any-filter-false p q (x ∷ xs) h = ground (arith, any-filter-false p q xs)

  pub any-All : (p : A → Bool) (xs : List A) → any p xs ≡ false → All (λ x. p x ≡ false) xs
  any-All p [] h = tt
  any-All p (x ∷ xs) h = (ground arith, any-All p xs (ground arith))

  pub All-any : (p : A → Bool) (xs : List A) → All (λ x. p x ≡ false) xs → any p xs ≡ false
  All-any p [] h = refl
  All-any p (x ∷ xs) h = rw (h.0, All-any p xs h.1) refl

  -- A row that passes `p` passes `q`.
  pub any-imp :
      (p q : A → Bool) (xs : List A)
      → ((x : A) → p x ≡ true → q x ≡ true)
      → any p xs ≡ true
      → any q xs ≡ true
  any-imp p q [] h k = cc
  any-imp p q (x ∷ xs) h k = ground (arith, h x, any-imp p q xs h)

  pub any-imp_false :
      (p q : A → Bool) (xs : List A)
      → ((x : A) → p x ≡ true → q x ≡ true)
      → any q xs ≡ false
      → any p xs ≡ false
  any-imp_false p q [] h k = refl
  any-imp_false p q (x ∷ xs) h k = ground (arith, h x, any-imp_false p q xs h)

  pub filter-All : (p : A → Bool) (xs : List A) → All (λ x. p x ≡ true) xs → filter p xs ≡ xs
  filter-All p [] h = refl
  filter-All p (x ∷ xs) h = rw (h.0, filter-All p xs h.1) refl

  pub find-any : (p : A → Bool) (xs : List A) → find p xs ≡ none → any p xs ≡ false
  find-any p [] h = refl
  find-any p (x ∷ xs) h = elim (Bool-cases (p x)) [
    | inl here ↦ let hit : some x ≡ none = rw here at h in cc
    | inr there ↦ rw there (find-any p xs (rw there at h))
  ]

  -- What passes `q` after an update did so before.
  pub any-update_where-false :
      (q p : A → Bool) (f : A → A) (xs : List A)
      → All (λ x. p x ≡ true → q (f x) ≡ true → q x ≡ true) xs
      → any q xs ≡ false
      → any q (update_where p f xs) ≡ false
  any-update_where-false q p f [] h k = refl
  any-update_where-false q p f (x ∷ xs) h k =
      ground (arith, h.0, any-update_where-false q p f xs h.1)

  -- An update does not change which row is found, when the test does not see it.
  pub find-update_where :
      (q p : A → Bool) (f : A → A) (xs : List A) (a : A)
      → ((x : A) → q (f x) ≡ q x)
      → find q xs ≡ some a
      → find q (update_where p f xs) ≡ some (if p a then f a else a)
  find-update_where q p f [] a h found = cc
  find-update_where q p f (x ∷ xs) a h found = elim (Bool-cases (q x)) [
    | inl here ↦
        let hit : some x ≡ some a = rw here at found in
        let row : x ≡ a = cc in
        let same : q (if p x then f x else x) ≡ q x = ground (arith, h x) in
        rw (same, here, row) refl
    | inr there ↦
        let same : q (if p x then f x else x) ≡ q x = ground (arith, h x) in
        rw (same, there) (find-update_where q p f xs a h (rw there at found))
  ]

  -- An update that `p` does not see.
  pub any-update_where :
      (p q : A → Bool) (f : A → A) (xs : List A)
      → ((x : A) → p (f x) ≡ p x)
      → any p (update_where q f xs) ≡ any p xs
  any-update_where p q f [] h = refl
  any-update_where p q f (x ∷ xs) h = ground (arith, h x, any-update_where p q f xs h)

  pub All-update_where {κ} :
      (P : A → Type κ) (q : A → Bool) (f : A → A) (xs : List A)
      → ((x : A) → P x → P (f x))
      → All P xs
      → All P (update_where q f xs)
  All-update_where P q f [] k h = tt
  All-update_where P q f (x ∷ xs) k h = (
    elim (Bool-cases (q x)) [ inl hit ↦ rw hit (k x h.0) | inr miss ↦ rw miss h.0 ],
    All-update_where P q f xs k h.1,
  )

-- The row stands in the table.
abbrev pub Has : {A : Type 0} → A → List A → Type 0
Has x [] = ⊥
Has x (y ∷ ys) = (x ≡ y) ⊎ Has x ys

pub All-Has : {A : Type 0} (xs : List A) → All (λ x. Has x xs) xs
All-Has [] = tt
All-Has (x ∷ xs) =
    (inl refl, All-imp (λ y. Has y xs) (λ y. Has y (x ∷ xs)) xs (λ y h. inr h) (All-Has xs))
