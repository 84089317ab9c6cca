-- ===== src/Prelude/Keyed.antt =====
-- Tables with a unique id: what one `update` by id does to lookups, ids and sums.
use Prim.Native.Nat.{ℕ, ◌≤◌, ◌<◌}
use mathlib.Core.Path.{◌≡◌, refl, sym, ◌∙◌}
use mathlib.Core.Logic.{◌≢◌, inl, inr}
use mathlib.Core.Bool.{Bool}
use mathlib.Core.Option.{Option, none, some}
use mathlib.Core.List.{List, [], ◌∷◌, ◌++◌}
use native.Mathlib.Omega.{arith}
use alice_uprm.Prelude.Tests.{◌==◌, if◌then◌else◌, ==_iff, Bool-cases}
use alice_uprm.Prelude.Lists.{All, All-append, All-imp}
use mathlib.Core.Option
use alice_uprm.Prelude.Int.{ℤ, ◌+ℤ◌, int_laws, parts_of_eq}
use alice_uprm.Prelude.Rows.{find, filter, All-filter, update_where, sum_by, find-passes, find-All}

module _ {ℓ} {A : Type ℓ} (id : A → ℕ) where
  -- `findUnique({ where: { id } })`
  abbrev pub by_id : ℕ → List A → Option A
  by_id i xs = find (λ x. id x == i) xs

  -- `update({ where: { id }, data })`
  abbrev pub update_id : ℕ → (A → A) → List A → List A
  update_id i f xs = update_where (λ x. id x == i) f xs

  abbrev pub HasDistinctIds : List A → Type 0
  HasDistinctIds [] = Unit
  HasDistinctIds (x ∷ xs) = All (λ y. id y ≢ id x) xs × HasDistinctIds xs

  abbrev pub HasIdsBelow : ℕ → List A → Type 0
  HasIdsBelow n xs = All (λ x. id x < n) xs

  pub HasIdsBelow-mono : (n m : ℕ) (xs : List A) → n ≤ m → HasIdsBelow n xs → HasIdsBelow m xs
  HasIdsBelow-mono n m xs le h = All-imp (λ x. id x < n) (λ x. id x < m) xs (λ x k. omega arith) h

  pub HasDistinctIds-append :
      (n : ℕ) (x : A) (xs : List A)
      → id x ≡ n
      → HasIdsBelow n xs
      → HasDistinctIds xs
      → HasDistinctIds (xs ++ x ∷ [])
  HasDistinctIds-append n x [] e b d = (tt, tt)
  HasDistinctIds-append n x (y ∷ ys) e b d = (
    All-append (λ z. id z ≢ id y) ys (x ∷ []) d.0 (omega arith, tt),
    HasDistinctIds-append n x ys e b.1 d.1,
  )

  pub by_id-none : (i : ℕ) (xs : List A) → All (λ y. id y ≢ i) xs → by_id i xs ≡ none
  by_id-none i [] h = refl
  by_id-none i (x ∷ xs) h = ground (arith, by_id-none i xs h.1)

  pub by_id-fresh : (n : ℕ) (xs : List A) → HasIdsBelow n xs → by_id n xs ≡ none
  by_id-fresh n xs h =
      by_id-none n xs (All-imp (λ x. id x < n) (λ x. id x ≢ n) xs (λ x k. omega arith) h)

  pub by_id-id : (i : ℕ) (xs : List A) (x : A) → by_id i xs ≡ some x → id x ≡ i
  by_id-id i xs x h = (==_iff (id x) i).0 (find-passes _ xs x h)

  update_id-none :
      (i : ℕ) (f : A → A) (xs : List A) → All (λ y. id y ≢ i) xs → update_id i f xs ≡ xs
  update_id-none i f [] h = refl
  update_id-none i f (x ∷ xs) h = ground (arith, update_id-none i f xs h.1)

  -- A sum over the table moves by what the row's own term moves.
  pub sum_by-update_id :
      (g : A → ℤ) (i : ℕ) (f : A → A) (xs : List A) (x : A)
      → HasDistinctIds xs
      → by_id i xs ≡ some x
      → sum_by g (update_id i f xs) +ℤ g x ≡ sum_by g xs +ℤ g (f x)
  unfolding sum_by
  sum_by-update_id g i f [] x d h = cc
  sum_by-update_id g i f (y ∷ ys) x d h = elim (Bool-cases (id y == i)) [
    | inl here ↦
        let same : id y ≡ i = (==_iff (id y) i).0 here in
        let hit : some y ≡ some x = rw here at h in
        let row : y ≡ x = cc in
        rw (here, update_id-none i f ys (rw same at d.0), row) (omega int_laws)
    | inr there ↦
        let ih = sum_by-update_id g i f ys x d.1 (rw there at h) in
        rw there (omega (int_laws, parts_of_eq _ _ ih))
  ]

  module _ (f : A → A) (keeps : (x : A) → id (f x) ≡ id x) where
    pub by_id-update_id :
        (i j : ℕ) (xs : List A)
        → by_id i (update_id j f xs) ≡ (if i == j then Option.map f (by_id i xs) else by_id i xs)
    by_id-update_id i j [] = ground arith
    by_id-update_id i j (x ∷ xs) = ground (arith, keeps x, by_id-update_id i j xs)

    pub update_where-ids :
        (n : ℕ) (p : A → Bool) (xs : List A)
        → HasIdsBelow n xs
        → HasIdsBelow n (update_where p f xs)
    update_where-ids n p [] h = tt
    update_where-ids n p (x ∷ xs) h = (ground (arith, keeps x), update_where-ids n p xs h.1)

    update_where-ne :
        (k : ℕ) (p : A → Bool) (xs : List A)
        → All (λ y. id y ≢ k) xs
        → All (λ y. id y ≢ k) (update_where p f xs)
    update_where-ne k p [] h = tt
    update_where-ne k p (x ∷ xs) h = (ground (arith, keeps x), update_where-ne k p xs h.1)

    pub update_where-distinct :
        (p : A → Bool) (xs : List A) → HasDistinctIds xs → HasDistinctIds (update_where p f xs)
    update_where-distinct p [] h = tt
    update_where-distinct p (x ∷ xs) h = (
      let same : id (if p x then f x else x) ≡ id x = ground (arith, keeps x) in
          rw same (update_where-ne (id x) p xs h.0),
      update_where-distinct p xs h.1,
    )

module _ {ℓ} {A : Type ℓ} (id : A → ℕ) where
  by_id-later :
      (x : A) (xs : List A)
      → All (λ y. id y ≢ id x) xs
      → (i : ℕ) (y : A) → by_id id i xs ≡ some y
      → by_id id i (x ∷ xs) ≡ some y
  by_id-later x xs d i y h = elim (Bool-cases (id x == i)) [
    | inl here ↦ absurd (
        find-All (λ z. id z ≢ id x) _ xs y d h
          (by_id-id id i xs y h ∙ sym ((==_iff (id x) i).0 here)))
    | inr there ↦ rw there h
  ]

  -- With distinct ids, each row is found under its id.
  pub by_id_self : (xs : List A) → HasDistinctIds id xs → All (λ x. by_id id (id x) xs ≡ some x) xs
  by_id_self [] h = tt
  by_id_self (x ∷ xs) h = (
    rw ((==_iff (id x) (id x)).1 refl),
    All-imp _ _ xs (λ y k. by_id-later x xs h.0 (id y) y k) (by_id_self xs h.1),
  )

  -- An update that leaves a term alone leaves its sum alone.
  pub sum_by-update_same :
      (g : A → ℤ) (p : A → Bool) (f : A → A) (xs : List A)
      → ((x : A) → g (f x) ≡ g x)
      → sum_by g (update_where p f xs) ≡ sum_by g xs
  unfolding sum_by
  sum_by-update_same g p f [] h = refl
  sum_by-update_same g p f (x ∷ xs) h =
      let same : g (if p x then f x else x) ≡ g x = ground (arith, h x) in
      rw (same, sum_by-update_same g p f xs h)

  pub HasDistinctIds-filter :
      (p : A → Bool) (xs : List A) → HasDistinctIds id xs → HasDistinctIds id (filter p xs)
  HasDistinctIds-filter p [] h = tt
  HasDistinctIds-filter p (x ∷ xs) h = elim (Bool-cases (p x)) [
    | inl kept ↦ rw kept (
      All-filter (λ y. id y ≢ id x) p xs (All-imp _ _ xs (λ y k _. k) h.0),
      HasDistinctIds-filter p xs h.1,
    )
    | inr dropped ↦ rw dropped (HasDistinctIds-filter p xs h.1)
  ]
