-- ===== src/Prelude/Sorting.antt =====
-- `orderBy` and `take` of a query, and what they keep of the rows.
use alice_uprm.Prelude.{
  ℕ, zero, suc, ◌≢◌, inl, inr, Bool, List, [], ◌∷◌, arith, if◌then◌else◌, Bool-cases, take, All,
}
use alice_uprm.Prelude.Keyed.{HasDistinctIds}

module _ {ℓ} {A : Type ℓ} (before : A → A → Bool) where
  unfoldable pub insert_by : A → List A → List A
  insert_by x [] = x ∷ []
  insert_by x (y ∷ ys) = if before x y then x ∷ y ∷ ys else y ∷ insert_by x ys

  -- `orderBy`: rows that compare equal keep their order.
  unfoldable pub sort_by : List A → List A
  sort_by [] = []
  sort_by (x ∷ xs) = insert_by x (sort_by xs)

  module _ {κ} (P : A → Type κ) where
    pub All-insert_by : (x : A) (xs : List A) → P x → All P xs → All P (insert_by x xs)
    unfolding insert_by
    All-insert_by x [] p h = (p, tt)
    All-insert_by x (y ∷ ys) p h = elim (Bool-cases (before x y)) [
      | inl first ↦ rw first (p, h)
      | inr later ↦ rw later (h.0, All-insert_by x ys p h.1)
    ]

    pub All-sort_by : (xs : List A) → All P xs → All P (sort_by xs)
    unfolding sort_by
    All-sort_by [] h = tt
    All-sort_by (x ∷ xs) h = All-insert_by x (sort_by xs) h.0 (All-sort_by xs h.1)

  module _ (id : A → ℕ) where
    distinct-insert_by :
        (x : A) (xs : List A)
        → All (λ y. id y ≢ id x) xs
        → HasDistinctIds id xs
        → HasDistinctIds id (insert_by x xs)
    unfolding insert_by
    distinct-insert_by x [] a h = (tt, tt)
    distinct-insert_by x (y ∷ ys) a h = elim (Bool-cases (before x y)) [
      | inl first ↦ rw first (a, h)
      | inr later ↦ rw later (
        All-insert_by (λ z. id z ≢ id y) x ys (omega (arith, a.0)) h.0,
        distinct-insert_by x ys a.1 h.1,
      )
    ]

    pub distinct-sort_by : (xs : List A) → HasDistinctIds id xs → HasDistinctIds id (sort_by xs)
    unfolding sort_by
    distinct-sort_by [] h = tt
    distinct-sort_by (x ∷ xs) h =
        distinct-insert_by x (sort_by xs) (All-sort_by (λ y. id y ≢ id x) xs h.0)
          (distinct-sort_by xs h.1)

module _ {ℓ} {A : Type ℓ} where
  pub All-take {κ} : (P : A → Type κ) (n : ℕ) (xs : List A) → All P xs → All P (take n xs)
  All-take P zero xs h = tt
  All-take P (suc n) [] h = tt
  All-take P (suc n) (x ∷ xs) h = (h.0, All-take P n xs h.1)

  pub distinct-take :
      (id : A → ℕ) (n : ℕ) (xs : List A) → HasDistinctIds id xs → HasDistinctIds id (take n xs)
  distinct-take id zero xs h = tt
  distinct-take id (suc n) [] h = tt
  distinct-take id (suc n) (x ∷ xs) h =
      (All-take (λ y. id y ≢ id x) n xs h.0, distinct-take id n xs h.1)
