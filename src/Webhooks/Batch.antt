-- ===== src/Webhooks/Batch.antt =====
-- The batch that one worker claims (`claimDueBatch` of
-- packages/domain/webhooks/src/delivery.service.ts), when no other worker claims during it.
use alice_uprm.Prelude.{
  ℕ, ◌≡◌, refl, ◌≢◌, ◌⊎◌, inl, inr, true, false, some, List, [], ◌∷◌, arith, ◌==◌, Bool-cases, take,
  All, All-imp,
}
use alice_uprm.Prelude.Rows.{filter, update_where, any, All-filter}
use alice_uprm.Prelude.Keyed.{HasDistinctIds-filter, by_id, HasDistinctIds, by_id_self}
use alice_uprm.Webhooks.Types.{
  DeliveryStatus, pending, retrying, status_eq, DeliveryRecord, Deliveries, delivery_id,
}
use alice_uprm.Webhooks.Delivery.{is_due, is_before, is_unclaimed, as_delivering}
use alice_uprm.Webhooks.Attempts.{IsBounded}
use alice_uprm.Prelude.Sorting.{sort_by, All-sort_by, distinct-sort_by, All-take, distinct-take}

abbrev pub alone : ℕ → Deliveries → Deliveries
alone id s = s

-- What was read from the table, with the ids distinct.
abbrev pub Read : List DeliveryRecord → Deliveries → Type 0
Read rows s =
    All (λ r. by_id delivery_id r.id s.rows ≡ some r) rows × HasDistinctIds delivery_id rows

abbrev pub IsOpen : DeliveryRecord → Type 0
IsOpen r = (status_eq r.status pending ≡ true) ⊎ (status_eq r.status retrying ≡ true)

unfoldable pub due_rows : ℕ → ℕ → Deliveries → List DeliveryRecord
due_rows now limit s = take limit (sort_by is_before (filter (is_due now) s.rows))

pub due_rows-Read : (now limit : ℕ) (s : Deliveries) → IsBounded s → Read (due_rows now limit s) s
unfolding due_rows
due_rows-Read now limit s h = (
  All-take _ limit _ (
      All-sort_by is_before _ _ (
        All-filter (λ r. by_id delivery_id r.id s.rows ≡ some r) (is_due now) s.rows
          (All-imp _ _ s.rows (λ y k _. k) (by_id_self delivery_id s.rows h.distinct)))),
  distinct-take delivery_id limit _ (
      distinct-sort_by is_before delivery_id _
        (HasDistinctIds-filter delivery_id (is_due now) s.rows h.distinct)),
)

pub due_rows-IsOpen : (now limit : ℕ) (s : Deliveries) → All IsOpen (due_rows now limit s)
unfolding due_rows is_due
due_rows-IsOpen now limit s =
    All-take IsOpen limit _
      (All-sort_by is_before IsOpen _ (All-filter IsOpen (is_due now) s.rows (all_due s.rows)))
  where
    all_due : (xs : List DeliveryRecord) → All (λ r. is_due now r ≡ true → IsOpen r) xs
    all_due [] = tt
    all_due (x ∷ xs) = (
      (λ e. elim (Bool-cases (status_eq x.status pending)) [
        | inl is_new ↦ inl is_new
        | inr old ↦ inr (ground arith)
      ]),
      all_due xs,
    )

module _ (row : DeliveryRecord) where
  status_eq_self : (a : DeliveryStatus) → status_eq a a ≡ true
  status_eq_self a = ground arith

  self_unclaimed : is_unclaimed row row ≡ true
  unfolding is_unclaimed
  self_unclaimed = ground (arith, status_eq_self row.status)

  pub claim-own :
      (xs : List DeliveryRecord)
      → by_id delivery_id row.id xs ≡ some row
      → (by_id delivery_id row.id (update_where (is_unclaimed row) as_delivering xs)
          ≡ some (as_delivering row))
        × (any (is_unclaimed row) xs ≡ true)
  claim-own [] h = absurd (cc)
  claim-own (x ∷ xs) h = elim (Bool-cases (x.id == row.id)) [
    | inl here ↦
        let hit : some x ≡ some row = rw here at h in
        let same : x ≡ row = cc in rw (same, self_unclaimed) (ground arith, ground arith)
    | inr there ↦
        let apart : is_unclaimed row x ≡ false = unfold is_unclaimed in rw there refl in
        let (own, hit) = claim-own xs (rw there at h) in rw (apart, there) (own, hit)
  ]

  pub claim-other :
      (j : ℕ) (xs : List DeliveryRecord)
      → row.id ≢ j
      → by_id delivery_id j (update_where (is_unclaimed row) as_delivering xs)
        ≡ by_id delivery_id j xs
  unfolding is_unclaimed
  claim-other j [] h = refl
  claim-other j (x ∷ xs) h = ground (arith, claim-other j xs h)
