-- ===== src/Wallet/Loops.antt =====
-- The loops of `reserveRedemption`, `reservePayout` and the two releases
-- (packages/domain/wallet/src/wallet-redemption.service.ts, wallet-payout.service.ts), run to their
-- end: on grants that are there, no round of theirs throws.
use alice_uprm.Prelude.{
  ℕ, ◌≡◌, refl, ◌∙◌, inl, inr, true, some, List, [], ◌∷◌, ◌++◌, map, arith, leb, Bool-cases, All,
  All-imp,
}
use alice_uprm.Prelude.Int.{ℤ, pos, ◌+ℤ◌, ◌-ℤ◌, leb_ℤ, eqb_ℤ}
use alice_uprm.Prelude.Exec.{ok, for_each, for_each-step}
use alice_uprm.Prelude.Rows.{filter, All-filter}
use alice_uprm.Prelude.Keyed.{HasDistinctIds, by_id_self}
use mathlib.Core.List.{append-nil, append_assoc}
use alice_uprm.Wallet.Types.{WalletGrant, WalletAllocation, AllocationRow, Wallet}
use alice_uprm.Wallet.Allocation.{insert_by_date, sort_by_date, allocation, allocate, allocate_fifo}
use alice_uprm.Wallet.Grants.{is_available, list_available_grants}
use alice_uprm.Wallet.Redemption.{allocation_row, take_redemption, give_back}
use alice_uprm.Wallet.Payout.{take_payout}
use alice_uprm.Wallet.Spending.{
  grant_id, account_of, change, change-account_of, change_remaining_lem, spend, refund, AreOf,
  RowsAreOf,
}

abbrev pub taken_redemption : ℕ → List WalletAllocation → Wallet → Wallet
taken_redemption id xs w = record w {
  redemption_allocations = w.redemption_allocations ++ map (allocation_row id) xs;
  grants = spend xs w.grants;
}

abbrev pub taken_payout : ℕ → List WalletAllocation → Wallet → Wallet
taken_payout id xs w = record w {
  payout_allocations = w.payout_allocations ++ map (allocation_row id) xs;
  grants = spend xs w.grants;
}

AreOf-change :
    (a i : ℕ) (f : ℤ → ℤ) (gs : List WalletGrant) (xs : List WalletAllocation)
    → AreOf a gs xs
    → AreOf a (change i f gs) xs
AreOf-change a i f gs xs h =
    All-imp _ _ xs (λ y k. change-account_of i f gs y.wallet_grant_id ∙ k) h

pub take_redemption-all :
    (id a : ℕ) (xs : List WalletAllocation) (w : Wallet)
    → AreOf a w.grants xs
    → for_each xs (take_redemption id) w ≡ (ok tt, taken_redemption id xs w)
unfolding for_each
take_redemption-all id a [] w h = rw (append-nil w.redemption_allocations)
take_redemption-all id a (x ∷ xs) w h =
    let f : ℤ → ℤ = λ y. y -ℤ x.amount_credits in
    let w1 : Wallet = record w {
      redemption_allocations = w.redemption_allocations ++ allocation_row id x ∷ [];
    } in
    let w2 : Wallet = record w1 { grants = change x.wallet_grant_id f w.grants } in
    let step : take_redemption id x w ≡ (ok tt, w2) =
      unfold take_redemption in change_remaining_lem x.wallet_grant_id f a w1 h.0 in
    let ih = take_redemption-all id a xs w2 (AreOf-change a x.wallet_grant_id f w.grants xs h.1) in
    for_each-step (take_redemption id) x xs w w2 step
    ∙ ih
    ∙ (rw (
        append_assoc w.redemption_allocations (allocation_row id x ∷ [])
          (map (allocation_row id) xs)))

pub take_payout-all :
    (id a : ℕ) (xs : List WalletAllocation) (w : Wallet)
    → AreOf a w.grants xs
    → for_each xs (take_payout id) w ≡ (ok tt, taken_payout id xs w)
unfolding for_each
take_payout-all id a [] w h = rw (append-nil w.payout_allocations)
take_payout-all id a (x ∷ xs) w h =
    let f : ℤ → ℤ = λ y. y -ℤ x.amount_credits in
    let w1 : Wallet = record w {
      payout_allocations = w.payout_allocations ++ allocation_row id x ∷ [];
    } in
    let w2 : Wallet = record w1 { grants = change x.wallet_grant_id f w.grants } in
    let step : take_payout id x w ≡ (ok tt, w2) =
      unfold take_payout in change_remaining_lem x.wallet_grant_id f a w1 h.0 in
    let ih = take_payout-all id a xs w2 (AreOf-change a x.wallet_grant_id f w.grants xs h.1) in
    for_each-step (take_payout id) x xs w w2 step
    ∙ ih
    ∙ (rw
        (append_assoc w.payout_allocations (allocation_row id x ∷ []) (map (allocation_row id) xs)))

pub give_back-all :
    (a : ℕ) (xs : List AllocationRow) (w : Wallet)
    → RowsAreOf a w.grants xs
    → for_each xs give_back w ≡ (ok tt, record w { grants = refund xs w.grants })
unfolding for_each
give_back-all a [] w h = refl
give_back-all a (x ∷ xs) w h =
    let f : ℤ → ℤ = λ y. y +ℤ x.amount_credits in
    let w2 : Wallet = record w { grants = change x.wallet_grant_id f w.grants } in
    let step : give_back x w ≡ (ok tt, w2) =
      unfold give_back in change_remaining_lem x.wallet_grant_id f a w h.0 in
    for_each-step give_back x xs w w2 step
    ∙ (give_back-all a xs w2 (
        All-imp _ _ xs (λ y k. change-account_of x.wallet_grant_id f w.grants y.wallet_grant_id ∙ k)
          h.1))

-- What `allocateFifo` returns is of the grants it was given.
module _ (P : ℕ → Type 0) where
  insert_by_date-ids :
      (g : WalletGrant) (gs : List WalletGrant)
      → P g.id
      → All (λ x. P x.id) gs
      → All (λ x. P x.id) (insert_by_date g gs)
  unfolding insert_by_date
  insert_by_date-ids g [] p h = (p, tt)
  insert_by_date-ids g (x ∷ xs) p h = elim (Bool-cases (leb g.created_at x.created_at)) [
    | inl before ↦ rw before (p, h)
    | inr later ↦ rw later (h.0, insert_by_date-ids g xs p h.1)
  ]

  sort_by_date-ids :
      (gs : List WalletGrant) → All (λ x. P x.id) gs → All (λ x. P x.id) (sort_by_date gs)
  unfolding sort_by_date
  sort_by_date-ids [] h = tt
  sort_by_date-ids (g ∷ gs) h = insert_by_date-ids g (sort_by_date gs) h.0 (sort_by_date-ids gs h.1)

  allocate-ids :
      (gs : List WalletGrant) (r : ℤ)
      → All (λ x. P x.id) gs
      → All (λ x. P x.wallet_grant_id) (allocate r gs).1
  unfolding allocate allocation
  allocate-ids [] r h = tt
  allocate-ids (g ∷ gs) r h = elim (Bool-cases (eqb_ℤ r (pos 0))) [
    | inl done ↦ rw done tt
    | inr more ↦ elim (Bool-cases (leb_ℤ g.amount_remaining (pos 0))) [
      | inl empty ↦ rw (more, empty) (allocate-ids gs r h.1)
      | inr full ↦ rw (more, full) (h.0, allocate-ids gs _ h.1)
    ]
  ]

  allocate_fifo-ids :
      (gs : List WalletGrant) (r : ℤ) (out : List WalletAllocation)
      → All (λ x. P x.id) gs
      → allocate_fifo gs r ≡ ok out
      → All (λ x. P x.wallet_grant_id) out
  unfolding allocate_fifo
  allocate_fifo-ids gs r out h e =
      let same : (allocate r (sort_by_date gs)).1 ≡ out = ground arith in
      rw same at (allocate-ids (sort_by_date gs) r (sort_by_date-ids gs h))

  list_available_grants-ids :
      (a : ℕ) (w : Wallet)
      → All (λ g. is_available a g ≡ true → P g.id) w.grants
      → All (λ g. P g.id) (list_available_grants a w)
  unfolding list_available_grants
  list_available_grants-ids a w h =
      sort_by_date-ids (filter (is_available a) w.grants)
        (All-filter (λ g. P g.id) (is_available a) w.grants h)

-- The services allocate grants of the account they were asked for.
pub allocate_fifo-AreOf :
    (a : ℕ) (w : Wallet) (r : ℤ) (out : List WalletAllocation)
    → HasDistinctIds grant_id w.grants
    → allocate_fifo (list_available_grants a w) r ≡ ok out
    → AreOf a w.grants out
unfolding is_available
allocate_fifo-AreOf a w r out ids e =
    let mine : All (λ g. is_available a g ≡ true → account_of g.id w.grants ≡ some a) w.grants =
      All-imp _ _ w.grants (λ g k b. rw k (ground arith)) (by_id_self grant_id w.grants ids) in
    allocate_fifo-ids (λ i. account_of i w.grants ≡ some a) (list_available_grants a w) r out
      (list_available_grants-ids (λ i. account_of i w.grants ≡ some a) a w mine) e
