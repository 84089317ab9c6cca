-- ===== src/Wallet/Releasing.antt =====
-- Posting and releasing redemptions (packages/domain/wallet/src/wallet-redemption.service.ts) and the
-- conservation law of the wallet.
use alice_uprm.Prelude.{
  ℕ, ◌≡◌, refl, sym, ◌∙◌, inl, inr, Bool, true, false, some, arith, ◌==◌, if◌then◌else◌, Bool-cases,
  Option-cases,
}
use alice_uprm.Prelude.Int.{ℤ, pos, ◌+ℤ◌, neg, int_laws, parts_of_eq}
use alice_uprm.Prelude.Exec.{ok, pure, ◌>>◌, modify, for_each, >>=-of_ok}
use alice_uprm.Prelude.Rows.{sum_by, find-All}
use alice_uprm.Prelude.Keyed.{by_id, update_id, by_id-id}
use alice_uprm.Wallet.Types.{WalletRedemption, Wallet, HoldStatus, posted, released}
use alice_uprm.Wallet.Redemption.{is_reserved, mark_posted, give_back, release_redemption}
use alice_uprm.Wallet.Spending.{Moves, refund, refund-Moves, RowsAreOf, row_total}
use alice_uprm.Wallet.Loops.{give_back-all}
use alice_uprm.Wallet.Backing.{
  Keeps, rows_of, Backed, AreBacked-grants, AreBacked-update, held_in-release, held_in-same,
}
use alice_uprm.Wallet.Conservation.{
  redemption_id, redemption_account, redemption_amount, redemption_active, is_active, redeemed_in,
  IsConserved,
}

active_of_reserved : (s : HoldStatus) → is_reserved s ≡ true → is_active s ≡ true
active_of_reserved s h = ground arith

abbrev marked : ℕ → WalletRedemption → WalletRedemption
marked now x = record x { status = posted; posted_at = some now }

abbrev let_go : WalletRedemption → WalletRedemption
let_go x = record x { status = released }

-- Posting a redemption keeps the law, whatever the status of the redemption.
pub mark_posted-IsConserved :
    (now id : ℕ) (w : Wallet) → IsConserved w → IsConserved (mark_posted now id w).1
unfolding mark_posted
mark_posted-IsConserved now id w h = elim (Option-cases (by_id redemption_id id w.redemptions)) [
  | inl absent ↦ rw (absent, mark_posted) h
  | inr (r, found) ↦ elim (Bool-cases (is_reserved r.status)) [
    | inr settled ↦ rw (found, settled, mark_posted) h
    | inl held ↦
        let same : (b : ℕ)
            → sum_by (redeemed_in b) (update_id redemption_id id (marked now) w.redemptions)
              ≡ sum_by (redeemed_in b) w.redemptions =
          λ b.
            held_in-same redemption_id redemption_account redemption_amount redemption_active
              (marked now) (λ x. refl) (λ x. refl) (λ x. refl) b id w.redemptions r
              h.redemptions_backed.distinct found (sym (active_of_reserved r.status held)) in
        rw (found, held, mark_posted)
          (record {
            grants_distinct = h.grants_distinct;
            grants_below = h.grants_below;
            redemptions_backed =
                AreBacked-update redemption_id redemption_account redemption_amount
                  redemption_active (marked now) (λ x. refl) (λ x. refl) (λ x. refl) w.grants
                  w.redemption_allocations w.redemptions w.next_id id h.redemptions_backed;
            reservations_backed = h.reservations_backed;
            conserves = λ b. rw (same b) (h.conserves b);
          })
  ]
]

given_back :
    (i r x p i' r' x' : ℤ) (b : Bool) (d : ℤ)
    → i ≡ r +ℤ x +ℤ p
    → i' ≡ i
    → r' ≡ r +ℤ (if b then d else pos 0)
    → x' ≡ x +ℤ (if b then neg d else pos 0)
    → i' ≡ r' +ℤ x' +ℤ p
given_back i r x p i' r' x' true d h hi hr hx =
    omega (int_laws, parts_of_eq _ _ h, parts_of_eq _ _ hi, parts_of_eq _ _ hr, parts_of_eq _ _ hx)
given_back i r x p i' r' x' false d h hi hr hx =
    omega (int_laws, parts_of_eq _ _ h, parts_of_eq _ _ hi, parts_of_eq _ _ hr, parts_of_eq _ _ hx)

module _ (w : Wallet) (h : IsConserved w) (id : ℕ) where
  -- The tables after a reserved redemption was released.
  abbrev unredeemed : Wallet
  unredeemed = record w {
    grants = refund (rows_of id w.redemption_allocations) w.grants;
    redemptions = update_id redemption_id id let_go w.redemptions;
  }

  module _ (r : WalletRedemption) (found : by_id redemption_id id w.redemptions ≡ some r) where
    redemption-backed :
        (row_total (rows_of id w.redemption_allocations) ≡ r.amount_credits)
        × RowsAreOf r.wallet_account_id w.grants (rows_of id w.redemption_allocations)
    redemption-backed =
        let same : r.id ≡ id = by_id-id redemption_id id w.redemptions r found in
        rw same at (
          find-All
            (Backed redemption_id redemption_account redemption_amount redemption_active w.grants
              w.redemption_allocations)
            _ w.redemptions r h.redemptions_backed.backed found)

    redemption-refund :
        Moves r.wallet_account_id r.amount_credits w.grants
          (refund (rows_of id w.redemption_allocations) w.grants)
    redemption-refund = rw redemption-backed.0 at (
        refund-Moves r.wallet_account_id (rows_of id w.redemption_allocations) w.grants
          redemption-backed.1)

    release_redemption-run :
        is_reserved r.status ≡ true → release_redemption id w ≡ (ok (some (let_go r)), unredeemed)
    unfolding release_redemption
    release_redemption-run held =
        rw (found, held, release_redemption)
          (>>=-of_ok (for_each (rows_of id w.redemption_allocations) give_back)
            (λ _.
              modify
                (λ x. record x { redemptions = update_id redemption_id id let_go x.redemptions })
              >> pure (some (let_go r)))
            w tt (record w { grants = refund (rows_of id w.redemption_allocations) w.grants })
            (give_back-all r.wallet_account_id (rows_of id w.redemption_allocations) w
              redemption-backed.1))

    unredeemed-IsConserved : is_active r.status ≡ true → IsConserved unredeemed
    unredeemed-IsConserved held = record {
      grants_distinct = redemption-refund.ids h.grants_distinct;
      grants_below = redemption-refund.below w.next_id h.grants_below;
      redemptions_backed =
          AreBacked-update redemption_id redemption_account redemption_amount redemption_active
            let_go (λ x. refl) (λ x. refl) (λ x. refl) _ w.redemption_allocations w.redemptions
            w.next_id id
            (AreBacked-grants _ _ _ _ w.grants _ _ _ w.next_id w.next_id keeps (omega arith)
              h.redemptions_backed);
      reservations_backed =
          AreBacked-grants _ _ _ _ w.grants _ _ _ w.next_id w.next_id keeps (omega arith)
            h.reservations_backed;
      conserves = λ b.
          given_back _ _ _ _ _ _ _ (r.wallet_account_id == b) r.amount_credits (h.conserves b)
            (redemption-refund.issued b) (redemption-refund.remaining h.grants_distinct b)
            (held_in-release redemption_id redemption_account redemption_amount redemption_active
              let_go (λ x. refl) (λ x. refl) (λ x. refl) b id w.redemptions r
              h.redemptions_backed.distinct found held refl);
    }
      where
        keeps : Keeps w.grants (refund (rows_of id w.redemption_allocations) w.grants)
        keeps i a k = redemption-refund.accounts i ∙ k

-- Releasing a redemption, whatever its status, keeps the conservation law of the
-- wallet.
pub release_redemption-IsConserved :
    (id : ℕ) (w : Wallet) → IsConserved w → IsConserved (release_redemption id w).1
unfolding release_redemption
release_redemption-IsConserved id w h = elim (Option-cases (by_id redemption_id id w.redemptions)) [
  | inl absent ↦ rw (absent, release_redemption) h
  | inr (r, found) ↦ elim (Bool-cases (is_reserved r.status)) [
    | inr settled ↦ rw (found, settled, release_redemption) h
    | inl held ↦
        rw (release_redemption-run w h id r found held)
          (unredeemed-IsConserved w h id r found (active_of_reserved r.status held))
  ]
]
