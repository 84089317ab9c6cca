-- ===== src/Wallet/Sending.antt =====
-- Sending and releasing payout reservations (packages/domain/wallet/src/wallet-payout.service.ts)
-- and the conservation law of the wallet.
use alice_uprm.Prelude.{
  ℕ, ◌≡◌, refl, sym, ◌∙◌, Bool, true, false, some, arith, ◌==◌, if◌then◌else◌, ==_iff,
}
use alice_uprm.Prelude.Int.{ℤ, pos, ◌+ℤ◌, neg, int_laws, parts_of_eq}
use alice_uprm.Prelude.Exec.{ok, for_each, >>=-of_ok}
use alice_uprm.Prelude.Rows.{sum_by, find-All}
use alice_uprm.Prelude.Keyed.{by_id, update_id, by_id-id}
use alice_uprm.Wallet.Types.{WalletPayoutReservation, Wallet, released, sent}
use alice_uprm.Wallet.Redemption.{give_back}
use alice_uprm.Wallet.Payout.{set_reservation_status, mark_reservation_sent, release_reservation}
use alice_uprm.Wallet.Spending.{remaining_in, Moves, refund, refund-Moves, RowsAreOf, row_total}
use alice_uprm.Wallet.Loops.{give_back-all}
use alice_uprm.Wallet.Backing.{
  Keeps, rows_of, Backed, AreBacked-grants, AreBacked-update, held_in-release, held_in-same,
}
use alice_uprm.Wallet.Conservation.{
  reservation_id, reservation_account, reservation_amount, reservation_active, is_active, paid_in,
  IsConserved,
}

given_back :
    (i r x p i' r' p' : ℤ) (b : Bool) (d : ℤ)
    → i ≡ r +ℤ x +ℤ p
    → i' ≡ i
    → r' ≡ r +ℤ (if b then d else pos 0)
    → p' ≡ p +ℤ (if b then neg d else pos 0)
    → i' ≡ r' +ℤ x +ℤ p'
given_back i r x p i' r' p' true d h hi hr hx =
    omega (int_laws, parts_of_eq _ _ h, parts_of_eq _ _ hi, parts_of_eq _ _ hr, parts_of_eq _ _ hx)
given_back i r x p i' r' p' false d h hi hr hx =
    omega (int_laws, parts_of_eq _ _ h, parts_of_eq _ _ hi, parts_of_eq _ _ hr, parts_of_eq _ _ hx)

module _ (w : Wallet) (h : IsConserved w) (id : ℕ) where
  -- The tables after a payout reservation was released.
  abbrev unpaid : Wallet
  unpaid = record w {
    grants = refund (rows_of id w.payout_allocations) w.grants;
    reservations = update_id reservation_id id (λ x. record x { status = released }) w.reservations;
  }

  module _ (r : WalletPayoutReservation)
      (found : by_id reservation_id id w.reservations ≡ some r) where
    abbrev dropped : WalletPayoutReservation → WalletPayoutReservation
    dropped x = record x { status = released }

    reservation-backed :
        (row_total (rows_of id w.payout_allocations) ≡ r.amount_credits)
        × RowsAreOf r.wallet_account_id w.grants (rows_of id w.payout_allocations)
    reservation-backed =
        let same : r.id ≡ id = by_id-id reservation_id id w.reservations r found in
        rw same at (
          find-All
            (Backed reservation_id reservation_account reservation_amount reservation_active
              w.grants w.payout_allocations)
            _ w.reservations r h.reservations_backed.backed found)

    reservation-refund :
        Moves r.wallet_account_id r.amount_credits w.grants
          (refund (rows_of id w.payout_allocations) w.grants)
    reservation-refund = rw reservation-backed.0 at (
        refund-Moves r.wallet_account_id (rows_of id w.payout_allocations) w.grants
          reservation-backed.1)

    -- Whatever the status of the reservation.
    release_reservation-run : release_reservation id w ≡ (ok (dropped r), unpaid)
    unfolding release_reservation set_reservation_status
    release_reservation-run =
        >>=-of_ok (for_each (rows_of id w.payout_allocations) give_back)
          (λ _. set_reservation_status id released) w tt
          (record w { grants = refund (rows_of id w.payout_allocations) w.grants })
          (give_back-all r.wallet_account_id (rows_of id w.payout_allocations) w
            reservation-backed.1)
        ∙ rw (found, set_reservation_status)

    unpaid-IsConserved : is_active r.status ≡ true → IsConserved unpaid
    unpaid-IsConserved held = record {
      grants_distinct = reservation-refund.ids h.grants_distinct;
      grants_below = reservation-refund.below w.next_id h.grants_below;
      redemptions_backed =
          AreBacked-grants _ _ _ _ w.grants _ _ _ w.next_id w.next_id keeps (omega arith)
            h.redemptions_backed;
      reservations_backed =
          AreBacked-update reservation_id reservation_account reservation_amount reservation_active
            dropped (λ x. refl) (λ x. refl) (λ x. refl) _ w.payout_allocations w.reservations
            w.next_id id
            (AreBacked-grants _ _ _ _ w.grants _ _ _ w.next_id w.next_id keeps (omega arith)
              h.reservations_backed);
      conserves = λ b.
          given_back _ _ _ _ _ _ _ (r.wallet_account_id == b) r.amount_credits (h.conserves b)
            (reservation-refund.issued b) (reservation-refund.remaining h.grants_distinct b)
            (held_in-release reservation_id reservation_account reservation_amount
              reservation_active dropped (λ x. refl) (λ x. refl) (λ x. refl) b id w.reservations r
              h.reservations_backed.distinct found held refl);
    }
      where
        keeps : Keeps w.grants (refund (rows_of id w.payout_allocations) w.grants)
        keeps i a k = reservation-refund.accounts i ∙ k

-- Releasing a payout reservation that was not released before keeps the law.
pub release_reservation-IsConserved :
    (id : ℕ) (w : Wallet) (r : WalletPayoutReservation)
    → IsConserved w
    → by_id reservation_id id w.reservations ≡ some r
    → is_active r.status ≡ true
    → IsConserved (release_reservation id w).1
release_reservation-IsConserved id w r h found held =
    rw (release_reservation-run w h id r found) (unpaid-IsConserved w h id r found held)

-- In a wallet that keeps the conservation law, `releaseReservation` gives the amount of a payout
-- reservation back to the grants of its account, whatever its status is, also `released` or `sent`.
pub release_reservation-credits :
    (id : ℕ) (w : Wallet) (r : WalletPayoutReservation)
    → IsConserved w
    → by_id reservation_id id w.reservations ≡ some r
    → sum_by (remaining_in r.wallet_account_id) (release_reservation id w).1.grants
      ≡ sum_by (remaining_in r.wallet_account_id) w.grants +ℤ r.amount_credits
release_reservation-credits id w r h found = rw (release_reservation-run w h id r found) (
    rw ((==_iff r.wallet_account_id r.wallet_account_id).1 refl) at
      ((reservation-refund w h id r found).remaining h.grants_distinct r.wallet_account_id))

abbrev marked_sent : WalletPayoutReservation → WalletPayoutReservation
marked_sent x = record x { status = sent }

-- Marking a payout reservation that was not released as sent keeps the law.
pub mark_reservation_sent-IsConserved :
    (id : ℕ) (w : Wallet) (r : WalletPayoutReservation)
    → IsConserved w
    → by_id reservation_id id w.reservations ≡ some r
    → is_active r.status ≡ true
    → IsConserved (mark_reservation_sent id w).1
unfolding mark_reservation_sent set_reservation_status
mark_reservation_sent-IsConserved id w r h found held =
    let same : (b : ℕ)
        → sum_by (paid_in b) (update_id reservation_id id marked_sent w.reservations)
          ≡ sum_by (paid_in b) w.reservations =
      λ b.
        held_in-same reservation_id reservation_account reservation_amount reservation_active
          marked_sent (λ x. refl) (λ x. refl) (λ x. refl) b id w.reservations r
          h.reservations_backed.distinct found (sym held) in
    rw (found, set_reservation_status)
      (record {
        grants_distinct = h.grants_distinct;
        grants_below = h.grants_below;
        redemptions_backed = h.redemptions_backed;
        reservations_backed =
            AreBacked-update reservation_id reservation_account reservation_amount
              reservation_active marked_sent (λ x. refl) (λ x. refl) (λ x. refl) w.grants
              w.payout_allocations w.reservations w.next_id id h.reservations_backed;
        conserves = λ b. rw (same b) (h.conserves b);
      })
