-- ===== src/Wallet/Solvency.antt =====
-- The balance check before a reservation (packages/domain/payouts/src/payout.service.ts) against the
-- grants that the reservation may use (packages/domain/wallet/src): the balance also counts negative
-- grants, so it never exceeds what the grants can give.
use alice_uprm.Prelude.{ℕ, ◌≡◌, ap, inl, inr, List, [], ◌∷◌, arith, ◌==◌, Bool-cases}
use alice_uprm.Prelude.Int.{pos, ◌≤ℤ◌, ltb_ℤ, int_laws, parts_of_eq, ltb_ℤ-false}
use alice_uprm.Prelude.Exec.{ok}
use alice_uprm.Prelude.Rows.{filter, sum_by}
use alice_uprm.Prelude.Keyed.{HasDistinctIds}
use alice_uprm.Wallet.Types.{
  WalletGrant, WalletAllocation, WalletPayoutReservation, Wallet, ReserveWalletPayoutInput,
}
use alice_uprm.Wallet.Grants.{is_available, list_available_grants, wallet_balance}
use alice_uprm.Wallet.Payout.{reserve_payout, reservation_row}
use alice_uprm.Wallet.Fifo.{allocated}
use alice_uprm.Wallet.Coverage.{
  spendable, available, sort_by_date-sum, allocate_fifo-total, allocate_fifo_iff,
}
use alice_uprm.Wallet.Spending.{grant_id}
use alice_uprm.Wallet.Holding.{reserve_payout-run}

usable :
    (account : ℕ) (gs : List WalletGrant)
    → sum_by (λ g. g.amount_remaining) (filter (λ g. g.wallet_account_id == account) gs)
      ≤ℤ available (filter (is_available account) gs)
unfolding sum_by is_available
usable account [] = omega arith
usable account (g ∷ gs) = elim (Bool-cases (g.wallet_account_id == account)) [
  | inr other ↦ rw other (usable account gs)
  | inl mine ↦ elim (Bool-cases (ltb_ℤ (pos 0) g.amount_remaining)) [
    | inl full ↦
        let whole_rest : spendable g ≡ g.amount_remaining = rw full in
        rw (mine, full) (omega (int_laws, usable account gs, parts_of_eq _ _ whole_rest))
    | inr empty ↦
        rw (mine, empty)
          (omega (int_laws, usable account gs, ltb_ℤ-false (pos 0) g.amount_remaining empty))
  ]
]

wallet_balance-available :
    (account : ℕ) (w : Wallet)
    → wallet_balance account w ≤ℤ available (list_available_grants account w)
unfolding wallet_balance list_available_grants
wallet_balance-available account w =
    rw (sort_by_date-sum spendable (filter (is_available account) w.grants))
      (usable account w.grants)

-- In tables with distinct grant ids, a reservation of a positive amount that the balance of the
-- account covers is made, and its allocations sum to the amount.
pub reserve_payout-covered :
    (w : Wallet) (input : ReserveWalletPayoutInput)
    → HasDistinctIds grant_id w.grants
    → pos 1 ≤ℤ input.amount_credits
    → input.amount_credits ≤ℤ wallet_balance input.wallet_account_id w
    → (r : WalletPayoutReservation) × (out : List WalletAllocation) × ((reserve_payout input w).0
        ≡ ok (r, out))
      × (allocated out ≡ input.amount_credits)
reserve_payout-covered w input ids positive cover =
    let covers = wallet_balance-available input.wallet_account_id w in
    let (out, run) =
      (allocate_fifo_iff (list_available_grants input.wallet_account_id w) input.amount_credits).1
        (positive, omega (int_laws, covers)) in
    (
      reservation_row w.next_id input out,
      out,
      ap (λ x. x.0) (reserve_payout-run w out ids input run),
      (allocate_fifo-total _ _ out run).0,
    )
