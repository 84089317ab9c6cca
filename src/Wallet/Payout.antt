-- ===== src/Wallet/Payout.antt =====
-- `WalletPayoutService` of packages/domain/wallet/src/wallet-payout.service.ts.
use alice_uprm.Prelude.{ℕ, ◌+◌, Option, none, some, List, [], ◌∷◌, ◌++◌, ◌==◌}
use alice_uprm.Prelude.Int.{◌-ℤ◌}
use alice_uprm.Prelude.Exec.{Error, ok, err, Exec, pure, gets, lift, ◌>>=◌, ◌>>◌, modify, for_each}
use alice_uprm.Prelude.Rows.{filter}
use alice_uprm.Prelude.Keyed.{by_id, update_id}
use alice_uprm.Wallet.Types.{
  WalletPayoutReservation, Wallet, WalletAllocation, ReserveWalletPayoutInput, HoldStatus, reserved,
  released, sent,
}
use alice_uprm.Wallet.Allocation.{allocate_fifo}
use alice_uprm.Wallet.Grants.{list_available_grants, change_remaining}
use alice_uprm.Wallet.Redemption.{allocation_row, give_back}

-- `allocations[0]?.issuerTenantId ?? null`
abbrev first_issuer : List WalletAllocation → Option ℕ
first_issuer [] = none
first_issuer (a ∷ _) = a.issuer_tenant_id

unfoldable pub reservation_row :
    ℕ → ReserveWalletPayoutInput → List WalletAllocation → WalletPayoutReservation
reservation_row id input allocations = record {
  id = id;
  wallet_account_id = input.wallet_account_id;
  payout_request_id = input.payout_request_id;
  issuer_tenant_id = first_issuer allocations;
  amount_credits = input.amount_credits;
  status = reserved;
}

unfoldable pub create_reservation :
    ReserveWalletPayoutInput → List WalletAllocation → Exec Wallet WalletPayoutReservation
create_reservation input allocations w = (
  ok (reservation_row w.next_id input allocations),
  record w {
    reservations = w.reservations ++ reservation_row w.next_id input allocations ∷ [];
    next_id = w.next_id + 1;
  },
)

unfoldable pub take_payout : ℕ → WalletAllocation → Exec Wallet (Unit {0})
take_payout id a = do
  modify (λ w. record w { payout_allocations = w.payout_allocations ++ allocation_row id a ∷ [] })
  change_remaining a.wallet_grant_id (λ x. x -ℤ a.amount_credits)

unfoldable pub reserve_payout :
    ReserveWalletPayoutInput → Exec Wallet (WalletPayoutReservation × List WalletAllocation)
reserve_payout input = do
  grants ← gets (list_available_grants input.wallet_account_id)
  allocations ← lift (allocate_fifo grants input.amount_credits)
  reservation ← create_reservation input allocations
  for_each allocations (take_payout reservation.id)
  pure (reservation, allocations)

-- `walletPayoutReservation.update`, which throws where no row has the id.
unfoldable pub set_reservation_status : ℕ → HoldStatus → Exec Wallet WalletPayoutReservation
set_reservation_status id status w = elim (by_id (λ r. r.id) id w.reservations) [
  | none ↦ (err Error.record_not_found, w)
  | some r ↦ (
    ok (record r { status = status }),
    record w {
      reservations = update_id (λ x. x.id) id (λ x. record x { status = status }) w.reservations;
    },
  )
]

unfoldable pub mark_reservation_sent : ℕ → Exec Wallet WalletPayoutReservation
mark_reservation_sent id = set_reservation_status id sent

-- The status of the reservation is not looked at.
unfoldable pub release_reservation : ℕ → Exec Wallet WalletPayoutReservation
release_reservation id = do
  allocations ← gets (λ w. filter (λ a. a.owner_id == id) w.payout_allocations)
  for_each allocations give_back
  set_reservation_status id released
