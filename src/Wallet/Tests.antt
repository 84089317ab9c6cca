-- ===== src/Wallet/Tests.antt =====
-- Runs of the wallet services on small tables (packages/domain/wallet/src).
use alice_uprm.Prelude.{arith, ℕ, ◌≡◌, refl, ◌↔◌, none, some, List, [], ◌∷◌}
use alice_uprm.Prelude.Int.{pos, ◌+ℤ◌, ◌-ℤ◌, ◌≤ℤ◌}
use alice_uprm.Prelude.Text.{codes}
use alice_uprm.Prelude.Exec.{ok, for_each}
use alice_uprm.Prelude.Rows.{sum_by}
use alice_uprm.Prelude.Keyed.{by_id}
use alice_uprm.Wallet.Types.{
  WalletPayoutReservation, Wallet, WalletAllocation, CreateWalletGrantInput,
  ReserveWalletRedemptionInput, ReserveWalletPayoutInput, reserved, sent,
}
use alice_uprm.Wallet.Allocation.{insert_by_date, sort_by_date, allocation, allocate, allocate_fifo}
use alice_uprm.Wallet.Grants.{
  create_grant, insert_grant, grant_row, ensure_wallet_account, is_wallet_of, is_available,
  list_available_grants, change_remaining, with_remaining, wallet_balance,
}
use alice_uprm.Wallet.Redemption.{
  reserve_redemption, create_redemption, redemption_row, take_redemption, allocation_row,
  release_redemption, give_back,
}
use alice_uprm.Wallet.Payout.{
  reserve_payout, create_reservation, reservation_row, take_payout, mark_reservation_sent,
  release_reservation, set_reservation_status,
}
use alice_uprm.Wallet.Fifo.{Allocated, allocated, allocate_fifo-oldest_first}
use alice_uprm.Wallet.Coverage.{available, allocate_fifo-total, allocate_fifo_iff}
use alice_uprm.Wallet.Spending.{remaining_in}
use alice_uprm.Wallet.Conservation.{IsConserved, reservation_id}
use alice_uprm.Wallet.Releasing.{release_redemption-IsConserved}
use alice_uprm.Wallet.Sending.{release_reservation-credits}
use alice_uprm.Wallet.Solvency.{reserve_payout-covered}
use alice_uprm.Wallet.Run.{Run, no_wallets, Run-IsConserved}

abbrev credits : ℕ → CreateWalletGrantInput
credits n = record {
  wallet_account_id = 0;
  issuer_tenant_id = some 7;
  source_tenant_user_id = none;
  origin_type = codes "reward";
  source_event_id = none;
  source_reference_type = none;
  source_reference_id = none;
  amount = pos n;
  fx_quote_id = none;
  expires_at = none;
}

abbrev payout : ReserveWalletPayoutInput
payout = record { wallet_account_id = 0; payout_request_id = 9; amount_credits = pos 120 }

abbrev purchase : ReserveWalletRedemptionInput
purchase = record {
  wallet_account_id = 0;
  spending_tenant_id = 8;
  spending_tenant_user_id = none;
  purchase_ref = none;
  order_ref = none;
  amount_credits = pos 30;
}

-- The account 0 with the grants 1 (100 credits) and 2 (50, the older one).
abbrev funded : Wallet
funded =
    (create_grant 1000 (credits 50)
      (create_grant 2000 (credits 100) (ensure_wallet_account 3 no_wallets).1).1).1

-- A payout of 120 (the reservation 3), and a purchase of 30 (the redemption 4).
abbrev spent : Wallet
spent = (reserve_redemption purchase (reserve_payout payout funded).1).1

funded-Run : Run funded
funded-Run =
    Run.granted (Run.granted (Run.ensured Run.start 3) 2000 (credits 100)) 1000 (credits 50)

spent-Run : Run spent
spent-Run = Run.redeemed (Run.held funded-Run payout) purchase

balances :
    (wallet_balance 0 funded ≡ pos 150)
    × (wallet_balance 0 spent ≡ pos 0)
    × (wallet_balance 0 (release_redemption 4 spent).1 ≡ pos 30)
    × (wallet_balance 0 (release_redemption 4 (release_redemption 4 spent).1).1 ≡ pos 30)
    × (wallet_balance 0 (release_reservation 3 (release_reservation 3 spent).1).1 ≡ pos 240)
unfolding wallet_balance sum_by create_grant insert_grant grant_row ensure_wallet_account
    is_wallet_of reserve_redemption create_redemption redemption_row take_redemption allocation_row
    release_redemption give_back reserve_payout create_reservation reservation_row take_payout
    release_reservation set_reservation_status allocate_fifo allocation insert_by_date sort_by_date
    allocate list_available_grants is_available change_remaining with_remaining for_each ◌+ℤ◌ ◌-ℤ◌
balances = (refl, refl, refl, refl, refl)

older_first :
    allocate_fifo funded.grants (pos 120)
    ≡ ok (
        record { wallet_grant_id = 2; issuer_tenant_id = some 7; amount_credits = pos 50 }
        ∷ record { wallet_grant_id = 1; issuer_tenant_id = some 7; amount_credits = pos 70 }
        ∷ [])
unfolding create_grant insert_grant grant_row ensure_wallet_account is_wallet_of allocate_fifo
    allocation insert_by_date sort_by_date allocate ◌+ℤ◌ ◌-ℤ◌
older_first = refl

abbrev taken : List WalletAllocation
taken =
    record { wallet_grant_id = 2; issuer_tenant_id = some 7; amount_credits = pos 50 }
    ∷ record { wallet_grant_id = 1; issuer_tenant_id = some 7; amount_credits = pos 70 }
    ∷ []

allocate_fifo-oldest_first_example : Allocated funded.grants (pos 120) taken
allocate_fifo-oldest_first_example =
    allocate_fifo-oldest_first funded.grants (pos 120) taken older_first

allocate_fifo-total_example : (allocated taken ≡ pos 120) × (pos 1 ≤ℤ pos 120)
allocate_fifo-total_example = allocate_fifo-total funded.grants (pos 120) taken older_first

allocate_fifo_iff_example :
    ((out : List WalletAllocation) × (allocate_fifo funded.grants (pos 120) ≡ ok out))
    ↔ ((pos 1 ≤ℤ pos 120) × (pos 120 ≤ℤ available funded.grants))
allocate_fifo_iff_example = allocate_fifo_iff funded.grants (pos 120)

Run-IsConserved_example : IsConserved spent
Run-IsConserved_example = Run-IsConserved spent-Run

release_redemption-IsConserved_example : IsConserved (release_redemption 4 spent).1
release_redemption-IsConserved_example =
    release_redemption-IsConserved 4 spent (Run-IsConserved spent-Run)

abbrev paid_out : WalletPayoutReservation
paid_out = record {
  id = 3;
  wallet_account_id = 0;
  payout_request_id = 9;
  issuer_tenant_id = some 7;
  amount_credits = pos 120;
  status = sent;
}

abbrev sent_out : Wallet
sent_out = (mark_reservation_sent 3 spent).1

sent_out-found : by_id reservation_id 3 sent_out.reservations ≡ some paid_out
unfolding sum_by create_grant insert_grant grant_row ensure_wallet_account is_wallet_of
    mark_reservation_sent reserve_redemption create_redemption redemption_row take_redemption
    allocation_row give_back reserve_payout create_reservation reservation_row take_payout
    set_reservation_status allocate_fifo allocation insert_by_date sort_by_date allocate
    list_available_grants is_available change_remaining with_remaining for_each ◌+ℤ◌ ◌-ℤ◌
sent_out-found = refl

sent_out-Run : Run sent_out
unfolding sum_by create_grant insert_grant grant_row ensure_wallet_account is_wallet_of
    reserve_redemption create_redemption redemption_row take_redemption allocation_row give_back
    reserve_payout create_reservation reservation_row take_payout set_reservation_status
    allocate_fifo allocation insert_by_date sort_by_date allocate list_available_grants is_available
    change_remaining with_remaining for_each ◌+ℤ◌ ◌-ℤ◌
sent_out-Run = Run.paid spent-Run 3 (record paid_out { status = reserved }, refl, refl)

release_reservation-credits_example :
    sum_by (remaining_in 0) (release_reservation 3 sent_out).1.grants
    ≡ sum_by (remaining_in 0) sent_out.grants +ℤ pos 120
release_reservation-credits_example =
    release_reservation-credits 3 sent_out paid_out (Run-IsConserved sent_out-Run) sent_out-found

funded-covers : pos 120 ≤ℤ wallet_balance 0 funded
unfolding wallet_balance sum_by create_grant insert_grant grant_row ensure_wallet_account
    is_wallet_of ◌+ℤ◌
funded-covers = omega arith

reserve_payout-covered_example :
    (r : WalletPayoutReservation) × (out : List WalletAllocation) × ((reserve_payout payout
        funded).0
      ≡ ok (r, out))
    × (allocated out ≡ pos 120)
reserve_payout-covered_example =
    reserve_payout-covered funded payout (Run-IsConserved funded-Run).grants_distinct (omega arith)
      funded-covers
