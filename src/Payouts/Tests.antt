-- ===== src/Payouts/Tests.antt =====
-- Runs of the payout service (packages/domain/payouts/src/payout.service.ts).
use alice_uprm.Prelude.{◌≡◌, refl, Option, none, some, [], ◌∷◌}
use alice_uprm.Prelude.Int.{pos, ◌+ℤ◌, ◌-ℤ◌}
use alice_uprm.Prelude.Text.{codes, text_eq}
use alice_uprm.Prelude.Exec.{for_each}
use alice_uprm.Prelude.Rows.{sum_by}
use alice_uprm.Prelude.Keyed.{by_id}
use mathlib.Core.Option
use alice_uprm.Ledger.Types.{empty_ledger}
use alice_uprm.Wallet.Types.{CreateWalletGrantInput}
use alice_uprm.Wallet.Grants.{
  create_grant, insert_grant, grant_row, ensure_wallet_account, is_wallet_of, is_available,
  list_available_grants, change_remaining, with_remaining, wallet_balance,
}
use alice_uprm.Wallet.Allocation.{insert_by_date, sort_by_date, allocation, allocate, allocate_fifo}
use alice_uprm.Wallet.Redemption.{allocation_row, give_back}
use alice_uprm.Wallet.Payout.{
  reserve_payout, create_reservation, reservation_row, take_payout, release_reservation,
  set_reservation_status,
}
use alice_uprm.Wallet.Run.{no_wallets}
use alice_uprm.Payouts.Types.{
  PayoutStatus, requested, approved, failed, RequestPayoutInput, Platform, in_wallet,
}
use alice_uprm.Payouts.Requests.{
  found_or, payout_id, require_payout, require_reservation, update_payout, payout_row,
  create_payout, link_reservation, place_payout, is_tenant_user, request_payout, approve_payout,
  fail_payout, cancel_payout, return_credits,
}
use alice_uprm.Payouts.Transitions.{FollowsSteps, IsCall, IsCall-FollowsSteps}

abbrev credits : CreateWalletGrantInput
credits = record {
  wallet_account_id = 0;
  issuer_tenant_id = some 7;
  source_tenant_user_id = none;
  origin_type = codes "reward";
  source_event_id = none;
  source_reference_type = none;
  source_reference_id = none;
  amount = pos 100;
  fx_quote_id = none;
  expires_at = none;
}

abbrev begun : Platform
begun = record {
  tenants = record { id = 7; base_currency = codes "EUR" } ∷ [];
  tenant_users = record { id = 5; tenant_id = 7; user_id = 3 } ∷ [];
  payouts = [];
  next_payout_id = 0;
  ledger = empty_ledger;
  wallet = (create_grant 1000 credits (ensure_wallet_account 3 no_wallets).1).1;
}

abbrev wish : RequestPayoutInput
wish = record {
  tenant_id = 7;
  tenant_user_id = 5;
  amount_minor = pos 60;
  payout_method = codes "bank";
  destination = codes "account";
  destination_currency = none;
}

abbrev asked : Platform
asked = (request_payout wish begun).1

abbrev status_of : Platform → Option PayoutStatus
status_of s = Option.map (λ p. p.status) (by_id payout_id 0 s.payouts)

statuses :
    (status_of asked ≡ some requested)
    × (wallet_balance 0 asked.wallet ≡ pos 40)
    × (status_of (approve_payout 2000 0 asked).1 ≡ some approved)
    × (status_of (cancel_payout 2000 0 (approve_payout 2000 0 asked).1).1 ≡ some approved)
    × (status_of (fail_payout 2000 none 0 (approve_payout 2000 0 asked).1).1 ≡ some failed)
    × (wallet_balance 0 (fail_payout 2000 none 0 (approve_payout 2000 0 asked).1).1.wallet
        ≡ pos 100)
unfolding request_payout is_tenant_user place_payout create_payout payout_row update_payout
    link_reservation found_or require_payout require_reservation return_credits approve_payout
    cancel_payout fail_payout in_wallet wallet_balance sum_by create_grant insert_grant grant_row
    ensure_wallet_account is_wallet_of text_eq allocation_row give_back reserve_payout
    create_reservation reservation_row take_payout release_reservation set_reservation_status
    allocate_fifo allocation insert_by_date sort_by_date allocate list_available_grants is_available
    change_remaining with_remaining for_each ◌+ℤ◌ ◌-ℤ◌
statuses = (refl, refl, refl, refl, refl, refl)

IsCall-FollowsSteps_example : FollowsSteps asked (fail_payout 2000 none 0 asked).1
IsCall-FollowsSteps_example =
    IsCall-FollowsSteps (λ n. n ∷ []) (fail_payout 2000 none 0) (IsCall.failure 2000 none 0) asked
