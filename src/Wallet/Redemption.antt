-- ===== src/Wallet/Redemption.antt =====
-- `WalletRedemptionService` of packages/domain/wallet/src/wallet-redemption.service.ts.
use alice_uprm.Prelude.{
  ℕ, ◌+◌, Bool, true, false, Option, none, some, List, [], ◌∷◌, ◌++◌, ◌==◌, if◌then◌else◌,
}
use alice_uprm.Prelude.Int.{◌+ℤ◌, ◌-ℤ◌}
use alice_uprm.Prelude.Exec.{ok, Exec, pure, gets, lift, ◌>>=◌, ◌>>◌, modify, for_each}
use alice_uprm.Prelude.Rows.{filter}
use alice_uprm.Prelude.Keyed.{by_id, update_id}
use alice_uprm.Wallet.Types.{
  WalletRedemption, AllocationRow, Wallet, WalletAllocation, ReserveWalletRedemptionInput,
  HoldStatus, reserved, posted, released,
}
use alice_uprm.Wallet.Allocation.{allocate_fifo}
use alice_uprm.Wallet.Grants.{list_available_grants, change_remaining}

abbrev pub is_reserved : HoldStatus → Bool
is_reserved reserved = true
is_reserved _ = false

unfoldable pub redemption_row : ℕ → ReserveWalletRedemptionInput → WalletRedemption
redemption_row id input = record {
  id = id;
  wallet_account_id = input.wallet_account_id;
  spending_tenant_id = input.spending_tenant_id;
  spending_tenant_user_id = input.spending_tenant_user_id;
  purchase_ref = input.purchase_ref;
  order_ref = input.order_ref;
  amount_credits = input.amount_credits;
  status = reserved;
  posted_at = none;
}

unfoldable pub create_redemption : ReserveWalletRedemptionInput → Exec Wallet WalletRedemption
create_redemption input w = (
  ok (redemption_row w.next_id input),
  record w {
    redemptions = w.redemptions ++ redemption_row w.next_id input ∷ [];
    next_id = w.next_id + 1;
  },
)

unfoldable pub allocation_row : ℕ → WalletAllocation → AllocationRow
allocation_row owner a = record {
  owner_id = owner;
  wallet_grant_id = a.wallet_grant_id;
  issuer_tenant_id = a.issuer_tenant_id;
  amount_credits = a.amount_credits;
}

-- The body of the loop over the allocations.
unfoldable pub take_redemption : ℕ → WalletAllocation → Exec Wallet (Unit {0})
take_redemption id a = do
  modify (λ w. record w {
    redemption_allocations = w.redemption_allocations ++ allocation_row id a ∷ [];
  })
  change_remaining a.wallet_grant_id (λ x. x -ℤ a.amount_credits)

unfoldable pub reserve_redemption :
    ReserveWalletRedemptionInput → Exec Wallet (WalletRedemption × List WalletAllocation)
reserve_redemption input = do
  grants ← gets (list_available_grants input.wallet_account_id)
  allocations ← lift (allocate_fifo grants input.amount_credits)
  redemption ← create_redemption input
  for_each allocations (take_redemption redemption.id)
  pure (redemption, allocations)

abbrev set_redemption : ℕ → (WalletRedemption → WalletRedemption) → Wallet → Wallet
set_redemption id f w = record w { redemptions = update_id (λ r. r.id) id f w.redemptions }

-- A redemption that is not reserved, or not there, is returned as it is.
unfoldable pub mark_posted : ℕ → ℕ → Exec Wallet (Option WalletRedemption)
mark_posted now id w = elim (by_id (λ r. r.id) id w.redemptions) [
  | none ↦ (ok none, w)
  | some r ↦
      if is_reserved r.status
      then (
        ok (some (record r { status = posted; posted_at = some now })),
        set_redemption id (λ x. record x { status = posted; posted_at = some now }) w,
      )
      else (ok (some r), w)
]

unfoldable pub give_back : AllocationRow → Exec Wallet (Unit {0})
give_back a = change_remaining a.wallet_grant_id (λ x. x +ℤ a.amount_credits)

unfoldable pub release_redemption : ℕ → Exec Wallet (Option WalletRedemption)
release_redemption id w = elim (by_id (λ r. r.id) id w.redemptions) [
  | none ↦ (ok none, w)
  | some r ↦
      if is_reserved r.status
      then (do
        for_each (filter (λ a. a.owner_id == id) w.redemption_allocations) give_back
        modify (set_redemption id (λ x. record x { status = released }))
        pure (some (record r { status = released })))
          w
      else (ok (some r), w)
]
