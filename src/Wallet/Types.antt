-- ===== src/Wallet/Types.antt =====
-- The tables of packages/db/prisma/schema.prisma that the wallet services use, and the inputs of
-- packages/domain/wallet/src/types.ts. `createdAt` is in milliseconds.
use alice_uprm.Prelude.{ℕ, Option, List}
use alice_uprm.Prelude.Int.{ℤ}
use alice_uprm.Prelude.Text.{Text}

pub record WalletAccount : Type 0 where
  pub id : ℕ
  pub user_id : ℕ
  pub currency : Text
  pub status : Text

pub record WalletGrant : Type 0 where
  pub id : ℕ
  pub wallet_account_id : ℕ
  pub issuer_tenant_id : Option ℕ
  pub source_tenant_user_id : Option ℕ
  pub origin_type : Text
  pub source_event_id : Option ℕ
  pub source_reference_type : Option Text
  pub source_reference_id : Option ℕ
  pub amount_issued : ℤ
  pub amount_remaining : ℤ
  pub fx_quote_id : Option ℕ
  pub expires_at : Option ℕ
  pub created_at : ℕ

pub data HoldStatus : Type 0 where
  reserved posted released sent : HoldStatus

pub record WalletRedemption : Type 0 where
  pub id : ℕ
  pub wallet_account_id : ℕ
  pub spending_tenant_id : ℕ
  pub spending_tenant_user_id : Option ℕ
  pub purchase_ref : Option Text
  pub order_ref : Option Text
  pub amount_credits : ℤ
  pub status : HoldStatus
  pub posted_at : Option ℕ

pub record WalletPayoutReservation : Type 0 where
  pub id : ℕ
  pub wallet_account_id : ℕ
  pub payout_request_id : ℕ
  pub issuer_tenant_id : Option ℕ
  pub amount_credits : ℤ
  pub status : HoldStatus

-- A row of walletRedemptionAllocation or walletPayoutAllocation; `owner_id` is its `redemptionId`
-- or its `walletPayoutReservationId`.
pub record AllocationRow : Type 0 where
  pub owner_id : ℕ
  pub wallet_grant_id : ℕ
  pub issuer_tenant_id : Option ℕ
  pub amount_credits : ℤ

pub record Wallet : Type 0 where
  pub accounts : List WalletAccount
  pub grants : List WalletGrant
  pub redemptions : List WalletRedemption
  pub redemption_allocations : List AllocationRow
  pub reservations : List WalletPayoutReservation
  pub payout_allocations : List AllocationRow
  pub next_id : ℕ

pub record CreateWalletGrantInput : Type 0 where
  pub wallet_account_id : ℕ
  pub issuer_tenant_id : Option ℕ
  pub source_tenant_user_id : Option ℕ
  pub origin_type : Text
  pub source_event_id : Option ℕ
  pub source_reference_type : Option Text
  pub source_reference_id : Option ℕ
  pub amount : ℤ  -- `amountIssued`, or the `amountDelta` of `recordDelta`
  pub fx_quote_id : Option ℕ
  pub expires_at : Option ℕ

pub record WalletAllocation : Type 0 where
  pub wallet_grant_id : ℕ
  pub issuer_tenant_id : Option ℕ
  pub amount_credits : ℤ

pub record ReserveWalletRedemptionInput : Type 0 where
  pub wallet_account_id : ℕ
  pub spending_tenant_id : ℕ
  pub spending_tenant_user_id : Option ℕ
  pub purchase_ref : Option Text
  pub order_ref : Option Text
  pub amount_credits : ℤ

pub record ReserveWalletPayoutInput : Type 0 where
  pub wallet_account_id : ℕ
  pub payout_request_id : ℕ
  pub amount_credits : ℤ
