-- ===== src/Payouts/Types.antt =====
-- The tables that `PayoutService` uses (packages/db/prisma/schema.prisma) and its input
-- (packages/domain/payouts/src/payout.service.ts). A `destination` is opaque to the service and
-- stands here as the text of its JSON.
use alice_uprm.Prelude.{ℕ, Option, List}
use alice_uprm.Prelude.Int.{ℤ}
use alice_uprm.Prelude.Text.{Text}
use alice_uprm.Prelude.Exec.{Exec}
use alice_uprm.Ledger.Types.{Ledger}
use alice_uprm.Wallet.Types.{Wallet, WalletAllocation}

pub record TenantUser : Type 0 where
  pub id : ℕ
  pub tenant_id : ℕ
  pub user_id : ℕ

pub record Tenant : Type 0 where
  pub id : ℕ
  pub base_currency : Text

pub data PayoutStatus : Type 0 where
  requested approved sent failed cancelled : PayoutStatus

pub record PayoutRequest : Type 0 where
  pub id : ℕ
  pub tenant_id : ℕ
  pub tenant_user_id : ℕ
  pub user_id : ℕ
  pub wallet_account_id : ℕ
  pub amount_minor : ℤ
  pub amount_credits : ℤ
  pub base_currency : Text
  pub destination_currency : Option Text
  pub payout_method : Text
  pub destination : Text
  pub issuer_breakdown : Option (List WalletAllocation)
  pub status : PayoutStatus
  pub failure_reason : Option Text
  pub approved_at : Option ℕ
  pub sent_at : Option ℕ
  pub failed_at : Option ℕ
  pub cancelled_at : Option ℕ

pub record RequestPayoutInput : Type 0 where
  pub tenant_id : ℕ
  pub tenant_user_id : ℕ
  pub amount_minor : ℤ
  pub payout_method : Text
  pub destination : Text
  pub destination_currency : Option Text

pub record Platform : Type 0 where
  pub tenants : List Tenant
  pub tenant_users : List TenantUser
  pub payouts : List PayoutRequest
  pub next_payout_id : ℕ
  pub ledger : Ledger
  pub wallet : Wallet

-- A call of a service of the ledger or of the wallet.
module _ {ℓ} {A : Type ℓ} where
  unfoldable pub in_ledger : Exec Ledger A → Exec Platform A
  in_ledger m s = let (r, l) = m s.ledger in (r, record s { ledger = l })

  unfoldable pub in_wallet : Exec Wallet A → Exec Platform A
  in_wallet m s = let (r, w) = m s.wallet in (r, record s { wallet = w })
