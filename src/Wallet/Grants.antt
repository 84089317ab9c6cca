-- ===== src/Wallet/Grants.antt =====
-- `WalletGrantService`, `WalletAccountService` and `WalletBalanceService` of
-- packages/domain/wallet/src. `now` is the database's clock at the insertion.
use alice_uprm.Prelude.{ℕ, ◌+◌, Bool, false, ◌&&◌, Option, none, some, List, [], ◌∷◌, ◌++◌, ◌==◌}
use alice_uprm.Prelude.Int.{ℤ, pos, leb_ℤ, ltb_ℤ, eqb_ℤ}
use alice_uprm.Prelude.Text.{Text, codes, text_eq}
use alice_uprm.Prelude.Exec.{Error, ok, err, Exec, ◌>>◌, throw_if}
use alice_uprm.Prelude.Rows.{find, filter, sum_by}
use alice_uprm.Prelude.Keyed.{by_id, update_id}
use alice_uprm.Wallet.Types.{WalletAccount, WalletGrant, Wallet, CreateWalletGrantInput}
use alice_uprm.Wallet.Allocation.{sort_by_date}

unfoldable pub grant_row : ℕ → ℕ → CreateWalletGrantInput → WalletGrant
grant_row id now input = record {
  id = id;
  wallet_account_id = input.wallet_account_id;
  issuer_tenant_id = input.issuer_tenant_id;
  source_tenant_user_id = input.source_tenant_user_id;
  origin_type = input.origin_type;
  source_event_id = input.source_event_id;
  source_reference_type = input.source_reference_type;
  source_reference_id = input.source_reference_id;
  amount_issued = input.amount;
  amount_remaining = input.amount;
  fx_quote_id = input.fx_quote_id;
  expires_at = input.expires_at;
  created_at = now;
}

unfoldable pub insert_grant : ℕ → CreateWalletGrantInput → Exec Wallet WalletGrant
insert_grant now input w = (
  ok (grant_row w.next_id now input),
  record w { grants = w.grants ++ grant_row w.next_id now input ∷ []; next_id = w.next_id + 1 },
)

unfoldable pub create_grant : ℕ → CreateWalletGrantInput → Exec Wallet WalletGrant
unfolding insert_grant
create_grant now input = do
  throw_if (leb_ℤ input.amount (pos 0)) Error.amount_not_positive
  insert_grant now input

-- `recordDelta` inserts negative amounts too.
unfoldable pub record_delta : ℕ → CreateWalletGrantInput → Exec Wallet WalletGrant
unfolding insert_grant
record_delta now input = do
  throw_if (eqb_ℤ input.amount (pos 0)) Error.amount_zero
  insert_grant now input

unfoldable pub is_available : ℕ → WalletGrant → Bool
is_available account g = g.wallet_account_id == account && ltb_ℤ (pos 0) g.amount_remaining

unfoldable pub list_available_grants : ℕ → Wallet → List WalletGrant
list_available_grants account w = sort_by_date (filter (is_available account) w.grants)

unfoldable pub is_wallet_of : ℕ → Text → WalletAccount → Bool
is_wallet_of user currency a = a.user_id == user && text_eq a.currency currency

unfoldable pub ensure_wallet_account : ℕ → Exec Wallet WalletAccount
ensure_wallet_account user w = elim (find (is_wallet_of user (codes "credit")) w.accounts) [
  | some existing ↦ (ok existing, w)
  | none ↦
      let created : WalletAccount = record {
        id = w.next_id;
        user_id = user;
        currency = codes "credit";
        status = codes "active";
      } in
      (ok created, record w { accounts = w.accounts ++ created ∷ []; next_id = w.next_id + 1 })
]

unfoldable pub get_account_by_user : ℕ → Text → Wallet → Option WalletAccount
get_account_by_user user currency w = find (is_wallet_of user currency) w.accounts

-- `aggregate({ where: { walletAccountId }, _sum: { amountRemaining } })`
unfoldable pub wallet_balance : ℕ → Wallet → ℤ
wallet_balance account w =
    sum_by (λ g. g.amount_remaining) (filter (λ g. g.wallet_account_id == account) w.grants)

unfoldable pub user_wallet_balance : ℕ → Wallet → ℤ
unfolding get_account_by_user
user_wallet_balance user w = elim (get_account_by_user user (codes "credit") w) [
  | none ↦ pos 0
  | some a ↦ wallet_balance a.id w
]

abbrev issuer_eq : Option ℕ → ℕ → Bool
issuer_eq none t = false
issuer_eq (some i) t = i == t

unfoldable pub issuer_balance : ℕ → ℕ → Wallet → ℤ
issuer_balance account issuer w =
    sum_by (λ g. g.amount_remaining)
      (filter (λ g. g.wallet_account_id == account && issuer_eq g.issuer_tenant_id issuer) w.grants)

-- `walletGrant.update({ where: { id }, data: { amountRemaining: { decrement } } })`; Prisma throws
-- where no row has the id.
unfoldable pub with_remaining : (ℤ → ℤ) → WalletGrant → WalletGrant
with_remaining f g = record g { amount_remaining = f g.amount_remaining }

unfoldable pub change_remaining : ℕ → (ℤ → ℤ) → Exec Wallet (Unit {0})
change_remaining id f w = elim (by_id (λ g. g.id) id w.grants) [
  | none ↦ (err Error.record_not_found, w)
  | some _ ↦ (ok tt, record w { grants = update_id (λ g. g.id) id (with_remaining f) w.grants })
]
