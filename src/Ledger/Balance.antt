-- ===== src/Ledger/Balance.antt =====
-- `BalanceService` of packages/domain/ledger/src/balance.service.ts.
use alice_uprm.Prelude.{ℕ, Option, none, some, List, ◌==◌}
use alice_uprm.Prelude.Int.{ℤ}
use alice_uprm.Prelude.Text.{Text}
use alice_uprm.Prelude.Rows.{find, filter, sum_by}
use alice_uprm.Ledger.Types.{Account, AccountType, Posting, Ledger, user_balance}
use alice_uprm.Ledger.Accounts.{is_account, get_account}

-- `aggregate({ where: { accountId }, _sum: { amount } }) ?? 0n`
unfoldable pub sum_of_account : ℕ → List Posting → ℤ
sum_of_account account_id ps = sum_by (λ p. p.amount) (filter (λ p. p.account_id == account_id) ps)

pub record AccountBalance : Type 0 where
  pub account_id : ℕ
  pub account_type : AccountType
  pub currency : Text
  pub tenant_user_id : Option ℕ
  pub balance : ℤ

unfoldable pub balance_of : Ledger → Account → AccountBalance
balance_of s a = record {
  account_id = a.id;
  account_type = a.account_type;
  currency = a.currency;
  tenant_user_id = a.tenant_user_id;
  balance = sum_of_account a.id s.postings;
}

unfoldable pub get_account_balance : ℕ → Ledger → Option AccountBalance
unfolding get_account balance_of
get_account_balance account_id s = elim (get_account account_id s) [
  | none ↦ none
  | some a ↦ some (balance_of s a)
]

unfoldable pub get_user_balance : ℕ → ℕ → Text → Ledger → Option AccountBalance
unfolding is_account
get_user_balance tenant tenant_user currency s =
    elim (find (is_account tenant user_balance (some tenant_user) currency) s.accounts) [
      | none ↦ none
      | some a ↦ get_account_balance a.id s
    ]
