-- ===== src/Ledger/Accounts.antt =====
-- `AccountService` of packages/domain/ledger/src/account.service.ts.
use alice_uprm.Prelude.{
  ℕ, ◌+◌, Bool, true, false, not, ◌&&◌, Option, none, some, List, [], ◌∷◌, ◌++◌, ◌==◌,
}
use alice_uprm.Prelude.Text.{Text, text_eq}
use alice_uprm.Prelude.Exec.{Error, ok, Exec, pure, ◌>>=◌, ◌>>◌, throw_if}
use alice_uprm.Prelude.Rows.{find}
use alice_uprm.Ledger.Types.{
  AccountType, tenant_cash, tenant_revenue, tenant_reward_expense, payout_payable, user_balance,
  type_eq, Account, Ledger, is_valid_currency,
}

-- `SYSTEM_ACCOUNT_TYPES.includes(t)`
unfoldable pub is_system_account_type : AccountType → Bool
is_system_account_type user_balance = false
is_system_account_type _ = true

abbrev pub owner_eq : Option ℕ → Option ℕ → Bool
owner_eq none none = true
owner_eq (some a) (some b) = a == b
owner_eq _ _ = false

-- The columns that `findFirst` selects by.
unfoldable pub is_account : ℕ → AccountType → Option ℕ → Text → Account → Bool
is_account tenant type owner currency a =
    a.tenant_id == tenant
    && type_eq a.account_type type
    && owner_eq a.tenant_user_id owner
    && text_eq a.currency currency

-- `findFirst`, and `create` where it finds none. `status` is 'active' by default.
unfoldable pub ensure_account : ℕ → AccountType → Option ℕ → Text → Exec Ledger Account
ensure_account tenant type owner currency s =
    elim (find (is_account tenant type owner currency) s.accounts) [
      | some existing ↦ (ok existing, s)
      | none ↦
          let created : Account = record {
            id = s.next_id;
            tenant_id = tenant;
            account_type = type;
            tenant_user_id = owner;
            currency = currency;
            is_active = true;
          } in
          (ok created, record s { accounts = s.accounts ++ created ∷ []; next_id = s.next_id + 1 })
    ]

unfoldable pub ensure_system_account : ℕ → AccountType → Text → Exec Ledger Account
unfolding is_system_account_type
ensure_system_account tenant type currency = do
  throw_if (not (is_system_account_type type)) Error.unknown_account_type
  throw_if (not (is_valid_currency currency)) Error.bad_currency
  ensure_account tenant type none currency

unfoldable pub ensure_user_balance_account : ℕ → ℕ → Text → Exec Ledger Account
ensure_user_balance_account tenant tenant_user currency = do
  throw_if (not (is_valid_currency currency)) Error.bad_currency
  ensure_account tenant user_balance (some tenant_user) currency

unfoldable pub get_account : ℕ → Ledger → Option Account
get_account account_id s = find (λ a. a.id == account_id) s.accounts

-- The standard set, all system types but `platform_fee`.
unfoldable pub provision_tenant_accounts : ℕ → Text → Exec Ledger (List Account)
provision_tenant_accounts tenant currency = do
  cash ← ensure_system_account tenant tenant_cash currency
  revenue ← ensure_system_account tenant tenant_revenue currency
  expense ← ensure_system_account tenant tenant_reward_expense currency
  payable ← ensure_system_account tenant payout_payable currency
  pure (cash ∷ revenue ∷ expense ∷ payable ∷ [])
