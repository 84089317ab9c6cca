-- ===== src/Ledger/Provision.antt =====
-- Accounts are created once (packages/domain/ledger/src/account.service.ts).
use alice_uprm.Prelude.{
  ℕ, ◌≡◌, refl, ◌∙◌, inl, inr, true, false, Option, none, List, [], ◌∷◌, ◌++◌, arith, Bool-cases,
  Option-cases,
}
use alice_uprm.Prelude.Text.{Text, text_eq_self, text_eq_iff}
use alice_uprm.Prelude.Exec.{ok, pure, ◌>>=◌}
use alice_uprm.Prelude.Rows.{find, find-append_none, find-passes, find-All, Has, All-Has}
use alice_uprm.Ledger.Types.{
  AccountType, tenant_cash, tenant_revenue, tenant_reward_expense, payout_payable, Account, Ledger,
  is_valid_currency,
}
use alice_uprm.Ledger.Accounts.{
  is_account, is_system_account_type, ensure_account, ensure_system_account,
  provision_tenant_accounts,
}
use alice_uprm.Ledger.Ensuring.{
  type_eq_self, type_eq→eq, owner_eq_self, owner_eq→eq, Selects-after, Selects,
  ensure_account_known, ensure_account_new, ensure_account_lem,
}

-- No two accounts agree on tenant, type, owner and currency.
abbrev pub HasUniqueAccounts : List Account → Type 0
HasUniqueAccounts [] = Unit
HasUniqueAccounts (a ∷ rows) =
    (find (is_account a.tenant_id a.account_type a.tenant_user_id a.currency) rows ≡ none)
    × HasUniqueAccounts rows

is_account_sym :
    (a x : Account)
    → is_account x.tenant_id x.account_type x.tenant_user_id x.currency a ≡ false
    → is_account a.tenant_id a.account_type a.tenant_user_id a.currency x ≡ false
unfolding is_account
is_account_sym a x h = ground (
  arith,
  type_eq→eq x.account_type a.account_type,
  type_eq_self x.account_type,
  type_eq_self a.account_type,
  owner_eq→eq x.tenant_user_id a.tenant_user_id,
  owner_eq_self a.tenant_user_id,
  text_eq_iff x.currency a.currency,
  text_eq_self a.currency,
)

HasUniqueAccounts-append :
    (x : Account) (rows : List Account)
    → HasUniqueAccounts rows
    → find (is_account x.tenant_id x.account_type x.tenant_user_id x.currency) rows ≡ none
    → HasUniqueAccounts (rows ++ x ∷ [])
HasUniqueAccounts-append x [] u h = (refl, tt)
HasUniqueAccounts-append x (a ∷ rows) u h =
    elim (Bool-cases (is_account x.tenant_id x.account_type x.tenant_user_id x.currency a)) [
      | inl same ↦ absurd (cc (rw same at h))
      | inr other ↦ (
        find-append_none _ rows (x ∷ []) u.0 ∙ rw (is_account_sym a x other),
        HasUniqueAccounts-append x rows u.1 (rw other at h),
      )
    ]

-- `ensureSystemAccount` and `ensureUserBalanceAccount` go through this: no call makes a second
-- account with the same tenant, type, owner and currency.
pub ensure_account-HasUniqueAccounts :
    (tenant : ℕ) (type : AccountType) (owner : Option ℕ) (currency : Text) (s : Ledger)
    → HasUniqueAccounts s.accounts
    → HasUniqueAccounts (ensure_account tenant type owner currency s).1.accounts
ensure_account-HasUniqueAccounts tenant type owner currency s u =
    elim (Option-cases (find (is_account tenant type owner currency) s.accounts)) [
      | inr (a, known) ↦ rw (ensure_account_known tenant type owner currency s a known) u
      | inl new ↦
          rw (ensure_account_new tenant type owner currency s new)
            (HasUniqueAccounts-append _ s.accounts u new)
    ]

module _ (tenant : ℕ) (currency : Text) (valid : is_valid_currency currency ≡ true) where
  system_account :
      (type : AccountType) (s : Ledger)
      → is_system_account_type type ≡ true
      → ensure_system_account tenant type currency s ≡ ensure_account tenant type none currency s
  unfolding ensure_system_account
  system_account type s h = rw (h, valid)

  provision-eq :
      (s : Ledger)
      → provision_tenant_accounts tenant currency s
        ≡ (do
          cash ← ensure_account tenant tenant_cash none currency
          revenue ← ensure_account tenant tenant_revenue none currency
          expense ← ensure_account tenant tenant_reward_expense none currency
          payable ← ensure_account tenant payout_payable none currency
          pure (cash ∷ revenue ∷ expense ∷ payable ∷ []))
            s
  unfolding provision_tenant_accounts ensure_system_account is_system_account_type
  provision-eq s = rw valid

-- Four calls that return, one after the other.
provision_chain :
    (tenant : ℕ) (currency : Text) (valid : is_valid_currency currency ≡ true) (a b c d : Account)
    (s s1 s2 s3 s4 : Ledger)
    → ensure_account tenant tenant_cash none currency s ≡ (ok a, s1)
    → ensure_account tenant tenant_revenue none currency s1 ≡ (ok b, s2)
    → ensure_account tenant tenant_reward_expense none currency s2 ≡ (ok c, s3)
    → ensure_account tenant payout_payable none currency s3 ≡ (ok d, s4)
    → provision_tenant_accounts tenant currency s ≡ (ok (a ∷ b ∷ c ∷ d ∷ []), s4)
provision_chain tenant currency valid a b c d s s1 s2 s3 s4 e1 e2 e3 e4 =
    provision-eq tenant currency valid s ∙ ground (arith, e1, e2, e3, e4)

-- `a` stands in the table, as the tenant's own account of that type and currency.
abbrev pub IsSystemAccount : ℕ → Text → Ledger → AccountType → Account → Type 0
IsSystemAccount tenant currency s type a =
    Has a s.accounts
    × (a.tenant_id ≡ tenant)
    × (a.account_type ≡ type)
    × (a.tenant_user_id ≡ none)
    × (a.currency ≡ currency)

Selects-IsSystemAccount :
    (tenant : ℕ) (currency : Text) (s : Ledger) (type : AccountType) (a : Account)
    → Selects tenant type none currency s a
    → IsSystemAccount tenant currency s type a
unfolding is_account
Selects-IsSystemAccount tenant currency s type a h =
    let passes = find-passes (is_account tenant type none currency) s.accounts a h in
    (
      find-All (λ x. Has x s.accounts) _ s.accounts a (All-Has s.accounts) h,
      ground (arith, passes),
      ground (arith, passes, type_eq→eq a.account_type type),
      ground (arith, passes, owner_eq→eq a.tenant_user_id none),
      ground (arith, passes, text_eq_iff a.currency currency),
    )

-- In a valid currency, provisioning a tenant returns the four accounts `cash`, `revenue`, `expense` and
-- `payable`: each stands in the table, belongs to the tenant and to no user, and is of its own type and
-- of the currency. Provisioning it again returns the same accounts and changes nothing.
pub provision_retry :
    (tenant : ℕ) (currency : Text) (s : Ledger)
    → is_valid_currency currency ≡ true
    → (cash : Account) × (revenue : Account) × (expense : Account) × (payable : Account)
      × (s' : Ledger) × IsSystemAccount tenant currency s' tenant_cash cash
      × IsSystemAccount tenant currency s' tenant_revenue revenue
      × IsSystemAccount tenant currency s' tenant_reward_expense expense
      × IsSystemAccount tenant currency s' payout_payable payable
      × (provision_tenant_accounts tenant currency s
          ≡ (ok (cash ∷ revenue ∷ expense ∷ payable ∷ []), s'))
      × (provision_tenant_accounts tenant currency s'
          ≡ (ok (cash ∷ revenue ∷ expense ∷ payable ∷ []), s'))
provision_retry tenant currency s valid =
    let (a, s1, e1, k1, _, _, _, _) = ensure_account_lem tenant tenant_cash none currency s in
    let (b, s2, e2, k2, _, _, _, _) = ensure_account_lem tenant tenant_revenue none currency s1 in
    let (c, s3, e3, k3, _, _, _, _) =
      ensure_account_lem tenant tenant_reward_expense none currency s2 in
    let (d, s4, e4, k4, _, _, _, _) = ensure_account_lem tenant payout_payable none currency s3 in
    let (a2, b2) =
      Selects-after tenant tenant_cash none currency tenant tenant_revenue none currency s1 a b s2
        k1 e2 in
    let (a3, _) =
      Selects-after tenant tenant_cash none currency tenant tenant_reward_expense none currency s2 a
        c s3 a2 e3 in
    let (a4, _) =
      Selects-after tenant tenant_cash none currency tenant payout_payable none currency s3 a d s4
        a3 e4 in
    let (b3, c3) =
      Selects-after tenant tenant_revenue none currency tenant tenant_reward_expense none currency
        s2 b c s3 b2 e3 in
    let (b4, _) =
      Selects-after tenant tenant_revenue none currency tenant payout_payable none currency s3 b d
        s4 b3 e4 in
    let (c4, d4) =
      Selects-after tenant tenant_reward_expense none currency tenant payout_payable none currency
        s3 c d s4 c3 e4 in
    (
      a,
      b,
      c,
      d,
      s4,
      Selects-IsSystemAccount tenant currency s4 tenant_cash a a4,
      Selects-IsSystemAccount tenant currency s4 tenant_revenue b b4,
      Selects-IsSystemAccount tenant currency s4 tenant_reward_expense c c4,
      Selects-IsSystemAccount tenant currency s4 payout_payable d d4,
      provision_chain tenant currency valid a b c d s s1 s2 s3 s4 e1 e2 e3 e4,
      provision_chain tenant currency valid a b c d s4 s4 s4 s4 s4
          (ensure_account_known tenant tenant_cash none currency s4 a a4)
          (ensure_account_known tenant tenant_revenue none currency s4 b b4)
          (ensure_account_known tenant tenant_reward_expense none currency s4 c c4)
          (ensure_account_known tenant payout_payable none currency s4 d d4),
    )
