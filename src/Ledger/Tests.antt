-- ===== src/Ledger/Tests.antt =====
-- The ledger at concrete inputs, after packages/domain/ledger/src/posting.service.test.ts.
use alice_uprm.Prelude.{◌≡◌, refl, true, false, none, some, [], ◌∷◌}
use alice_uprm.Prelude.Int.{pos, negsuc, ◌+ℤ◌}
use alice_uprm.Prelude.Text.{Text, codes, text_eq}
use alice_uprm.Prelude.Exec.{Error, ok, err}
use alice_uprm.Prelude.Rows.{sum_by}
use alice_uprm.Ledger.Types.{
  tenant_reward_expense, user_balance, tenant_cash, tenant_revenue, payout_payable, Account, Ledger,
  PostEntryInput, empty_ledger, is_valid_currency,
}
use alice_uprm.Ledger.Accounts.{
  is_account, ensure_account, ensure_user_balance_account, provision_tenant_accounts,
}
use alice_uprm.Ledger.Posting.{
  has_key, validate_structure, check_postings, referenced_accounts, post_entry, running_sum,
}
use alice_uprm.Ledger.Sums.{sum_of_entry}
use alice_uprm.Ledger.Outcome.{booked}
use alice_uprm.Ledger.Booked.{IsBooked, post_entry-IsBooked}
use alice_uprm.Ledger.Isolation.{IsIsolated, Grows, post_entry-IsIsolated}
use alice_uprm.Ledger.Retry.{Effect, post_entry_retry, post_entry-Effect, post_entry_race}
use alice_uprm.Ledger.Provision.{
  HasUniqueAccounts, IsSystemAccount, ensure_account-HasUniqueAccounts, provision_retry,
}
use alice_uprm.Ledger.Run.{Run, idle, account, post, IsSound, Run-IsSound}

abbrev credit : Text
credit = codes "credit"

abbrev expense : Account
expense = record {
  id = 0;
  tenant_id = 7;
  account_type = tenant_reward_expense;
  tenant_user_id = none;
  currency = credit;
  is_active = true;
}

abbrev balance : Account
balance = record {
  id = 1;
  tenant_id = 7;
  account_type = user_balance;
  tenant_user_id = some 5;
  currency = credit;
  is_active = true;
}

abbrev start : Ledger
start = record { accounts = expense ∷ balance ∷ []; entries = []; postings = []; next_id = 2 }

abbrev reward : PostEntryInput
reward = record {
  tenant_id = 7;
  currency = credit;
  description = codes "reward";
  idempotency_key = codes "idem-1234";
  source_event_id = some 9;
  postings =
      record { account_id = 0; amount = pos 250 }
      ∷ record { account_id = 1; amount = negsuc 249 }
      ∷ [];
}

abbrev none_else : Ledger → Ledger
none_else s = s

abbrev after : Ledger
after = booked reward start

post-reward : post_entry none_else reward start ≡ (ok (record { id = 2; duplicate = false }), after)
unfolding post_entry is_valid_currency running_sum has_key text_eq ◌+ℤ◌
post-reward = refl

post-unbalanced :
    post_entry none_else
      (record reward {
        postings =
            record { account_id = 0; amount = pos 1000 }
            ∷ record { account_id = 1; amount = pos 500 }
            ∷ [];
      })
      start
    ≡ (err Error.unbalanced_entry, start)
unfolding post_entry is_valid_currency running_sum text_eq ◌+ℤ◌
post-unbalanced = refl

post-cross_tenant :
    post_entry none_else (record reward { tenant_id = 8 }) start
    ≡ (err Error.account_cross_tenant, start)
unfolding post_entry is_valid_currency running_sum has_key text_eq ◌+ℤ◌
post-cross_tenant = refl

ensure-same : ensure_user_balance_account 7 5 credit start ≡ (ok balance, start)
unfolding ensure_user_balance_account ensure_account is_account is_valid_currency text_eq ◌+ℤ◌
ensure-same = refl

start-IsBooked : IsBooked start
unfolding sum_by sum_of_entry
start-IsBooked = record {
  trial_balance = refl;
  entry_balance = λ e. refl;
  posting_ids = tt;
  entry_ids = tt;
  unique_keys = tt;
}

post_entry-IsBooked_example : IsBooked (post_entry none_else reward start).1
post_entry-IsBooked_example =
    post_entry-IsBooked none_else reward start start-IsBooked start-IsBooked

start-Grows : Grows start start
start-Grows = record { accounts_kept = λ i a h. h }

post_entry-IsIsolated_example : IsIsolated (post_entry none_else reward start).1
post_entry-IsIsolated_example =
    post_entry-IsIsolated none_else reward start tt start-IsBooked tt start-Grows

post_entry_retry_example :
    post_entry none_else reward after ≡ (ok (record { id = 2; duplicate = true }), after)
post_entry_retry_example =
    post_entry_retry none_else none_else reward start (record { id = 2; duplicate = false }) after
      post-reward

post_entry-Effect_example : Effect none_else reward start 1 (post_entry none_else reward start)
post_entry-Effect_example = post_entry-Effect none_else reward start 1

reward-validated : validate_structure reward ≡ ok tt
unfolding validate_structure is_valid_currency running_sum text_eq ◌+ℤ◌
reward-validated = refl

reward-checked : check_postings reward (referenced_accounts reward start) reward.postings ≡ ok tt
unfolding check_postings referenced_accounts text_eq ◌+ℤ◌
reward-checked = refl

post_entry_race_example :
    post_entry (λ t. (post_entry (λ u. u) reward t).1) reward start
    ≡ (ok (record { id = 2; duplicate = true }), after)
post_entry_race_example =
    post_entry_race reward reward start (record { id = 2; duplicate = false }) after refl refl
      reward-validated reward-checked post-reward

eur-valid : is_valid_currency (codes "EUR") ≡ true
unfolding is_valid_currency text_eq ◌+ℤ◌
eur-valid = refl

provision_retry_example :
    (cash : Account) × (revenue : Account) × (expense : Account) × (payable : Account)
    × (s' : Ledger) × IsSystemAccount 7 (codes "EUR") s' tenant_cash cash
    × IsSystemAccount 7 (codes "EUR") s' tenant_revenue revenue
    × IsSystemAccount 7 (codes "EUR") s' tenant_reward_expense expense
    × IsSystemAccount 7 (codes "EUR") s' payout_payable payable
    × (provision_tenant_accounts 7 (codes "EUR") start
        ≡ (ok (cash ∷ revenue ∷ expense ∷ payable ∷ []), s'))
    × (provision_tenant_accounts 7 (codes "EUR") s'
        ≡ (ok (cash ∷ revenue ∷ expense ∷ payable ∷ []), s'))
provision_retry_example = provision_retry 7 (codes "EUR") start eur-valid

start-HasUniqueAccounts : HasUniqueAccounts start.accounts
unfolding is_account text_eq ◌+ℤ◌
start-HasUniqueAccounts = (refl, (refl, tt))

ensure_account-HasUniqueAccounts_example :
    HasUniqueAccounts (ensure_account 7 tenant_cash none credit start).1.accounts
ensure_account-HasUniqueAccounts_example =
    ensure_account-HasUniqueAccounts 7 tenant_cash none credit start start-HasUniqueAccounts

-- Two accounts are opened, and the reward is posted while another client posts it too.
abbrev opened : Ledger
opened =
    (ensure_account 7 user_balance (some 5) credit
      (ensure_account 7 tenant_reward_expense none credit empty_ledger).1).1

abbrev rival : Ledger → Ledger
rival s = (post_entry none_else reward s).1

posted_twice : Run empty_ledger (post_entry rival reward opened).1
posted_twice =
    post rival reward
      (account 7 user_balance (some 5) credit
        (account 7 tenant_reward_expense none credit (idle empty_ledger)))
      (post none_else reward (idle opened) (idle opened))

Run-IsSound_example : IsSound (post_entry rival reward opened).1
Run-IsSound_example = Run-IsSound posted_twice
