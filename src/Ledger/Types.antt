-- ===== src/Ledger/Types.antt =====
-- The tables of the ledger: packages/db/prisma/schema.prisma and the input types of
-- packages/domain/ledger/src/posting.service.ts. Row ids, which are UUIDs that the code only
-- compares, are numbers drawn from a counter.
use alice_uprm.Prelude.{ℕ, Bool, true, false, ◌&&◌, ◌||◌, Option, List, [], ◌∷◌, leb}
use alice_uprm.Prelude.Int.{ℤ}
use alice_uprm.Prelude.Text.{Text, codes, text_eq}

pub data AccountType : Type 0 where
  tenant_cash tenant_revenue tenant_reward_expense payout_payable platform_fee : AccountType
  user_balance : AccountType

abbrev pub type_eq : AccountType → AccountType → Bool
type_eq tenant_cash tenant_cash = true
type_eq tenant_revenue tenant_revenue = true
type_eq tenant_reward_expense tenant_reward_expense = true
type_eq payout_payable payout_payable = true
type_eq platform_fee platform_fee = true
type_eq user_balance user_balance = true
type_eq _ _ = false

pub record Account : Type 0 where
  pub id : ℕ
  pub tenant_id : ℕ
  pub account_type : AccountType
  pub tenant_user_id : Option ℕ
  pub currency : Text
  pub is_active : Bool  -- status === 'active'

pub record Entry : Type 0 where
  pub id : ℕ
  pub tenant_id : ℕ
  pub currency : Text
  pub description : Text
  pub idempotency_key : Text
  pub source_event_id : Option ℕ

pub record Posting : Type 0 where
  pub entry_id : ℕ
  pub account_id : ℕ
  pub amount : ℤ
  pub currency : Text

pub record Ledger : Type 0 where
  pub accounts : List Account
  pub entries : List Entry
  pub postings : List Posting
  pub next_id : ℕ

abbrev pub empty_ledger : Ledger
empty_ledger = record { accounts = []; entries = []; postings = []; next_id = 0 }

pub record PostingInput : Type 0 where
  pub account_id : ℕ
  pub amount : ℤ  -- positive = debit, negative = credit

pub record PostEntryInput : Type 0 where
  pub tenant_id : ℕ
  pub currency : Text
  pub description : Text
  pub idempotency_key : Text
  pub source_event_id : Option ℕ
  pub postings : List PostingInput

pub record PostedEntry : Type 0 where
  pub id : ℕ
  pub duplicate : Bool

-- `/^[A-Z]{3}$/.test(c)`
abbrev is_upper : ℕ → Bool
is_upper c = leb b'A' c && leb c b'Z'

abbrev is_iso_code : Text → Bool
is_iso_code (a ∷ b ∷ c ∷ []) = is_upper a && is_upper b && is_upper c
is_iso_code _ = false

unfoldable pub is_valid_currency : Text → Bool
is_valid_currency c = text_eq c (codes "credit") || is_iso_code c
