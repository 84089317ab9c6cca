-- ===== src/Ledger/Ensuring.antt =====
-- What `ensure_account` finds or makes (packages/domain/ledger/src/account.service.ts).
use alice_uprm.Prelude.{
  ℕ, ◌+◌, ◌≤◌, ◌≡◌, refl, sym, ◌∙◌, inl, inr, true, Option, none, some, List, [], ◌∷◌, ◌++◌, arith,
  Option-cases,
}
use mathlib.Core.List.{append-nil}
use alice_uprm.Prelude.Text.{Text, text_eq_self}
use alice_uprm.Prelude.Exec.{ok}
use alice_uprm.Prelude.Rows.{find, find-append_some, find-append_none}
use alice_uprm.Ledger.Types.{AccountType, tenant_cash, type_eq, Account, Ledger}
use alice_uprm.Ledger.Accounts.{owner_eq, is_account, ensure_account}

pub type_eq_self : (t : AccountType) → type_eq t t ≡ true
type_eq_self tenant_cash = refl
type_eq_self _ = refl

pub type_eq→eq : (t u : AccountType) → type_eq t u ≡ true → t ≡ u
type_eq→eq t u h = ground arith

pub owner_eq_self : (o : Option ℕ) → owner_eq o o ≡ true
owner_eq_self o = ground arith

pub owner_eq→eq : (o p : Option ℕ) → owner_eq o p ≡ true → o ≡ p
owner_eq→eq o p h = ground arith

module _ (tenant : ℕ) (type : AccountType) (owner : Option ℕ) (currency : Text) where
  -- The account that these columns select.
  abbrev pub Selects : Ledger → Account → Type 0
  Selects s a = find (is_account tenant type owner currency) s.accounts ≡ some a

  abbrev pub created : Ledger → Account
  created s = record {
    id = s.next_id;
    tenant_id = tenant;
    account_type = type;
    tenant_user_id = owner;
    currency = currency;
    is_active = true;
  }

  pub created-is_account : (s : Ledger) → is_account tenant type owner currency (created s) ≡ true
  unfolding is_account
  created-is_account s =
      ground (arith, type_eq_self type, owner_eq_self owner, text_eq_self currency)

  pub ensure_account_known :
      (s : Ledger) (a : Account)
      → Selects s a
      → ensure_account tenant type owner currency s ≡ (ok a, s)
  unfolding ensure_account
  ensure_account_known s a h = rw (h, ensure_account)

  pub ensure_account_new :
      (s : Ledger)
      → find (is_account tenant type owner currency) s.accounts ≡ none
      → ensure_account tenant type owner currency s ≡ (
        ok (created s),
        record s { accounts = s.accounts ++ created s ∷ []; next_id = s.next_id + 1 },
      )
  unfolding ensure_account
  ensure_account_new s h = rw (h, ensure_account)

  -- The call returns, what it returns is selected from then on, and only `accounts` has grown.
  pub ensure_account_lem :
      (s : Ledger)
      → (a : Account) × (s' : Ledger) × (ensure_account tenant type owner currency s ≡ (ok a, s'))
        × Selects s' a
        × ((rows : List Account) × (s'.accounts ≡ s.accounts ++ rows))
        × (s'.postings ≡ s.postings)
        × (s'.entries ≡ s.entries)
        × (s.next_id ≤ s'.next_id)
  ensure_account_lem s =
      elim (Option-cases (find (is_account tenant type owner currency) s.accounts)) [
        | inr (a, known) ↦ (
          a,
          s,
          ensure_account_known s a known,
          known,
          ([], sym (append-nil _)),
          refl,
          refl,
          omega arith,
        )
        | inl new ↦ (
          created s,
          record s { accounts = s.accounts ++ created s ∷ []; next_id = s.next_id + 1 },
          ensure_account_new s new,
          find-append_none _ s.accounts _ new ∙ rw (created-is_account s),
          (created s ∷ [], refl),
          refl,
          refl,
          omega arith,
        )
      ]

-- A selected account stays selected while accounts are added.
pub Selects-after :
    (tenant : ℕ) (type : AccountType) (owner : Option ℕ) (currency : Text) (t : ℕ) (u : AccountType)
    (o : Option ℕ) (c : Text) (s : Ledger) (a b : Account) (s' : Ledger)
    → Selects tenant type owner currency s a
    → ensure_account t u o c s ≡ (ok b, s')
    → Selects tenant type owner currency s' a × Selects t u o c s' b
Selects-after tenant type owner currency t u o c s a b s' h e =
    let (b', t', e', known, (rows, grown), _, _, _) = ensure_account_lem t u o c s in
    let same : s' ≡ t' = cc in
    let found : b ≡ b' = cc in
    (rw (same, grown) (find-append_some _ s.accounts rows a h), rw (same, found) known)
