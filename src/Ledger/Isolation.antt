-- ===== src/Ledger/Isolation.antt =====
-- Tenant and currency isolation of the ledger (the account checks of `postEntry`,
-- packages/domain/ledger/src/posting.service.ts).
use alice_uprm.Prelude.{
  ℕ, ◌<◌, ◌≡◌, refl, sym, ◌∙◌, inl, inr, true, Option, none, some, List, [], ◌∷◌, ◌++◌, map, arith,
  ◌==◌, Option-cases, All, All-append, All-imp, All-imp₂,
}
use alice_uprm.Prelude.Text.{text_eq_iff}
use alice_uprm.Prelude.Exec.{ok}
use alice_uprm.Prelude.Rows.{find, member, find-append_some, find-append_none, find-filter}
use alice_uprm.Ledger.Types.{Account, Entry, Posting, Ledger, PostingInput, PostEntryInput}
use alice_uprm.Ledger.Posting.{
  check_posting, check_postings, referenced_accounts, posting_rows, entry_row, post_entry,
}
use alice_uprm.Ledger.Outcome.{
  booked, malformed, replayed, rejected, raced, posted, post_entry-Outcome,
}
use alice_uprm.Ledger.Booked.{IsBooked}

abbrev pub account_by_id : ℕ → List Account → Option Account
account_by_id i rows = find (λ a. a.id == i) rows

abbrev pub entry_by_id : ℕ → List Entry → Option Entry
entry_by_id i rows = find (λ e. e.id == i) rows

-- The account of a posting belongs to the tenant of its entry, in the currency of the entry.
abbrev pub IsOwned : List Account → List Entry → Posting → Type 0
IsOwned accs es p =
    (a : Account) × (e : Entry) × (account_by_id p.account_id accs ≡ some a)
    × (entry_by_id p.entry_id es ≡ some e)
    × (a.tenant_id ≡ e.tenant_id)
    × (a.currency ≡ e.currency)
    × (p.currency ≡ e.currency)

abbrev pub IsIsolated : Ledger → Type 0
IsIsolated s = All (IsOwned s.accounts s.entries) s.postings

-- What the check of one posting establishes.
abbrev IsUsable : PostEntryInput → List Account → PostingInput → Type 0
IsUsable input accs p =
    (a : Account) × (account_by_id p.account_id accs ≡ some a)
    × (a.tenant_id ≡ input.tenant_id)
    × (a.currency ≡ input.currency)
    × (a.is_active ≡ true)

check_posting-IsUsable :
    (input : PostEntryInput) (accs : List Account) (p : PostingInput)
    → check_posting input accs p ≡ ok tt
    → IsUsable input accs p
unfolding check_posting
check_posting-IsUsable input accs p h = elim (Option-cases (account_by_id p.account_id accs)) [
  | inl absent ↦ absurd (ground arith)
  | inr (a, found) ↦
      (a, found, ground arith, ground (arith, text_eq_iff a.currency input.currency), ground arith)
]

check_postings-IsUsable :
    (input : PostEntryInput) (accs : List Account) (ps : List PostingInput)
    → check_postings input accs ps ≡ ok tt
    → All (IsUsable input accs) ps
unfolding check_postings
check_postings-IsUsable input accs [] h = tt
check_postings-IsUsable input accs (p ∷ ps) h = (
  check_posting-IsUsable input accs p (ground arith),
  check_postings-IsUsable input accs ps (ground arith),
)

-- The ids that the code looks up are those of the postings, so it finds what the table has.
IsUsable-referenced :
    (input : PostEntryInput) (s : Ledger) (p : PostingInput)
    → member p.account_id (map (λ q. q.account_id) input.postings) ≡ true
    → IsUsable input (referenced_accounts input s) p
    → IsUsable input s.accounts p
unfolding referenced_accounts
IsUsable-referenced input s p m (a, found, t, c, active) = (
  a,
  sym (
        find-filter (λ x. x.id == p.account_id) _ s.accounts
          (λ x e. let same : x.id ≡ p.account_id = ground arith in rw same m))
      ∙ found,
  t,
  c,
  active,
)

members :
    (ps : List PostingInput) → All (λ p. member p.account_id (map (λ q. q.account_id) ps) ≡ true) ps
members [] = tt
members (p ∷ ps) = (ground arith, All-imp _ _ ps (λ q h. ground (arith, h)) (members ps))

-- The accounts that a new entry names are the tenant's own, active, and in the entry's currency.
checked-IsUsable :
    (input : PostEntryInput) (s : Ledger)
    → check_postings input (referenced_accounts input s) input.postings ≡ ok tt
    → All (IsUsable input s.accounts) input.postings
checked-IsUsable input s c =
    All-imp₂ _ _ _ input.postings (λ p m u. IsUsable-referenced input s p m u)
      (members input.postings) (check_postings-IsUsable input _ input.postings c)

-- Rows are never taken out of the two tables that a posting refers to.
pub record Grows (s t : Ledger) : Type 0 where
  pub accounts_kept :
      (i : ℕ) (a : Account)
      → account_by_id i s.accounts ≡ some a
      → account_by_id i t.accounts ≡ some a

fresh_entry : (n : ℕ) (es : List Entry) → All (λ e. e.id < n) es → entry_by_id n es ≡ none
fresh_entry n [] h = refl
fresh_entry n (e ∷ es) h = ground (arith, fresh_entry n es h.1)

module _ (input : PostEntryInput) (s : Ledger) where
  row_entry :
      IsBooked s
      → entry_by_id s.next_id (s.entries ++ entry_row s.next_id input ∷ [])
        ≡ some (entry_row s.next_id input)
  unfolding entry_row
  row_entry b =
      find-append_none _ s.entries _ (fresh_entry s.next_id s.entries b.entry_ids) ∙ ground arith

  rows-IsOwned :
      IsBooked s
      → (ps : List PostingInput) → All (IsUsable input s.accounts) ps
      → All
          (IsOwned s.accounts (s.entries ++ entry_row s.next_id input ∷ []))
          (posting_rows s.next_id input.currency ps)
  unfolding posting_rows entry_row
  rows-IsOwned b [] u = tt
  rows-IsOwned b (p ∷ ps) u =
      let (a, found, tenant, currency, _) = u.0 in
      (
        (a, entry_row s.next_id input, found, row_entry b, tenant, currency, refl),
        rows-IsOwned b ps u.1,
      )

  booked-IsIsolated :
      IsBooked s
      → All (IsUsable input s.accounts) input.postings
      → IsIsolated s
      → IsIsolated (booked input s)
  booked-IsIsolated b u h =
      All-append _ s.postings _
        (All-imp (IsOwned s.accounts s.entries) _ s.postings
          (λ p (a, e, fa, fe, t, c, d). (a, e, fa, find-append_some _ s.entries _ e fe, t, c, d)) h)
        (rows-IsOwned b input.postings u)

-- Every call of `postEntry` keeps the ledger isolated: each posting names an account of the tenant
-- of its entry, in the currency of the entry. Other clients may commit in between, if they leave
-- the ledger booked and isolated and take no account away.
pub post_entry-IsIsolated :
    (others : Ledger → Ledger) (input : PostEntryInput) (s : Ledger)
    → IsIsolated s
    → IsBooked (others s)
    → IsIsolated (others s)
    → Grows s (others s)
    → IsIsolated (post_entry others input s).1
post_entry-IsIsolated others input s h b isolated grows = elim (post_entry-Outcome others input s) [
  | malformed e v r ↦ rw r h
  | replayed e v f r ↦ rw r h
  | rejected e v c r ↦ rw r h
  | raced e v f r ↦ rw r isolated
  | posted v c f r ↦ rw r (
      booked-IsIsolated input (others s) b
        (All-imp (IsUsable input s.accounts) _ input.postings
          (λ p (a, found, t, d, active).
            (a, grows.accounts_kept p.account_id a found, t, d, active))
          (checked-IsUsable input s c))
        isolated)
]
