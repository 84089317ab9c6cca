-- ===== src/Ledger/Booked.antt =====
-- What every call of `postEntry` keeps (packages/domain/ledger/src/posting.service.ts): balanced
-- entries, ids that were given out, and one entry to a key; and what it does to the balances.
use alice_uprm.Prelude.{
  ℕ, ◌+◌, ◌<◌, ◌≡◌, refl, sym, ◌∙◌, inl, inr, false, none, List, [], ◌∷◌, ◌++◌, arith, ◌==◌,
  Bool-cases, All, All-append, All-imp,
}
use mathlib.Core.Path.{subst}
use alice_uprm.Prelude.Int.{pos, eqb_ℤ→eq, zero-+ℤ}
use alice_uprm.Prelude.Text.{Text, text_eq_self, text_eq_iff}
use alice_uprm.Prelude.Exec.{ok}
use alice_uprm.Prelude.Rows.{find, sum_by, sum_by-append, find-append_none}
use alice_uprm.Ledger.Types.{Entry, Posting, Ledger, PostingInput, PostEntryInput, empty_ledger}
use alice_uprm.Ledger.Posting.{
  running_sum, validate_structure, has_key, find_entry, posting_rows, entry_row, post_entry,
}
use alice_uprm.Ledger.Outcome.{
  booked, malformed, replayed, rejected, raced, posted, post_entry-Outcome,
}
use alice_uprm.Ledger.Sums.{
  sum_of_entry, running_sum-eq-sum, sum_of_entry-append, sum_of_entry-rows_self,
  sum_of_entry-rows_ne,
}

-- No two entries of one tenant have the same idempotency key.
abbrev pub HasUniqueKeys : List Entry → Type 0
HasUniqueKeys [] = Unit
HasUniqueKeys (e ∷ es) = (find (has_key e.tenant_id e.idempotency_key) es ≡ none) × HasUniqueKeys es

pub record IsBooked (s : Ledger) : Type 0 where
  -- the postings of the whole ledger, and those of each entry, sum to zero
  pub trial_balance : sum_by (λ p. p.amount) s.postings ≡ pos 0
  pub entry_balance : (e : ℕ) → sum_of_entry e s.postings ≡ pos 0
  pub posting_ids : All (λ p. p.entry_id < s.next_id) s.postings
  pub entry_ids : All (λ e. e.id < s.next_id) s.entries
  pub unique_keys : HasUniqueKeys s.entries

-- A structure that passes the validation sums to zero.
validate_structure-sum :
    (input : PostEntryInput) (id : ℕ)
    → validate_structure input ≡ ok tt
    → sum_by (λ p. p.amount) (posting_rows id input.currency input.postings) ≡ pos 0
unfolding validate_structure
validate_structure-sum input id h =
    let balanced : running_sum (pos 0) input.postings ≡ pos 0 =
      ground (arith, eqb_ℤ→eq (running_sum (pos 0) input.postings) (pos 0)) in
    sym (zero-+ℤ _) ∙ sym (running_sum-eq-sum (pos 0) id input.currency input.postings) ∙ balanced

posting_rows-ids :
    (id bound : ℕ) (c : Text) (ps : List PostingInput)
    → id < bound
    → All (λ p. p.entry_id < bound) (posting_rows id c ps)
unfolding posting_rows
posting_rows-ids id bound c [] h = tt
posting_rows-ids id bound c (p ∷ ps) h = (h, posting_rows-ids id bound c ps h)

has_key_sym :
    (t : ℕ) (k : Text) (e : Entry)
    → has_key t k e ≡ false
    → (x : Entry) → x.tenant_id ≡ t
    → x.idempotency_key ≡ k
    → has_key e.tenant_id e.idempotency_key x ≡ false
unfolding has_key
has_key_sym t k e h x p q = ground (
  arith,
  text_eq_iff e.idempotency_key k,
  text_eq_iff x.idempotency_key e.idempotency_key,
  text_eq_self k,
)

HasUniqueKeys-append :
    (x : Entry) (es : List Entry)
    → HasUniqueKeys es
    → find (has_key x.tenant_id x.idempotency_key) es ≡ none
    → HasUniqueKeys (es ++ x ∷ [])
HasUniqueKeys-append x [] u h = (refl, tt)
HasUniqueKeys-append x (e ∷ es) u h = elim (Bool-cases (has_key x.tenant_id x.idempotency_key e)) [
  | inl same ↦ absurd (cc (rw same at h))
  | inr other ↦ (
    find-append_none _ es (x ∷ []) u.0
        ∙ ground (arith, has_key_sym x.tenant_id x.idempotency_key e other x refl refl),
    HasUniqueKeys-append x es u.1 (rw other at h),
  )
]

All-below :
    (n : ℕ) (ps : List Posting) → All (λ p. p.entry_id < n) ps → All (λ p. p.entry_id < n + 1) ps
All-below n ps h = All-imp (λ p. p.entry_id < n) (λ p. p.entry_id < n + 1) ps (λ p k. omega arith) h

module _ (input : PostEntryInput) (s : Ledger) (valid : validate_structure input ≡ ok tt) where
  rows_balance :
      IsBooked s
      → (e : ℕ) → sum_of_entry e (posting_rows s.next_id input.currency input.postings) ≡ pos 0
  rows_balance b e = elim (Bool-cases (s.next_id == e)) [
    | inl new ↦
        let same : s.next_id ≡ e = ground arith in
        subst (λ i. sum_of_entry i (posting_rows s.next_id input.currency input.postings) ≡ pos 0)
          same
          (sum_of_entry-rows_self s.next_id input.currency input.postings
            ∙ validate_structure-sum input s.next_id valid)
    | inr old ↦ sum_of_entry-rows_ne e s.next_id input.currency input.postings (ground arith)
  ]

  booked-IsBooked :
      find_entry input.tenant_id input.idempotency_key s ≡ none
      → IsBooked s
      → IsBooked (booked input s)
  unfolding find_entry entry_row
  booked-IsBooked new b = record {
    trial_balance =
        sum_by-append _ s.postings _
        ∙ rw (b.trial_balance, validate_structure-sum input s.next_id valid) (zero-+ℤ (pos 0));
    entry_balance = λ e.
        sum_of_entry-append e s.postings _
        ∙ rw (b.entry_balance e, rows_balance b e) (zero-+ℤ (pos 0));
    posting_ids =
        All-append _ s.postings _ (All-below s.next_id s.postings b.posting_ids)
          (posting_rows-ids s.next_id (s.next_id + 1) input.currency input.postings (omega arith));
    entry_ids =
        All-append _ s.entries _
          (All-imp (λ e. e.id < s.next_id) (λ e. e.id < s.next_id + 1) s.entries
            (λ e k. omega arith) b.entry_ids)
          (omega arith, tt);
    unique_keys = HasUniqueKeys-append (entry_row s.next_id input) s.entries b.unique_keys new;
  }

-- Every call of `postEntry` keeps a ledger booked: the postings of every entry, and of the whole
-- ledger, sum to zero, and no idempotency key of a tenant is used twice. This holds on every path,
-- also where the work `others` of other clients runs between the checks and the transaction,
-- provided that they leave it booked.
pub post_entry-IsBooked :
    (others : Ledger → Ledger) (input : PostEntryInput) (s : Ledger)
    → IsBooked s
    → IsBooked (others s)
    → IsBooked (post_entry others input s).1
post_entry-IsBooked others input s b between = elim (post_entry-Outcome others input s) [
  | malformed e v r ↦ rw r b
  | replayed e v f r ↦ rw r b
  | rejected e v c r ↦ rw r b
  | raced e v f r ↦ rw r between
  | posted v c f r ↦ rw r (booked-IsBooked input (others s) v f between)
]

-- A ledger with no entry is booked.
pub empty-IsBooked : IsBooked empty_ledger
unfolding sum_of_entry sum_by
empty-IsBooked = record {
  trial_balance = refl;
  entry_balance = λ e. refl;
  posting_ids = tt;
  entry_ids = tt;
  unique_keys = tt;
}
