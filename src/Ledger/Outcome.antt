-- ===== src/Ledger/Outcome.antt =====
-- The ways in which `postEntry` of packages/domain/ledger/src/posting.service.ts ends.
use alice_uprm.Prelude.{
  ◌+◌, ◌≡◌, inl, inr, true, false, none, some, [], ◌∷◌, ◌++◌, arith, Option-cases,
}
use alice_uprm.Prelude.Exec.{Result-cases, Error, Result, ok, err}
use alice_uprm.Ledger.Types.{Entry, Ledger, PostEntryInput, PostedEntry}
use alice_uprm.Ledger.Posting.{
  validate_structure, find_entry, check_postings, referenced_accounts, posting_rows, entry_row,
  try_commit, post_new, post_entry,
}

-- The ledger with the rows of one more entry.
abbrev pub booked : PostEntryInput → Ledger → Ledger
booked input s = record s {
  entries = s.entries ++ entry_row s.next_id input ∷ [];
  postings = s.postings ++ posting_rows s.next_id input.currency input.postings;
  next_id = s.next_id + 1;
}

-- The result is one of five, with the tests that led to it.
pub data Outcome (others : Ledger → Ledger) (input : PostEntryInput) (s : Ledger)
    (r : Result PostedEntry × Ledger) : Type 0 where
  malformed :
      (e : Error) → validate_structure input ≡ err e → r ≡ (err e, s) → Outcome others input s r
  replayed :
      (e : Entry)
      → validate_structure input ≡ ok tt
      → find_entry input.tenant_id input.idempotency_key s ≡ some e
      → r ≡ (ok (record { id = e.id; duplicate = true }), s)
      → Outcome others input s r
  rejected :
      (e : Error)
      → validate_structure input ≡ ok tt
      → check_postings input (referenced_accounts input s) input.postings ≡ err e
      → r ≡ (err e, s)
      → Outcome others input s r
  raced :
      (e : Entry)
      → validate_structure input ≡ ok tt
      → find_entry input.tenant_id input.idempotency_key (others s) ≡ some e
      → r ≡ (ok (record { id = e.id; duplicate = true }), others s)
      → Outcome others input s r
  posted :
      validate_structure input ≡ ok tt
      → check_postings input (referenced_accounts input s) input.postings ≡ ok tt
      → find_entry input.tenant_id input.idempotency_key (others s) ≡ none
      → r ≡ (ok (record { id = (others s).next_id; duplicate = false }), booked input (others s))
      → Outcome others input s r

commit_entry_new :
    (input : PostEntryInput) (s : Ledger)
    → find_entry input.tenant_id input.idempotency_key s ≡ none
    → try_commit input s ≡ (ok (record { id = s.next_id; duplicate = false }), booked input s)
unfolding try_commit
commit_entry_new input s h = ground arith

commit_entry_taken :
    (input : PostEntryInput) (s : Ledger) (e : Entry)
    → find_entry input.tenant_id input.idempotency_key s ≡ some e
    → try_commit input s ≡ (ok (record { id = e.id; duplicate = true }), s)
unfolding try_commit
commit_entry_taken input s e h = ground arith

module _ (others : Ledger → Ledger) (input : PostEntryInput) (s : Ledger) where
  post_new-Outcome :
      validate_structure input ≡ ok tt → Outcome others input s (post_new others input s)
  unfolding post_new
  post_new-Outcome v =
      elim (Result-cases (check_postings input (referenced_accounts input s) input.postings)) [
        | inr (e, c) ↦ Outcome.rejected e v c (rw c)
        | inl (_, c) ↦
            elim (Option-cases (find_entry input.tenant_id input.idempotency_key (others s))) [
              | inl new ↦ Outcome.posted v c new (rw c (commit_entry_new input (others s) new))
              | inr (e, taken) ↦
                  Outcome.raced e v taken (rw c (commit_entry_taken input (others s) e taken))
            ]
      ]

  -- Every call ends in one of these ways.
  pub post_entry-Outcome : Outcome others input s (post_entry others input s)
  unfolding post_entry
  post_entry-Outcome = elim (Result-cases (validate_structure input)) [
    | inr (e, v) ↦ Outcome.malformed e v (rw v)
    | inl (_, v) ↦ elim (Option-cases (find_entry input.tenant_id input.idempotency_key s)) [
      | inr (e, found) ↦ Outcome.replayed e v found (rw (v, found))
      | inl absent ↦ rw (v, absent) (post_new-Outcome v)
    ]
  ]
