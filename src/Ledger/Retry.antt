-- ===== src/Ledger/Retry.antt =====
-- Idempotency of `postEntry` (packages/domain/ledger/src/posting.service.ts): retries and races.
use alice_uprm.Prelude.{
  ℕ, ◌≡◌, refl, ap, ◌∙◌, ◌⊎◌, inl, inr, true, none, some, arith, if◌then◌else◌,
}
use alice_uprm.Prelude.Int.{◌+ℤ◌}
use alice_uprm.Prelude.Text.{text_eq_self}
use alice_uprm.Prelude.Exec.{Result, ok, err}
use alice_uprm.Prelude.Rows.{find-append_none}
use alice_uprm.Ledger.Types.{Entry, Ledger, PostEntryInput, PostedEntry}
use alice_uprm.Ledger.Posting.{
  validate_structure, has_key, find_entry, check_postings, referenced_accounts, entry_row,
  post_entry,
}
use alice_uprm.Ledger.Balance.{sum_of_account}
use alice_uprm.Ledger.Sums.{requested, sum_of_account-append, sum_of_account-rows}
use alice_uprm.Ledger.Outcome.{
  booked, malformed, replayed, rejected, raced, posted, post_entry-Outcome,
}

find_entry-booked :
    (input : PostEntryInput) (s : Ledger)
    → find_entry input.tenant_id input.idempotency_key s ≡ none
    → find_entry input.tenant_id input.idempotency_key (booked input s)
      ≡ some (entry_row s.next_id input)
unfolding find_entry has_key entry_row
find_entry-booked input s h =
    find-append_none _ s.entries _ h ∙ ground (arith, text_eq_self input.idempotency_key)

module _ (others : Ledger → Ledger) (input : PostEntryInput) (s : Ledger) where
  post_entry_known :
      (e : Entry)
      → validate_structure input ≡ ok tt
      → find_entry input.tenant_id input.idempotency_key s ≡ some e
      → post_entry others input s ≡ (ok (record { id = e.id; duplicate = true }), s)
  unfolding post_entry
  post_entry_known e v f = rw (v, f)

-- After a call that returned, the entry is in the ledger under its key.
module _ (others : Ledger → Ledger) (input : PostEntryInput) (s : Ledger) where
  entry_after :
      (p : PostedEntry) (s' : Ledger)
      → post_entry others input s ≡ (ok p, s')
      → (validate_structure input ≡ ok tt)
        × (e : Entry) × (find_entry input.tenant_id input.idempotency_key s' ≡ some e)
        × (e.id ≡ p.id)
  unfolding entry_row
  entry_after p s' h = elim (post_entry-Outcome others input s) [
    | malformed e v r ↦ absurd (cc)
    | rejected e v c r ↦ absurd (cc)
    | replayed e v f r ↦ (v, e, cc, cc)
    | raced e v f r ↦ (v, e, cc, cc)
    | posted v c f r ↦
        (v, entry_row (others s).next_id input, cc (find_entry-booked input (others s) f), cc)
  ]

-- A retry of a call that returned gives the same entry back, marked as a duplicate, and changes
-- nothing, whatever other clients do in either call.
pub post_entry_retry :
    (others later : Ledger → Ledger) (input : PostEntryInput) (s : Ledger) (p : PostedEntry)
    (s' : Ledger)
    → post_entry others input s ≡ (ok p, s')
    → post_entry later input s' ≡ (ok (record { id = p.id; duplicate = true }), s')
post_entry_retry others later input s p s' h =
    let (v, e, f, same) = entry_after others input s p s' h in
    rw (← same) (post_entry_known later input s' e v f)

-- What a call does to the postings, by how it ended: a new entry adds to each account what the
-- input asks for it, and any other ending writes nothing of its own.
abbrev pub Effect :
    (Ledger → Ledger) → PostEntryInput → Ledger → ℕ → Result PostedEntry × Ledger → Type 0
Effect others input s a (err e, s') = s' ≡ s
Effect others input s a (ok p, s') =
    if p.duplicate
    then (s' ≡ s) ⊎ (s' ≡ others s)
    else sum_of_account a s'.postings
      ≡ sum_of_account a (others s).postings +ℤ requested a input.postings

-- The balance of every account moves by exactly what the input asks for it if the entry is new; a
-- call that throws, or finds the key used, books nothing.
pub post_entry-Effect :
    (others : Ledger → Ledger) (input : PostEntryInput) (s : Ledger) (a : ℕ)
    → Effect others input s a (post_entry others input s)
post_entry-Effect others input s a = elim (post_entry-Outcome others input s) [
  | malformed e v r ↦ rw r refl
  | replayed e v f r ↦ rw r (inl refl)
  | rejected e v c r ↦ rw r refl
  | raced e v f r ↦ rw r (inr refl)
  | posted v c f r ↦ rw r (
      sum_of_account-append a (others s).postings _
      ∙ rw (sum_of_account-rows a (others s).next_id input.currency input.postings))
]

-- Two clients post under one key, and the second has passed its own checks when the first commits:
-- the second gets the entry of the first, and the ledger is as the first left it.
pub post_entry_race :
    (first input : PostEntryInput) (s : Ledger) (p : PostedEntry) (s' : Ledger)
    → first.tenant_id ≡ input.tenant_id
    → first.idempotency_key ≡ input.idempotency_key
    → validate_structure input ≡ ok tt
    → check_postings input (referenced_accounts input s) input.postings ≡ ok tt
    → post_entry (λ t. t) first s ≡ (ok p, s')
    → post_entry (λ t. (post_entry (λ u. u) first t).1) input s
      ≡ (ok (record { id = p.id; duplicate = true }), s')
unfolding find_entry
post_entry_race first input s p s' st sk v c h =
    let (fv, e, f, same) = entry_after (λ t. t) first s p s' h in
    let left : (post_entry (λ u. u) first s).1 ≡ s' = cc in
    let found : find_entry input.tenant_id input.idempotency_key s' ≡ some e = rw (← st, ← sk) f in
    elim (post_entry-Outcome (λ t. (post_entry (λ u. u) first t).1) input s) [
      | malformed x w r ↦ absurd (cc)
      | rejected x w k r ↦ absurd (cc)
      | replayed x w g r ↦
          let known : find_entry first.tenant_id first.idempotency_key s ≡ some x = rw (st, sk) g in
          cc (r, h, post_entry_known (λ t. t) first s x fv known)
      | raced x w g r ↦
          let won : x ≡ e = cc (left, g, found) in cc (r, left, ap (λ (y : Entry). y.id) won, same)
      | posted w k g r ↦ absurd (cc)
    ]
