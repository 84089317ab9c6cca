-- ===== src/Ledger/Posting.antt =====
-- `PostingService` of packages/domain/ledger/src/posting.service.ts. The amounts are bigints by
-- their type. `others` is what other clients commit between the checks and the transaction.
use alice_uprm.Prelude.{
  ℕ, ◌+◌, Bool, true, false, not, ◌&&◌, Option, none, some, List, [], ◌∷◌, ◌++◌, map, ltb, ◌==◌,
  if◌then◌else◌, length,
}
use alice_uprm.Prelude.Int.{ℤ, pos, ◌+ℤ◌, eqb_ℤ}
use alice_uprm.Prelude.Text.{Text, text_eq}
use alice_uprm.Prelude.Exec.{
  Error, Result, ok, err, Exec, pure, gets, lift, transaction, ◌>>=◌, ◌>>◌, modify,
}
use alice_uprm.Prelude.Rows.{find, filter, member}
use alice_uprm.Ledger.Types.{
  Account, Entry, Posting, Ledger, PostingInput, PostEntryInput, PostedEntry, is_valid_currency,
}

-- `sum += p.amount`
unfoldable pub running_sum : ℤ → List PostingInput → ℤ
running_sum sum [] = sum
running_sum sum (p ∷ ps) = running_sum (sum +ℤ p.amount) ps

unfoldable pub validate_structure : PostEntryInput → Result (Unit {0})
validate_structure input =
    if not (is_valid_currency input.currency)
    then err Error.bad_currency
    else if ltb (length input.idempotency_key) 8
    then err Error.bad_idempotency_key
    else if ltb (length input.postings) 2
    then err Error.too_few_postings
    else if eqb_ℤ (running_sum (pos 0) input.postings) (pos 0)
    then ok tt
    else err Error.unbalanced_entry

-- The columns of the unique index (tenantId, idempotencyKey).
unfoldable pub has_key : ℕ → Text → Entry → Bool
has_key tenant key e = e.tenant_id == tenant && text_eq e.idempotency_key key

unfoldable pub find_entry : ℕ → Text → Ledger → Option Entry
find_entry tenant key s = find (has_key tenant key) s.entries

-- The body of the loop over the postings: ownership, currency and status of the account.
unfoldable pub check_posting : PostEntryInput → List Account → PostingInput → Result (Unit {0})
check_posting input by_id p = elim (find (λ a. a.id == p.account_id) by_id) [
  | none ↦ err Error.account_not_found
  | some acc ↦
      if not (acc.tenant_id == input.tenant_id)
      then err Error.account_cross_tenant
      else if not (text_eq acc.currency input.currency)
      then err Error.currency_mismatch
      else if not acc.is_active
      then err Error.account_inactive
      else ok tt
]

unfoldable pub check_postings :
    PostEntryInput → List Account → List PostingInput → Result (Unit {0})
unfolding check_posting
check_postings input by_id [] = ok tt
check_postings input by_id (p ∷ ps) = elim (check_posting input by_id p) [
  | ok _ ↦ check_postings input by_id ps
  | err e ↦ err e
]

-- `ledgerAccount.findMany({ where: { id: { in: accountIds } } })`
unfoldable pub referenced_accounts : PostEntryInput → Ledger → List Account
referenced_accounts input s =
    filter (λ a. member a.id (map (λ p. p.account_id) input.postings)) s.accounts

-- The rows that one entry inserts.
unfoldable pub posting_rows : ℕ → Text → List PostingInput → List Posting
posting_rows entry_id currency [] = []
posting_rows entry_id currency (p ∷ ps) =
    record {
      entry_id = entry_id;
      account_id = p.account_id;
      amount = p.amount;
      currency = currency;
    }
    ∷ posting_rows entry_id currency ps

unfoldable pub entry_row : ℕ → PostEntryInput → Entry
entry_row id input = record {
  id = id;
  tenant_id = input.tenant_id;
  currency = input.currency;
  description = input.description;
  idempotency_key = input.idempotency_key;
  source_event_id = input.source_event_id;
}

-- `tx.ledgerEntry.create`, which the unique index may refuse.
unfoldable pub create_entry : PostEntryInput → Exec Ledger ℕ
unfolding entry_row
create_entry input s = elim (find_entry input.tenant_id input.idempotency_key s) [
  | some _ ↦ (err Error.unique_violation, s)
  | none ↦ (
    ok s.next_id,
    record s { entries = s.entries ++ entry_row s.next_id input ∷ []; next_id = s.next_id + 1 },
  )
]

unfoldable pub create_postings : ℕ → PostEntryInput → Exec Ledger (Unit {0})
create_postings id input =
    modify
      (λ s. record s { postings = s.postings ++ posting_rows id input.currency input.postings })

unfoldable pub commit_entry : PostEntryInput → Exec Ledger ℕ
unfolding create_entry create_postings
commit_entry input = transaction (do id ← create_entry input; create_postings id input; pure id)

-- The `catch`: a race on the key is resolved to the entry that won it.
unfoldable pub on_error : PostEntryInput → Error → Exec Ledger PostedEntry
on_error input Error.unique_violation s =
    elim (find_entry input.tenant_id input.idempotency_key s) [
      | some re ↦ (ok (record { id = re.id; duplicate = true }), s)
      | none ↦ (err Error.unique_violation, s)
    ]
on_error input e s = (err e, s)

unfoldable pub try_commit : PostEntryInput → Exec Ledger PostedEntry
unfolding commit_entry on_error
try_commit input s =
    let (r, s') = commit_entry input s in
    elim r [
      | ok id ↦ (ok (record { id = id; duplicate = false }), s')
      | err e ↦ on_error input e s'
    ]

unfoldable pub post_new : (Ledger → Ledger) → PostEntryInput → Exec Ledger PostedEntry
unfolding check_postings referenced_accounts try_commit
post_new others input = do
  by_id ← gets (referenced_accounts input)
  lift (check_postings input by_id input.postings)
  modify others
  try_commit input

unfoldable pub post_entry : (Ledger → Ledger) → PostEntryInput → Exec Ledger PostedEntry
unfolding validate_structure find_entry post_new
post_entry others input = do
  lift (validate_structure input)
  existing ← gets (find_entry input.tenant_id input.idempotency_key)
  elim existing [
    | some e ↦ pure (record { id = e.id; duplicate = true })
    | none ↦ post_new others input
  ]
