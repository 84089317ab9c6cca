-- ===== src/Ledger/Sums.antt =====
-- Sums over the rows that one entry inserts (`createMany` in `postEntry`).
use alice_uprm.Prelude.{
  ℕ, ◌<◌, ◌≡◌, refl, ◌≢◌, List, [], ◌∷◌, ◌++◌, arith, ◌==◌, if◌then◌else◌, All,
}
use alice_uprm.Prelude.Int.{ℤ, pos, ◌+ℤ◌, int_laws}
use alice_uprm.Prelude.Text.{Text}
use alice_uprm.Prelude.Rows.{filter, sum_by, sum_where-append}
use alice_uprm.Ledger.Types.{Posting, PostingInput}
use alice_uprm.Ledger.Posting.{running_sum, posting_rows}
use alice_uprm.Ledger.Balance.{sum_of_account}

-- The sum of the postings of one entry.
unfoldable pub sum_of_entry : ℕ → List Posting → ℤ
sum_of_entry e ps = sum_by (λ p. p.amount) (filter (λ p. p.entry_id == e) ps)

-- What an entry asks to add to one account.
unfoldable pub requested : ℕ → List PostingInput → ℤ
requested a [] = pos 0
requested a (p ∷ ps) = if p.account_id == a then p.amount +ℤ requested a ps else requested a ps

pub running_sum-eq-sum :
    (acc : ℤ) (id : ℕ) (c : Text) (ps : List PostingInput)
    → running_sum acc ps ≡ acc +ℤ sum_by (λ p. p.amount) (posting_rows id c ps)
unfolding running_sum posting_rows sum_by
running_sum-eq-sum acc id c [] = omega int_laws
running_sum-eq-sum acc id c (p ∷ ps) =
    rw (running_sum-eq-sum (acc +ℤ p.amount) id c ps) (omega int_laws)

pub sum_of_entry-append :
    (e : ℕ) (xs ys : List Posting)
    → sum_of_entry e (xs ++ ys) ≡ sum_of_entry e xs +ℤ sum_of_entry e ys
unfolding sum_of_entry
sum_of_entry-append e xs ys = sum_where-append _ _ xs ys

pub sum_of_account-append :
    (a : ℕ) (xs ys : List Posting)
    → sum_of_account a (xs ++ ys) ≡ sum_of_account a xs +ℤ sum_of_account a ys
unfolding sum_of_account
sum_of_account-append a xs ys = sum_where-append _ _ xs ys

-- The rows of an entry all carry its id.
pub sum_of_entry-rows_self :
    (id : ℕ) (c : Text) (ps : List PostingInput)
    → sum_of_entry id (posting_rows id c ps) ≡ sum_by (λ p. p.amount) (posting_rows id c ps)
unfolding sum_of_entry posting_rows sum_by
sum_of_entry-rows_self id c [] = refl
sum_of_entry-rows_self id c (p ∷ ps) = ground (arith, sum_of_entry-rows_self id c ps)

pub sum_of_entry-rows_ne :
    (e id : ℕ) (c : Text) (ps : List PostingInput)
    → id ≢ e
    → sum_of_entry e (posting_rows id c ps) ≡ pos 0
unfolding sum_of_entry posting_rows sum_by
sum_of_entry-rows_ne e id c [] h = refl
sum_of_entry-rows_ne e id c (p ∷ ps) h = ground (arith, sum_of_entry-rows_ne e id c ps h)

-- No row carries an id that is still to be given out.
pub sum_of_entry-fresh :
    (e : ℕ) (xs : List Posting) → All (λ p. p.entry_id < e) xs → sum_of_entry e xs ≡ pos 0
unfolding sum_of_entry sum_by
sum_of_entry-fresh e [] h = refl
sum_of_entry-fresh e (p ∷ ps) h = ground (arith, sum_of_entry-fresh e ps h.1)

pub sum_of_account-rows :
    (a id : ℕ) (c : Text) (ps : List PostingInput)
    → sum_of_account a (posting_rows id c ps) ≡ requested a ps
unfolding sum_of_account posting_rows requested sum_by
sum_of_account-rows a id c [] = refl
sum_of_account-rows a id c (p ∷ ps) = ground (arith, sum_of_account-rows a id c ps)
