-- ===== src/Ledger/Run.antt =====
-- Any sequence of calls of the ledger's services, with other clients' calls in between.
use alice_uprm.Prelude.{
  ℕ, ◌+◌, ◌<◌, ◌≡◌, ap, ◌⊎◌, inl, inr, Option, [], ◌∷◌, ◌++◌, arith, Option-cases, All-imp,
}
use alice_uprm.Prelude.Text.{Text}
use alice_uprm.Prelude.Exec.{Result}
use alice_uprm.Prelude.Rows.{find, find-append_some}
use alice_uprm.Ledger.Types.{AccountType, Account, Ledger, PostEntryInput, empty_ledger}
use alice_uprm.Ledger.Accounts.{is_account, ensure_account}
use alice_uprm.Ledger.Posting.{post_entry}
use alice_uprm.Ledger.Outcome.{malformed, replayed, rejected, raced, posted, post_entry-Outcome}
use alice_uprm.Ledger.Booked.{IsBooked, post_entry-IsBooked, empty-IsBooked}
use alice_uprm.Ledger.Isolation.{IsIsolated, IsOwned, Grows, post_entry-IsIsolated}
use alice_uprm.Ledger.Ensuring.{created, ensure_account_known, ensure_account_new}

-- `Run s t`: from the ledger `s`, calls lead to `t`. What runs between the checks and the
-- transaction of a posting is a run as well.
pub data Run : Ledger → Ledger → Type 0 where
  idle : (s : Ledger) → Run s s
  account :
      (tenant : ℕ) (type : AccountType) (owner : Option ℕ) (currency : Text) {s t : Ledger}
      → Run s t
      → Run s (ensure_account tenant type owner currency t).1
  post :
      (others : Ledger → Ledger) (input : PostEntryInput) {s t : Ledger}
      → Run s t
      → Run t (others t)
      → Run s (post_entry others input t).1

pub record IsSound (s : Ledger) : Type 0 where
  pub booked : IsBooked s
  pub isolated : IsIsolated s

Grows-refl : (s : Ledger) → Grows s s
Grows-refl s = record { accounts_kept = λ i a h. h }

Grows-trans : (s t u : Ledger) → Grows s t → Grows t u → Grows s u
Grows-trans s t u g h = record {
  accounts_kept = λ i a e. h.accounts_kept i a (g.accounts_kept i a e);
}

-- One more account, and one more id given out.
abbrev with_account : Ledger → Account → Ledger
with_account s a = record s { accounts = s.accounts ++ a ∷ []; next_id = s.next_id + 1 }

with_account-IsSound : (s : Ledger) (a : Account) → IsSound s → IsSound (with_account s a)
with_account-IsSound s a h = record {
  booked = record {
    trial_balance = h.booked.trial_balance;
    entry_balance = h.booked.entry_balance;
    posting_ids =
        All-imp (λ p. p.entry_id < s.next_id) (λ p. p.entry_id < s.next_id + 1) s.postings
          (λ p k. omega arith) h.booked.posting_ids;
    entry_ids =
        All-imp (λ e. e.id < s.next_id) (λ e. e.id < s.next_id + 1) s.entries (λ e k. omega arith)
          h.booked.entry_ids;
    unique_keys = h.booked.unique_keys;
  };
  isolated =
      All-imp (IsOwned s.accounts s.entries) _ s.postings
        (λ p (x, e, fa, fe, t, c, d). (x, e, find-append_some _ s.accounts _ x fa, fe, t, c, d))
        h.isolated;
}

module _ (tenant : ℕ) (type : AccountType) (owner : Option ℕ) (currency : Text) (s : Ledger) where
  abbrev after : Ledger
  after = (ensure_account tenant type owner currency s).1

  ensure_account-cases :
      (after ≡ s) ⊎ (after ≡ with_account s (created tenant type owner currency s))
  ensure_account-cases =
      elim (Option-cases (find (is_account tenant type owner currency) s.accounts)) [
        | inr (a, known) ↦ inl (
            ap (λ (x : Result Account × Ledger). x.1)
              (ensure_account_known tenant type owner currency s a known))
        | inl new ↦ inr (
            ap (λ (x : Result Account × Ledger). x.1)
              (ensure_account_new tenant type owner currency s new))
      ]

  ensure_account-IsSound : IsSound s → IsSound after
  ensure_account-IsSound h = elim ensure_account-cases [
    | inl same ↦ rw same h
    | inr grown ↦ rw grown (with_account-IsSound s _ h)
  ]

  ensure_account-Grows : Grows s after
  ensure_account-Grows = elim ensure_account-cases [
    | inl same ↦ rw same (Grows-refl s)
    | inr grown ↦ rw grown (record { accounts_kept = λ i a h. find-append_some _ s.accounts _ a h })
  ]

post_entry-Grows :
    (others : Ledger → Ledger) (input : PostEntryInput) (s : Ledger)
    → Grows s (others s)
    → Grows s (post_entry others input s).1
post_entry-Grows others input s g = elim (post_entry-Outcome others input s) [
  | malformed e v r ↦ rw r (Grows-refl s)
  | replayed e v f r ↦ rw r (Grows-refl s)
  | rejected e v c r ↦ rw r (Grows-refl s)
  | raced e v f r ↦ rw r g
  | posted v c f r ↦ rw r (record { accounts_kept = g.accounts_kept })
]

Run-keeps : {s t : Ledger} → Run s t → IsSound s → IsSound t × Grows s t
Run-keeps (idle s) h = (h, Grows-refl s)
Run-keeps (account tenant type owner currency {s} {t} r) h =
    let (sound, grows) = Run-keeps r h in
    (
      ensure_account-IsSound tenant type owner currency t sound,
      Grows-trans s t _ grows (ensure_account-Grows tenant type owner currency t),
    )
Run-keeps (post others input {s} {t} r between) h =
    let (sound, grows) = Run-keeps r h in
    let (sound', grows') = Run-keeps between sound in
    (
      record {
        booked = post_entry-IsBooked others input t sound.booked sound'.booked;
        isolated =
            post_entry-IsIsolated others input t sound.isolated sound'.booked sound'.isolated
              grows';
      },
      Grows-trans s t _ grows (post_entry-Grows others input t grows'),
    )

-- Whatever the services are asked to do, by however many clients: every entry of the ledger and the
-- ledger as a whole sum to zero, no idempotency key of a tenant is used twice, and every posting
-- names an account of its entry's tenant and currency.
pub Run-IsSound : {s : Ledger} → Run empty_ledger s → IsSound s
Run-IsSound r = (Run-keeps r (record { booked = empty-IsBooked; isolated = tt })).0
