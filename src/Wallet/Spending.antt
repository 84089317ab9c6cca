-- ===== src/Wallet/Spending.antt =====
-- What the loops of the wallet services do to the grants (packages/domain/wallet/src).
use alice_uprm.Prelude.{
  ℕ, ◌≡◌, refl, sym, ◌∙◌, inl, inr, Bool, true, false, Option, some, List, [], ◌∷◌, arith, ◌==◌,
  if◌then◌else◌, Bool-cases, Option-cases, All, All-imp,
}
use alice_uprm.Prelude.Int.{ℤ, pos, ◌+ℤ◌, ◌-ℤ◌, neg, int_laws, +ℤ-zero, +ℤ_assoc, moved_by}
use alice_uprm.Prelude.Exec.{ok}
use alice_uprm.Prelude.Rows.{sum_by}
use mathlib.Core.Option
use mathlib.Core.Path.{subst}
use alice_uprm.Prelude.Keyed.{
  by_id, update_id, HasDistinctIds, HasIdsBelow, sum_by-update_id, by_id-update_id,
  update_where-ids, update_where-distinct, sum_by-update_same,
}
use alice_uprm.Wallet.Types.{WalletGrant, WalletAllocation, AllocationRow, Wallet}
use alice_uprm.Wallet.Grants.{with_remaining, change_remaining}
use alice_uprm.Wallet.Fifo.{allocated}

abbrev pub grant_id : WalletGrant → ℕ
grant_id g = g.id

-- The account of the grant with an id.
abbrev pub account_of : ℕ → List WalletGrant → Option ℕ
account_of i gs = Option.map (λ g. g.wallet_account_id) (by_id grant_id i gs)

abbrev pub change : ℕ → (ℤ → ℤ) → List WalletGrant → List WalletGrant
change i f gs = update_id grant_id i (with_remaining f) gs

-- The rest, and the issued amount, of one account.
abbrev pub remaining_in : ℕ → WalletGrant → ℤ
remaining_in b g = if g.wallet_account_id == b then g.amount_remaining else pos 0

abbrev pub issued_in : ℕ → WalletGrant → ℤ
issued_in b g = if g.wallet_account_id == b then g.amount_issued else pos 0

module _ (i : ℕ) (f : ℤ → ℤ) (gs : List WalletGrant) where
  pub change-ids : HasDistinctIds grant_id gs → HasDistinctIds grant_id (change i f gs)
  unfolding with_remaining
  change-ids h = update_where-distinct grant_id (with_remaining f) (λ g. refl) _ gs h

  pub change-below : (n : ℕ) → HasIdsBelow grant_id n gs → HasIdsBelow grant_id n (change i f gs)
  unfolding with_remaining
  change-below n h = update_where-ids grant_id (with_remaining f) (λ g. refl) n _ gs h

  pub change-account_of : (j : ℕ) → account_of j (change i f gs) ≡ account_of j gs
  unfolding with_remaining
  change-account_of j =
      rw (by_id-update_id grant_id (with_remaining f) (λ g. refl) j i gs) (ground arith)

  pub change-issued : (b : ℕ) → sum_by (issued_in b) (change i f gs) ≡ sum_by (issued_in b) gs
  unfolding with_remaining
  change-issued b = sum_by-update_same grant_id (issued_in b) _ (with_remaining f) gs (λ g. refl)

-- One change moves the rest of the account that holds the grant, and no other.
module _ (i : ℕ) (d : ℤ) (gs : List WalletGrant) (a : ℕ) where
  pub change-remaining :
      (f : ℤ → ℤ)
      → ((x : ℤ) → f x ≡ x +ℤ d)
      → HasDistinctIds grant_id gs
      → account_of i gs ≡ some a
      → (b : ℕ)
      → sum_by (remaining_in b) (change i f gs)
        ≡ sum_by (remaining_in b) gs +ℤ (if a == b then d else pos 0)
  unfolding with_remaining
  change-remaining f adds ids owner b = elim (Option-cases (by_id grant_id i gs)) [
    | inl absent ↦ absurd (ground arith)
    | inr (g, found) ↦
        let moved =
          sum_by-update_id grant_id (remaining_in b) i (with_remaining f) gs g ids found in
        let same : g.wallet_account_id ≡ a = ground arith in
        elim (Bool-cases (a == b)) [
          | inl mine ↦
              let here : (g.wallet_account_id == b) ≡ true = rw same mine in
              rw mine (
                moved_by _ _ (remaining_in b g) (remaining_in b (with_remaining f g)) d moved
                  (rw here (adds g.amount_remaining)))
          | inr other ↦
              let there : (g.wallet_account_id == b) ≡ false = rw same other in
              rw other (
                moved_by _ _ (remaining_in b g) (remaining_in b (with_remaining f g)) (pos 0) moved
                  (rw there (sym (+ℤ-zero (pos 0)))))
        ]
  ]

-- `walletGrant.update` on a grant that is there.
pub change_remaining_lem :
    (i : ℕ) (f : ℤ → ℤ) (a : ℕ) (w : Wallet)
    → account_of i w.grants ≡ some a
    → change_remaining i f w ≡ (ok tt, record w { grants = change i f w.grants })
unfolding change_remaining
change_remaining_lem i f a w h = elim (Option-cases (by_id grant_id i w.grants)) [
  | inl absent ↦ absurd (ground arith)
  | inr (g, found) ↦ rw (found, change_remaining)
]

-- The two loops over the grants: taking what was allocated, and giving it back.
abbrev pub spend : List WalletAllocation → List WalletGrant → List WalletGrant
spend [] gs = gs
spend (a ∷ xs) gs = spend xs (change a.wallet_grant_id (λ x. x -ℤ a.amount_credits) gs)

abbrev pub refund : List AllocationRow → List WalletGrant → List WalletGrant
refund [] gs = gs
refund (a ∷ xs) gs = refund xs (change a.wallet_grant_id (λ x. x +ℤ a.amount_credits) gs)

-- What a loop keeps, and how it moves the rest of every account.
pub record Moves (a : ℕ) (d : ℤ) (gs gs' : List WalletGrant) : Type 0 where
  pub ids : HasDistinctIds grant_id gs → HasDistinctIds grant_id gs'
  pub below : (n : ℕ) → HasIdsBelow grant_id n gs → HasIdsBelow grant_id n gs'
  pub accounts : (j : ℕ) → account_of j gs' ≡ account_of j gs
  pub issued : (b : ℕ) → sum_by (issued_in b) gs' ≡ sum_by (issued_in b) gs
  pub remaining :
      HasDistinctIds grant_id gs
      → (b : ℕ)
      → sum_by (remaining_in b) gs' ≡ sum_by (remaining_in b) gs +ℤ (if a == b then d else pos 0)

Moves-none : (a : ℕ) (gs : List WalletGrant) → Moves a (pos 0) gs gs
Moves-none a gs = record {
  ids = λ h. h;
  below = λ n h. h;
  accounts = λ j. refl;
  issued = λ b. refl;
  remaining = λ h b. elim (Bool-cases (a == b)) [
    | inl mine ↦ rw mine (sym (+ℤ-zero _))
    | inr other ↦ rw other (sym (+ℤ-zero _))
  ];
}

Moves-change :
    (i : ℕ) (f : ℤ → ℤ) (d : ℤ) (a : ℕ) (gs : List WalletGrant)
    → ((x : ℤ) → f x ≡ x +ℤ d)
    → account_of i gs ≡ some a
    → Moves a d gs (change i f gs)
Moves-change i f d a gs adds owner = record {
  ids = change-ids i f gs;
  below = change-below i f gs;
  accounts = change-account_of i f gs;
  issued = change-issued i f gs;
  remaining = λ h b. change-remaining i d gs a f adds h owner b;
}

two_moves :
    (b : Bool) (s d e : ℤ)
    → s +ℤ (if b then d else pos 0) +ℤ (if b then e else pos 0) ≡ s +ℤ (if b then d +ℤ e else pos 0)
two_moves true s d e = +ℤ_assoc s d e
two_moves false s d e = omega int_laws

Moves-then :
    (a : ℕ) (d e : ℤ) (g1 g2 g3 : List WalletGrant)
    → Moves a d g1 g2
    → Moves a e g2 g3
    → Moves a (d +ℤ e) g1 g3
Moves-then a d e g1 g2 g3 h k = record {
  ids = λ x. k.ids (h.ids x);
  below = λ n x. k.below n (h.below n x);
  accounts = λ j. k.accounts j ∙ h.accounts j;
  issued = λ b. k.issued b ∙ h.issued b;
  remaining = λ x b. k.remaining (h.ids x) b ∙ rw (h.remaining x b) (two_moves (a == b) _ d e);
}

-- Every allocation is of a grant of the account.
abbrev pub AreOf : ℕ → List WalletGrant → List WalletAllocation → Type 0
AreOf a gs xs = All (λ x. account_of x.wallet_grant_id gs ≡ some a) xs

abbrev pub RowsAreOf : ℕ → List WalletGrant → List AllocationRow → Type 0
RowsAreOf a gs xs = All (λ x. account_of x.wallet_grant_id gs ≡ some a) xs

abbrev pub row_total : List AllocationRow → ℤ
row_total xs = sum_by (λ r. r.amount_credits) xs

minus_is_plus : (x d : ℤ) → x -ℤ d ≡ x +ℤ neg d
minus_is_plus x d = omega int_laws

pub spend-Moves :
    (a : ℕ) (xs : List WalletAllocation) (gs : List WalletGrant)
    → AreOf a gs xs
    → Moves a (neg (allocated xs)) gs (spend xs gs)
unfolding sum_by
spend-Moves a [] gs h = subst (λ d. Moves a d gs gs) (omega int_laws) (Moves-none a gs)
spend-Moves a (x ∷ xs) gs h =
    let gs' = change x.wallet_grant_id (λ y. y -ℤ x.amount_credits) gs in
    let first =
      Moves-change x.wallet_grant_id (λ y. y -ℤ x.amount_credits) (neg x.amount_credits) a gs
        (λ y. minus_is_plus y x.amount_credits) h.0 in
    let later =
      spend-Moves a xs gs' (All-imp _ _ xs (λ y k. first.accounts y.wallet_grant_id ∙ k) h.1) in
    subst (λ d. Moves a d gs (spend xs gs')) (omega int_laws)
      (Moves-then a (neg x.amount_credits) (neg (allocated xs)) gs gs' (spend xs gs') first later)

pub refund-Moves :
    (a : ℕ) (xs : List AllocationRow) (gs : List WalletGrant)
    → RowsAreOf a gs xs
    → Moves a (row_total xs) gs (refund xs gs)
unfolding sum_by
refund-Moves a [] gs h = Moves-none a gs
refund-Moves a (x ∷ xs) gs h =
    let gs' = change x.wallet_grant_id (λ y. y +ℤ x.amount_credits) gs in
    let first =
      Moves-change x.wallet_grant_id (λ y. y +ℤ x.amount_credits) x.amount_credits a gs (λ y. refl)
        h.0 in
    let later =
      refund-Moves a xs gs' (All-imp _ _ xs (λ y k. first.accounts y.wallet_grant_id ∙ k) h.1) in
    Moves-then a x.amount_credits (row_total xs) gs gs' (refund xs gs') first later
