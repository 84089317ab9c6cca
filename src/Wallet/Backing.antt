-- ===== src/Wallet/Backing.antt =====
-- Holds on grants: what a redemption and a payout reservation of the wallet
-- (packages/domain/wallet/src) have in common. A hold is backed when its allocation rows sum to its
-- amount and are of grants of its account.
use alice_uprm.Prelude.{
  ℕ, ◌+◌, ◌≤◌, ◌<◌, ◌≡◌, refl, ap, ◌∙◌, ◌≢◌, inl, inr, Bool, true, false, ◌&&◌, some, List, [], ◌∷◌,
  ◌++◌, map, arith, ◌==◌, if◌then◌else◌, ==_iff, Bool-cases, All, All-append, All-imp, All-imp₂,
}
use alice_uprm.Prelude.Int.{ℤ, pos, ◌+ℤ◌, neg, int_laws, +ℤ-zero, parts_of_eq, moved_by}
use alice_uprm.Prelude.Rows.{filter, update_where, sum_by, sum_by-append, filter-append}
use alice_uprm.Prelude.Keyed.{
  by_id, update_id, HasDistinctIds, HasIdsBelow, HasIdsBelow-mono, HasDistinctIds-append,
  sum_by-update_id, update_where-ids, update_where-distinct,
}
use mathlib.Core.List.{append-nil}
use alice_uprm.Wallet.Types.{WalletGrant, WalletAllocation, AllocationRow}
use alice_uprm.Wallet.Redemption.{allocation_row}
use alice_uprm.Wallet.Fifo.{allocated}
use alice_uprm.Wallet.Spending.{account_of, AreOf, RowsAreOf, row_total}

abbrev pub Keeps : List WalletGrant → List WalletGrant → Type 0
Keeps gs gs' = (i a : ℕ) → account_of i gs ≡ some a → account_of i gs' ≡ some a

abbrev pub rows_of : ℕ → List AllocationRow → List AllocationRow
rows_of i rows = filter (λ r. r.owner_id == i) rows

rows_of-none :
    (i : ℕ) (rows : List AllocationRow) → All (λ r. r.owner_id ≢ i) rows → rows_of i rows ≡ []
rows_of-none i [] h = refl
rows_of-none i (r ∷ rs) h = ground (arith, rows_of-none i rs h.1)

-- The rows that a reservation writes.
pub rows_of-written :
    (i : ℕ) (xs : List WalletAllocation)
    → rows_of i (map (allocation_row i) xs) ≡ map (allocation_row i) xs
unfolding allocation_row
rows_of-written i [] = refl
rows_of-written i (x ∷ xs) =
    rw ((==_iff i i).1 refl) (ap (◌∷◌ (allocation_row i x)) (rows_of-written i xs))

pub row_total-written :
    (i : ℕ) (xs : List WalletAllocation) → row_total (map (allocation_row i) xs) ≡ allocated xs
unfolding sum_by allocation_row
row_total-written i [] = refl
row_total-written i (x ∷ xs) = ap (λ z. x.amount_credits +ℤ z) (row_total-written i xs)

pub RowsAreOf-written :
    (i a : ℕ) (gs : List WalletGrant) (xs : List WalletAllocation)
    → AreOf a gs xs
    → RowsAreOf a gs (map (allocation_row i) xs)
unfolding allocation_row
RowsAreOf-written i a gs [] h = tt
RowsAreOf-written i a gs (x ∷ xs) h = (h.0, RowsAreOf-written i a gs xs h.1)

written-owner :
    (i : ℕ) (xs : List WalletAllocation) → All (λ r. r.owner_id ≡ i) (map (allocation_row i) xs)
unfolding allocation_row
written-owner i [] = tt
written-owner i (x ∷ xs) = (refl, written-owner i xs)

module _ {ℓ} {H : Type ℓ} (id : H → ℕ) (account : H → ℕ) (amount : H → ℤ) (active : H → Bool) where
  -- What a hold takes from an account, while it is active.
  abbrev pub held_in : ℕ → H → ℤ
  held_in b x = if account x == b && active x then amount x else pos 0

  abbrev pub Backed : List WalletGrant → List AllocationRow → H → Type 0
  Backed gs rows x =
      (row_total (rows_of (id x) rows) ≡ amount x) × RowsAreOf (account x) gs (rows_of (id x) rows)

  pub record AreBacked (gs : List WalletGrant) (rows : List AllocationRow) (xs : List H) (n : ℕ)
      : Type ℓ where
    pub distinct : HasDistinctIds id xs
    pub below : HasIdsBelow id n xs
    pub owners : All (λ r. r.owner_id < n) rows
    pub backed : All (Backed gs rows) xs

  pub AreBacked-grants :
      (gs gs' : List WalletGrant) (rows : List AllocationRow) (xs : List H) (n m : ℕ)
      → Keeps gs gs'
      → n ≤ m
      → AreBacked gs rows xs n
      → AreBacked gs' rows xs m
  AreBacked-grants gs gs' rows xs n m keeps le h = record {
    distinct = h.distinct;
    below = HasIdsBelow-mono id n m xs le h.below;
    owners = All-imp _ _ rows (λ r k. omega arith) h.owners;
    backed =
        All-imp _ _ xs
          (λ x k.
            (k.0, All-imp _ _ (rows_of (id x) rows) (λ r. keeps r.wallet_grant_id (account x)) k.1))
          h.backed;
  }

  Backed-later :
      (gs : List WalletGrant) (rows ys : List AllocationRow) (n : ℕ) (x : H)
      → id x < n
      → All (λ r. r.owner_id ≡ n) ys
      → Backed gs rows x
      → Backed gs (rows ++ ys) x
  Backed-later gs rows ys n x lt new h =
      rw
        (
          filter-append (λ r. r.owner_id == id x) rows ys,
          rows_of-none (id x) ys (All-imp _ _ ys (λ r k. omega arith) new),
          append-nil (rows_of (id x) rows),
        )
        h

  pub AreBacked-add :
      (gs : List WalletGrant) (rows : List AllocationRow) (xs : List H) (n : ℕ) (x : H)
      (out : List WalletAllocation)
      → id x ≡ n
      → allocated out ≡ amount x
      → AreOf (account x) gs out
      → AreBacked gs rows xs n
      → AreBacked gs (rows ++ map (allocation_row n) out) (xs ++ x ∷ []) (n + 1)
  AreBacked-add gs rows xs n x out same total mine h = record {
    distinct = HasDistinctIds-append id n x xs same h.below h.distinct;
    below =
        All-append (λ y. id y < n + 1) xs (x ∷ [])
          (HasIdsBelow-mono id n (n + 1) xs (omega arith) h.below) (omega arith, tt);
    owners =
        All-append (λ r. r.owner_id < n + 1) rows ys
          (All-imp _ _ rows (λ r k. omega arith) h.owners)
          (All-imp _ _ ys (λ r k. omega arith) (written-owner n out));
    backed =
        All-append (Backed gs (rows ++ ys)) xs (x ∷ [])
          (All-imp₂ _ _ _ xs (λ y lt b. Backed-later gs rows ys n y lt (written-owner n out) b)
            h.below h.backed)
          (mine_too, tt);
  }
    where
      ys : List AllocationRow
      ys = map (allocation_row n) out

      own : rows_of (id x) (rows ++ ys) ≡ ys
      own =
          rw
            (
              same,
              filter-append (λ r. r.owner_id == n) rows ys,
              rows_of-none n rows (All-imp _ _ rows (λ r k. omega arith) h.owners),
            )
            (rows_of-written n out)

      mine_too : Backed gs (rows ++ ys) x
      mine_too =
          rw own (row_total-written n out ∙ total, RowsAreOf-written n (account x) gs out mine)

  pub held_in-add :
      (b : ℕ) (xs : List H) (x : H)
      → sum_by (held_in b) (xs ++ x ∷ []) ≡ sum_by (held_in b) xs +ℤ held_in b x
  unfolding sum_by
  held_in-add b xs x =
      sum_by-append (held_in b) xs (x ∷ [])
      ∙ ap (λ z. sum_by (held_in b) xs +ℤ z) (+ℤ-zero (held_in b x))

  -- A change of the status only.
  module _ (f : H → H) (keeps_id : (x : H) → id (f x) ≡ id x)
      (keeps_account : (x : H) → account (f x) ≡ account x)
      (keeps_amount : (x : H) → amount (f x) ≡ amount x) where
    Backed-update :
        (gs : List WalletGrant) (rows : List AllocationRow) (p : H → Bool) (xs : List H)
        → All (Backed gs rows) xs
        → All (Backed gs rows) (update_where p f xs)
    Backed-update gs rows p [] h = tt
    Backed-update gs rows p (x ∷ xs) h = (
      elim (Bool-cases (p x)) [
        | inl hit ↦ rw (hit, keeps_id x, keeps_account x, keeps_amount x) h.0
        | inr miss ↦ rw miss h.0
      ],
      Backed-update gs rows p xs h.1,
    )

    pub AreBacked-update :
        (gs : List WalletGrant) (rows : List AllocationRow) (xs : List H) (n i : ℕ)
        → AreBacked gs rows xs n
        → AreBacked gs rows (update_id id i f xs) n
    AreBacked-update gs rows xs n i h = record {
      distinct = update_where-distinct id f keeps_id _ xs h.distinct;
      below = update_where-ids id f keeps_id n _ xs h.below;
      owners = h.owners;
      backed = Backed-update gs rows _ xs h.backed;
    }

    -- A hold that is active and is so no longer gives its amount back to its account.
    pub held_in-release :
        (b i : ℕ) (xs : List H) (x : H)
        → HasDistinctIds id xs
        → by_id id i xs ≡ some x
        → active x ≡ true
        → active (f x) ≡ false
        → sum_by (held_in b) (update_id id i f xs)
          ≡ sum_by (held_in b) xs +ℤ (if account x == b then neg (amount x) else pos 0)
    held_in-release b i xs x d e on off =
        let moved = sum_by-update_id id (held_in b) i f xs x d e in
        elim (Bool-cases (account x == b)) [
          | inl mine ↦
              let before : held_in b x ≡ amount x = rw (mine, on) in
              let later : held_in b (f x) ≡ pos 0 = rw (off, keeps_account x, mine) in
              rw mine
                (moved_by _ _ _ _ (neg (amount x)) moved (rw (before, later) (omega int_laws)))
          | inr other ↦
              let before : held_in b x ≡ pos 0 = rw other in
              let later : held_in b (f x) ≡ pos 0 = rw (keeps_account x, other) in
              rw other (moved_by _ _ _ _ (pos 0) moved (rw (before, later) (omega int_laws)))
        ]

    -- A change that leaves the hold as active as it was.
    pub held_in-same :
        (b i : ℕ) (xs : List H) (x : H)
        → HasDistinctIds id xs
        → by_id id i xs ≡ some x
        → active (f x) ≡ active x
        → sum_by (held_in b) (update_id id i f xs) ≡ sum_by (held_in b) xs
    held_in-same b i xs x d e same =
        let moved = sum_by-update_id id (held_in b) i f xs x d e in
        let equal : held_in b (f x) ≡ held_in b x = rw (keeps_account x, keeps_amount x, same) in
        omega (int_laws, parts_of_eq _ _ moved, parts_of_eq _ _ equal)
