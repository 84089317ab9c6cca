-- ===== src/Settlements/Liability.antt =====
-- What a snapshot says of the liabilities of a tenant
-- (`computeSnapshot` of packages/domain/settlements/src/settlement.service.ts).
use alice_uprm.Prelude.{ℕ, ◌≡◌, refl, inl, inr, List, [], ◌∷◌, arith, Bool-cases, All, All-imp}
use alice_uprm.Prelude.Int.{ℤ, pos, ◌+ℤ◌, neg, ◌≤ℤ◌, ltb_ℤ, int_laws, ltb_ℤ-true, ltb_ℤ-false}
use alice_uprm.Prelude.Text.{Text}
use alice_uprm.Prelude.Rows.{sum_by}
use alice_uprm.Ledger.Types.{Account, PostingInput}
use alice_uprm.Settlements.Cycles.{
  ScheduledPosting, Books, Snapshot, owed, liability_accounts, posted_on, ledger_liability,
  is_foreign, row_liability, compute_snapshot,
}

module _ {ℓ} {A : Type ℓ} (f : A → ℤ) (nonneg : (x : A) → pos 0 ≤ℤ f x) where
  sum_by_nonneg : (xs : List A) → pos 0 ≤ℤ sum_by f xs
  unfolding sum_by
  sum_by_nonneg [] = omega arith
  sum_by_nonneg (x ∷ xs) = omega (int_laws, nonneg x, sum_by_nonneg xs)

  -- Each term is below the sum.
  sum_by_upper : (xs : List A) → All (λ x. f x ≤ℤ sum_by f xs) xs
  unfolding sum_by
  sum_by_upper [] = tt
  sum_by_upper (x ∷ xs) = (
    omega (int_laws, sum_by_nonneg xs),
    All-imp _ _ xs (λ y h. omega (int_laws, nonneg x)) (sum_by_upper xs),
  )

owed_nonneg : (n : ℤ) → pos 0 ≤ℤ owed n
unfolding owed
owed_nonneg n = elim (Bool-cases (ltb_ℤ n (pos 0))) [
  | inl debt ↦ rw debt (omega (int_laws, ltb_ℤ-true n (pos 0) debt))
  | inr none_due ↦ rw none_due (omega arith)
]

owed-neg : (n : ℤ) → neg n ≤ℤ owed n
unfolding owed
owed-neg n = elim (Bool-cases (ltb_ℤ n (pos 0))) [
  | inl debt ↦ rw debt (omega arith)
  | inr none_due ↦ rw none_due (omega (int_laws, ltb_ℤ-false n (pos 0) none_due))
]

row_liability_nonneg :
    (currency : Text) (accounts : List Account) (row : ScheduledPosting)
    → pos 0 ≤ℤ row_liability currency accounts row
unfolding row_liability
row_liability_nonneg currency accounts row =
    elim (Bool-cases (is_foreign currency row.payload_currency)) [
      | inl foreign ↦ rw foreign (omega arith)
      | inr counted ↦
          rw counted
            (sum_by_nonneg (λ (p : PostingInput). owed p.amount) (λ p. owed_nonneg p.amount) _)
    ]

abbrev pub IsCovered : ℕ → Text → Books → Snapshot → Type 0
IsCovered tenant currency s snapshot =
    All (λ (a : Account). neg (posted_on a.id s.ledger) ≤ℤ snapshot.ledger_liability_minor)
      (liability_accounts tenant currency s.ledger)
    × (pos 0 ≤ℤ snapshot.ledger_liability_minor)
    × (pos 0 ≤ℤ snapshot.pending_liability_minor)
    × (snapshot.total_liability_minor
        ≡ snapshot.ledger_liability_minor +ℤ snapshot.pending_liability_minor)

-- In a snapshot, neither liability is negative, the total is their sum, and what the ledger owes to
-- any one user of the tenant in the currency is at most the ledger liability: a user whose account is
-- overdrawn does not lower what is owed to the others.
pub compute_snapshot-covers :
    (tenant : ℕ) (currency : Text) (s : Books)
    → IsCovered tenant currency s (compute_snapshot tenant currency s)
unfolding compute_snapshot ledger_liability
compute_snapshot-covers tenant currency s =
    let accounts = liability_accounts tenant currency s.ledger in
    let debt : Account → ℤ = λ (a : Account). owed (posted_on a.id s.ledger) in
    (
      All-imp _ _ accounts (λ a h. omega (arith, h, owed-neg (posted_on a.id s.ledger)))
          (sum_by_upper debt (λ a. owed_nonneg (posted_on a.id s.ledger)) accounts),
      sum_by_nonneg debt (λ a. owed_nonneg (posted_on a.id s.ledger)) accounts,
      sum_by_nonneg (row_liability currency accounts) (row_liability_nonneg currency accounts) _,
      refl,
    )
