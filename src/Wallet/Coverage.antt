-- ===== src/Wallet/Coverage.antt =====
-- When `allocateFifo` succeeds, and that it allocates the amount
-- (packages/domain/wallet/src/wallet-allocation.service.ts).
use alice_uprm.Prelude.{
  ◌≡◌, refl, ap, ◌∙◌, ◌↔◌, ◌⊎◌, inl, inr, true, false, List, [], ◌∷◌, arith, leb, if◌then◌else◌,
  Bool-cases,
}
use alice_uprm.Prelude.Int.{
  ℤ, pos, ◌+ℤ◌, ◌-ℤ◌, ◌≤ℤ◌, leb_ℤ, ltb_ℤ, int_laws, parts_of_eq, leb_ℤ-false, leb_ℤ-true,
  ltb_ℤ-true, ltb_ℤ-false,
}
use alice_uprm.Prelude.Exec.{ok}
use alice_uprm.Prelude.Rows.{sum_by}
use alice_uprm.Wallet.Types.{WalletGrant, WalletAllocation}
use alice_uprm.Wallet.Allocation.{insert_by_date, sort_by_date, allocation, allocate, allocate_fifo}
use alice_uprm.Wallet.Fifo.{
  is_positive, allocated, allocate_zero, allocate_skip, allocate-whole, allocate_last,
}

-- The positive part of a grant's rest.
abbrev pub spendable : WalletGrant → ℤ
spendable g = if is_positive g then g.amount_remaining else pos 0

abbrev pub available : List WalletGrant → ℤ
available gs = sum_by spendable gs

insert_by_date-sum :
    (f : WalletGrant → ℤ) (g : WalletGrant) (gs : List WalletGrant)
    → sum_by f (insert_by_date g gs) ≡ f g +ℤ sum_by f gs
unfolding insert_by_date sum_by
insert_by_date-sum f g [] = refl
insert_by_date-sum f g (x ∷ xs) = elim (Bool-cases (leb g.created_at x.created_at)) [
  | inl before ↦ rw before
  | inr later ↦ rw (later, insert_by_date-sum f g xs) (omega int_laws)
]

pub sort_by_date-sum :
    (f : WalletGrant → ℤ) (gs : List WalletGrant) → sum_by f (sort_by_date gs) ≡ sum_by f gs
unfolding sort_by_date sum_by
sort_by_date-sum f [] = refl
sort_by_date-sum f (g ∷ gs) =
    insert_by_date-sum f g (sort_by_date gs) ∙ ap (λ x. f g +ℤ x) (sort_by_date-sum f gs)

-- What a loop over `gs` leaves of `r`, and what it has allocated.
abbrev Leaves : ℤ → List WalletGrant → ℤ × List WalletAllocation → Type 0
Leaves r gs out =
    (allocated out.1 +ℤ out.0 ≡ r)
    × (pos 0 ≤ℤ out.0)
    × (r ≤ℤ out.0 +ℤ available gs)
    × ((out.0 ≡ pos 0) ⊎ (out.0 +ℤ available gs ≡ r))

available_nonneg : (gs : List WalletGrant) → pos 0 ≤ℤ available gs
unfolding sum_by
available_nonneg [] = omega arith
available_nonneg (g ∷ gs) = elim (Bool-cases (is_positive g)) [
  | inl full ↦
      rw full (omega (int_laws, ltb_ℤ-true (pos 0) g.amount_remaining full, available_nonneg gs))
  | inr empty ↦ rw empty (omega (int_laws, available_nonneg gs))
]

zero_of : (r : ℤ) → pos 0 ≤ℤ r → leb_ℤ r (pos 0) ≡ true → r ≡ pos 0
zero_of r h k = omega (int_laws, leb_ℤ-true r (pos 0) k)

Leaves-zero : (gs : List WalletGrant) → Leaves (pos 0) gs (allocate (pos 0) gs)
unfolding sum_by ◌+ℤ◌
Leaves-zero gs =
    rw (allocate_zero gs) (refl, omega arith, omega (int_laws, available_nonneg gs), inl refl)

module _ (r : ℤ) (g : WalletGrant) (gs : List WalletGrant) (h : pos 1 ≤ℤ r) where
  Leaves-skip :
      is_positive g ≡ false → Leaves r gs (allocate r gs) → Leaves r (g ∷ gs) (allocate r (g ∷ gs))
  unfolding sum_by
  Leaves-skip empty ih =
      rw (allocate_skip r g gs h empty, empty)
        (
          ih.0,
          ih.1,
          omega (int_laws, ih.2),
          elim ih.3 [ inl z ↦ inl z | inr e ↦ inr (omega (int_laws, parts_of_eq _ _ e)) ],
        )

  Leaves-whole :
      is_positive g ≡ true
      → leb_ℤ r g.amount_remaining ≡ false
      → Leaves (r -ℤ g.amount_remaining) gs (allocate (r -ℤ g.amount_remaining) gs)
      → Leaves r (g ∷ gs) (allocate r (g ∷ gs))
  unfolding sum_by allocation
  Leaves-whole full short (total, nonneg, enough, exact) =
      rw (allocate-whole r g gs h full short, full)
        (
          whole_total,
          nonneg,
          omega (int_laws, enough),
          elim exact [ inl z ↦ inl z | inr e ↦ inr (omega (int_laws, parts_of_eq _ _ e)) ],
        )
    where
      whole_total :
          g.amount_remaining
            +ℤ allocated (allocate (r -ℤ g.amount_remaining) gs).1
            +ℤ (allocate (r -ℤ g.amount_remaining) gs).0
          ≡ r
      whole_total = omega (int_laws, parts_of_eq _ _ total)

  Leaves-last :
      is_positive g ≡ true
      → leb_ℤ r g.amount_remaining ≡ true
      → Leaves r (g ∷ gs) (allocate r (g ∷ gs))
  unfolding sum_by allocation
  Leaves-last full enough =
      rw (allocate_last r g gs h full enough, full)
        (
          omega int_laws,
          omega arith,
          omega (int_laws, leb_ℤ-true r g.amount_remaining enough, available_nonneg gs),
          inl refl,
        )

allocate-Leaves : (gs : List WalletGrant) (r : ℤ) → pos 0 ≤ℤ r → Leaves r gs (allocate r gs)
unfolding sum_by allocate
allocate-Leaves [] r h = (omega int_laws, h, omega int_laws, inr (omega int_laws))
allocate-Leaves (g ∷ gs) r h = elim (Bool-cases (leb_ℤ r (pos 0))) [
  | inl done ↦ rw (zero_of r h done) (Leaves-zero (g ∷ gs))
  | inr more ↦
      let some_left : pos 1 ≤ℤ r = omega (int_laws, leb_ℤ-false r (pos 0) more) in
      elim (Bool-cases (is_positive g)) [
        | inr empty ↦ Leaves-skip r g gs some_left empty (allocate-Leaves gs r h)
        | inl full ↦ elim (Bool-cases (leb_ℤ r g.amount_remaining)) [
          | inl enough ↦ Leaves-last r g gs some_left full enough
          | inr short ↦ Leaves-whole r g gs some_left full short (
              allocate-Leaves gs (r -ℤ g.amount_remaining)
                (omega (int_laws, leb_ℤ-false r g.amount_remaining short)))
        ]
      ]
]

-- A successful allocation sums to the amount that was asked for.
pub allocate_fifo-total :
    (grants : List WalletGrant) (amount : ℤ) (out : List WalletAllocation)
    → allocate_fifo grants amount ≡ ok out
    → (allocated out ≡ amount) × (pos 1 ≤ℤ amount)
unfolding allocate_fifo
allocate_fifo-total grants amount out h = elim (Bool-cases (leb_ℤ amount (pos 0))) [
  | inl bad ↦ absurd (cc (rw bad at h))
  | inr good ↦
      let positive : pos 1 ≤ℤ amount = omega (int_laws, leb_ℤ-false amount (pos 0) good) in
      elim (Bool-cases (ltb_ℤ (pos 0) (allocate amount (sort_by_date grants)).0)) [
        | inl some_left ↦ absurd (ground arith)
        | inr none_left ↦
            let same : (allocate amount (sort_by_date grants)).1 ≡ out = ground arith in
            let (total, nonneg, _, _) =
              allocate-Leaves (sort_by_date grants) amount (omega arith) in
            let finished : (allocate amount (sort_by_date grants)).0 ≡ pos 0 =
              zero_of _ nonneg (ground arith) in
            (
              rw (← same) (omega (int_laws, parts_of_eq _ _ total, parts_of_eq _ _ finished)),
              positive,
            )
      ]
]

covered :
    (grants : List WalletGrant) (amount : ℤ) (out : List WalletAllocation)
    → allocate_fifo grants amount ≡ ok out
    → amount ≤ℤ available grants
unfolding allocate_fifo
covered grants amount out h = elim (Bool-cases (leb_ℤ amount (pos 0))) [
  | inl bad ↦ absurd (cc (rw bad at h))
  | inr good ↦ elim (Bool-cases (ltb_ℤ (pos 0) (allocate amount (sort_by_date grants)).0)) [
    | inl some_left ↦ absurd (ground arith)
    | inr none_left ↦
        let positive : pos 0 ≤ℤ amount = omega (int_laws, leb_ℤ-false amount (pos 0) good) in
        let (_, nonneg, enough, _) = allocate-Leaves (sort_by_date grants) amount positive in
        omega (
          int_laws,
          enough,
          parts_of_eq _ _ (sort_by_date-sum spendable grants),
          ltb_ℤ-false (pos 0) (allocate amount (sort_by_date grants)).0 none_left,
        )
  ]
]

finishes :
    (grants : List WalletGrant) (amount : ℤ)
    → pos 1 ≤ℤ amount
    → amount ≤ℤ available grants
    → (out : List WalletAllocation) × (allocate_fifo grants amount ≡ ok out)
unfolding allocate_fifo
finishes grants amount positive cover =
    let (_, _, _, exact) = allocate-Leaves (sort_by_date grants) amount (omega arith) in
    let total = sort_by_date-sum spendable grants in
    let finished : (allocate amount (sort_by_date grants)).0 ≤ℤ pos 0 = elim exact [
      | inl z ↦ omega (int_laws, parts_of_eq _ _ z)
      | inr e ↦ omega (int_laws, parts_of_eq _ _ e, parts_of_eq _ _ total)
    ] in
    ((allocate amount (sort_by_date grants)).1, ground arith)

-- `allocateFifo` succeeds exactly when the amount is positive and the positive rests of the grants
-- cover it.
pub allocate_fifo_iff :
    (grants : List WalletGrant) (amount : ℤ)
    → ((out : List WalletAllocation) × (allocate_fifo grants amount ≡ ok out))
      ↔ ((pos 1 ≤ℤ amount) × (amount ≤ℤ available grants))
allocate_fifo_iff grants amount = (
  λ (out, h). ((allocate_fifo-total grants amount out h).1, covered grants amount out h),
  λ (positive, cover). finishes grants amount positive cover,
)
