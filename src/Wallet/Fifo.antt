-- ===== src/Wallet/Fifo.antt =====
-- What `allocateFifo` returns (packages/domain/wallet/src/wallet-allocation.service.ts): the
-- oldest grants with a positive rest are used up in order, and the last one as far as is needed.
use alice_uprm.Prelude.{
  ℕ, ◌≤◌, ◌≡◌, refl, ap, ◌∙◌, inl, inr, Bool, true, false, List, [], ◌∷◌, ◌++◌, map, arith, leb,
  Bool-cases, All, All-imp,
}
use alice_uprm.Prelude.Int.{
  ℤ, pos, ◌+ℤ◌, ◌-ℤ◌, ◌≤ℤ◌, leb_ℤ, ltb_ℤ, int_laws, leb_ℤ-false, ltb_ℤ-false,
}
use alice_uprm.Prelude.Exec.{ok}
use alice_uprm.Prelude.Rows.{filter, sum_by}
use mathlib.Core.List.{Perm}
use mathlib.Core.List.Perm
use alice_uprm.Wallet.Types.{WalletGrant, WalletAllocation}
use alice_uprm.Wallet.Allocation.{insert_by_date, sort_by_date, allocation, allocate, allocate_fifo}

abbrev pub is_positive : WalletGrant → Bool
is_positive g = ltb_ℤ (pos 0) g.amount_remaining

-- The whole rest of a grant.
abbrev pub whole : WalletGrant → WalletAllocation
whole g = allocation g g.amount_remaining

abbrev pub remaining_of : List WalletGrant → ℤ
remaining_of gs = sum_by (λ g. g.amount_remaining) gs

abbrev pub allocated : List WalletAllocation → ℤ
allocated xs = sum_by (λ a. a.amount_credits) xs

-- Oldest first.
abbrev pub IsByDate : List WalletGrant → Type 0
IsByDate [] = Unit
IsByDate (g ∷ gs) = All (λ h. g.created_at ≤ h.created_at) gs × IsByDate gs

insert_by_date-All :
    (n : ℕ) (g : WalletGrant) (gs : List WalletGrant)
    → n ≤ g.created_at
    → All (λ h. n ≤ h.created_at) gs
    → All (λ h. n ≤ h.created_at) (insert_by_date g gs)
unfolding insert_by_date
insert_by_date-All n g [] h k = (h, tt)
insert_by_date-All n g (x ∷ xs) h k = ground (arith, insert_by_date-All n g xs h k.1)

insert_by_date-IsByDate :
    (g : WalletGrant) (gs : List WalletGrant) → IsByDate gs → IsByDate (insert_by_date g gs)
unfolding insert_by_date
insert_by_date-IsByDate g [] h = (tt, tt)
insert_by_date-IsByDate g (x ∷ xs) h = elim (Bool-cases (leb g.created_at x.created_at)) [
  | inl before ↦
      let le : g.created_at ≤ x.created_at = ground arith in
      rw before (
        (
          le,
          All-imp (λ y. x.created_at ≤ y.created_at) (λ y. g.created_at ≤ y.created_at) xs
              (λ y k. omega arith) h.0,
        ),
        h,
      )
  | inr later ↦
      let le : x.created_at ≤ g.created_at = ground arith in
      rw later (insert_by_date-All x.created_at g xs le h.0, insert_by_date-IsByDate g xs h.1)
]

sort_by_date-IsByDate : (gs : List WalletGrant) → IsByDate (sort_by_date gs)
unfolding sort_by_date
sort_by_date-IsByDate [] = tt
sort_by_date-IsByDate (g ∷ gs) =
    insert_by_date-IsByDate g (sort_by_date gs) (sort_by_date-IsByDate gs)

insert_by_date-perm :
    (g : WalletGrant) (gs : List WalletGrant) → Perm (insert_by_date g gs) (g ∷ gs)
unfolding insert_by_date
insert_by_date-perm g [] = Perm.refl _
insert_by_date-perm g (x ∷ xs) = elim (Bool-cases (leb g.created_at x.created_at)) [
  | inl before ↦ rw before (Perm.refl _)
  | inr later ↦ rw later (Perm.trans (Perm.cons x (insert_by_date-perm g xs)) (Perm.swap g x xs))
]

pub sort_by_date-perm : (gs : List WalletGrant) → Perm (sort_by_date gs) gs
unfolding sort_by_date
sort_by_date-perm [] = Perm.refl _
sort_by_date-perm (g ∷ gs) =
    Perm.trans (insert_by_date-perm g (sort_by_date gs)) (Perm.cons g (sort_by_date-perm gs))

-- The three ways of one round.
pub allocate_zero : (gs : List WalletGrant) → allocate (pos 0) gs ≡ (pos 0, [])
unfolding allocate
allocate_zero [] = refl
allocate_zero (g ∷ gs) = refl

module _ (r : ℤ) (g : WalletGrant) (gs : List WalletGrant) (h : pos 1 ≤ℤ r) where
  pub allocate_skip : is_positive g ≡ false → allocate r (g ∷ gs) ≡ allocate r gs
  unfolding allocate
  allocate_skip n = ground arith

  pub allocate-whole :
      is_positive g ≡ true
      → leb_ℤ r g.amount_remaining ≡ false
      → allocate r (g ∷ gs) ≡ (
        (allocate (r -ℤ g.amount_remaining) gs).0,
        whole g ∷ (allocate (r -ℤ g.amount_remaining) gs).1,
      )
  unfolding allocate
  allocate-whole n k = rw k (ground arith)

  pub allocate_last :
      is_positive g ≡ true
      → leb_ℤ r g.amount_remaining ≡ true
      → allocate r (g ∷ gs) ≡ (pos 0, allocation g r ∷ [])
  allocate_last n k = first_step ∙ rw (none_left, allocate_zero gs)
    where
      none_left : r -ℤ r ≡ pos 0
      none_left = omega int_laws

      first_step :
          allocate r (g ∷ gs)
          ≡ ((allocate (r -ℤ r) gs).0, allocation g r ∷ (allocate (r -ℤ r) gs).1)
      first_step = unfold allocate in rw k (ground arith)

-- From a positive amount, if the loop ends with nothing left.
abbrev pub Used : ℤ → List WalletGrant → List WalletAllocation → Type 0
Used r gs out =
    (used : List WalletGrant) × (last : WalletGrant) × (rest : List WalletGrant) × (filter
        is_positive gs
      ≡ used ++ last ∷ rest)
    × (out ≡ map whole used ++ allocation last (r -ℤ remaining_of used) ∷ [])
    × (pos 1 ≤ℤ r -ℤ remaining_of used)
    × (r -ℤ remaining_of used ≤ℤ last.amount_remaining)

minus_zero : (r : ℤ) → r -ℤ pos 0 ≡ r
minus_zero r = omega int_laws

minus_sum : (r a b : ℤ) → r -ℤ (a +ℤ b) ≡ r -ℤ a -ℤ b
minus_sum r a b = omega int_laws

allocate-Used :
    (r : ℤ) (gs : List WalletGrant)
    → pos 1 ≤ℤ r
    → (allocate r gs).0 ≤ℤ pos 0
    → Used r gs (allocate r gs).1
unfolding sum_by
allocate-Used r [] h e = absurd (unfold allocate in omega arith)
allocate-Used r (g ∷ gs) h e = elim (Bool-cases (is_positive g)) [
  | inr empty ↦
      let step = allocate_skip r g gs h empty in
      rw (step, empty) (allocate-Used r gs h (rw step at e))
  | inl full ↦ elim (Bool-cases (leb_ℤ r g.amount_remaining)) [
    | inl enough ↦
        rw (allocate_last r g gs h full enough, full)
          (
            [],
            g,
            filter is_positive gs,
            refl,
            rw (minus_zero r),
            rw (minus_zero r) h,
            rw (minus_zero r) (ground arith),
          )
    | inr short ↦
        let step = allocate-whole r g gs h full short in
        let left : pos 1 ≤ℤ r -ℤ g.amount_remaining =
          omega (int_laws, leb_ℤ-false r g.amount_remaining short) in
        let (used, last, rest, split, out, some_left, fits) =
          allocate-Used (r -ℤ g.amount_remaining) gs left (rw step at e) in
        rw (step, full)
          (
            g ∷ used,
            last,
            rest,
            ap (◌∷◌ g) split,
            rw (minus_sum r g.amount_remaining (remaining_of used)) (ap (◌∷◌ (whole g)) out),
            rw (minus_sum r g.amount_remaining (remaining_of used)) some_left,
            rw (minus_sum r g.amount_remaining (remaining_of used)) fits,
          )
  ]
]

abbrev pub Allocated : List WalletGrant → ℤ → List WalletAllocation → Type 0
Allocated grants amount out =
    (sorted : List WalletGrant) × Perm sorted grants × IsByDate sorted × Used amount sorted out

-- An allocation that succeeds uses up the oldest grants with a positive rest, in the order of their
-- dates, each whole, and then takes what is still missing, which is positive, from the next one.
pub allocate_fifo-oldest_first :
    (grants : List WalletGrant) (amount : ℤ) (out : List WalletAllocation)
    → allocate_fifo grants amount ≡ ok out
    → Allocated grants amount out
unfolding allocate_fifo
allocate_fifo-oldest_first grants amount out h = elim (Bool-cases (leb_ℤ amount (pos 0))) [
  | inl bad ↦ absurd (cc (rw bad at h))
  | inr good ↦ elim (Bool-cases (ltb_ℤ (pos 0) (allocate amount (sort_by_date grants)).0)) [
    | inl some_left ↦ absurd (ground arith)
    | inr none_left ↦
        let same : (allocate amount (sort_by_date grants)).1 ≡ out = ground arith in
        (
          sort_by_date grants,
          sort_by_date-perm grants,
          sort_by_date-IsByDate grants,
          rw same at (
              allocate-Used amount (sort_by_date grants)
                (omega (int_laws, leb_ℤ-false amount (pos 0) good))
                (ltb_ℤ-false (pos 0) (allocate amount (sort_by_date grants)).0 none_left)),
        )
  ]
]
