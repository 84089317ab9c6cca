-- ===== src/Rewards/Order.antt =====
-- The order in which `computeRewards` visits the ancestors
-- (packages/domain/rewards/src/reward.service.ts): by depth, and every relevant one.
use alice_uprm.Prelude.{ℕ, ◌≤◌, inl, inr, List, [], ◌∷◌, arith, leb, Bool-cases, All, All-imp}
use mathlib.Core.List.{Perm}
use mathlib.Core.List.Perm
use alice_uprm.Rewards.Types.{Ancestor}
use alice_uprm.Rewards.Compute.{insert_by_depth, sort_by_depth}

-- The nearest first.
abbrev pub IsByDepth {ℓ} : {A : Type ℓ} → (A → ℕ) → List A → Type 0
IsByDepth d [] = Unit
IsByDepth d (a ∷ bs) = All (λ b. d a ≤ d b) bs × IsByDepth d bs

module _ {κ} (P : Ancestor → Type κ) where
  insert_by_depth-All :
      (a : Ancestor) (bs : List Ancestor) → P a → All P bs → All P (insert_by_depth a bs)
  unfolding insert_by_depth
  insert_by_depth-All a [] p h = (p, tt)
  insert_by_depth-All a (b ∷ bs) p h = elim (Bool-cases (leb a.depth b.depth)) [
    | inl before ↦ rw before (p, h)
    | inr later ↦ rw later (h.0, insert_by_depth-All a bs p h.1)
  ]

abbrev depth_of : Ancestor → ℕ
depth_of a = a.depth

insert_by_depth-IsByDepth :
    (a : Ancestor) (bs : List Ancestor)
    → IsByDepth depth_of bs
    → IsByDepth depth_of (insert_by_depth a bs)
unfolding insert_by_depth
insert_by_depth-IsByDepth a [] h = (tt, tt)
insert_by_depth-IsByDepth a (b ∷ bs) h = elim (Bool-cases (leb a.depth b.depth)) [
  | inl before ↦
      let le : a.depth ≤ b.depth = ground arith in
      rw before (
        (le, All-imp (λ c. b.depth ≤ c.depth) (λ c. a.depth ≤ c.depth) bs (λ c k. omega arith) h.0),
        h,
      )
  | inr later ↦
      let le : b.depth ≤ a.depth = ground arith in
      rw later (
        insert_by_depth-All (λ c. b.depth ≤ c.depth) a bs le h.0,
        insert_by_depth-IsByDepth a bs h.1,
      )
]

pub sort_by_depth-IsByDepth : (bs : List Ancestor) → IsByDepth depth_of (sort_by_depth bs)
unfolding sort_by_depth
sort_by_depth-IsByDepth [] = tt
sort_by_depth-IsByDepth (a ∷ bs) =
    insert_by_depth-IsByDepth a (sort_by_depth bs) (sort_by_depth-IsByDepth bs)

insert_by_depth-perm : (a : Ancestor) (bs : List Ancestor) → Perm (insert_by_depth a bs) (a ∷ bs)
unfolding insert_by_depth
insert_by_depth-perm a [] = Perm.refl _
insert_by_depth-perm a (b ∷ bs) = elim (Bool-cases (leb a.depth b.depth)) [
  | inl before ↦ rw before (Perm.refl _)
  | inr later ↦ rw later (Perm.trans (Perm.cons b (insert_by_depth-perm a bs)) (Perm.swap a b bs))
]

pub sort_by_depth-perm : (bs : List Ancestor) → Perm (sort_by_depth bs) bs
unfolding sort_by_depth
sort_by_depth-perm [] = Perm.refl _
sort_by_depth-perm (a ∷ bs) =
    Perm.trans (insert_by_depth-perm a (sort_by_depth bs)) (Perm.cons a (sort_by_depth-perm bs))
