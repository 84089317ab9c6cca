-- ===== src/Rewards/Tiers.antt =====
-- What the tiers of a configuration give an ancestor (`tierByDepth` and `applyTier` of
-- packages/domain/rewards/src/reward.service.ts), said without the code's own functions.
use alice_uprm.Prelude.{
  ℕ, ◌≡◌, refl, ◌≢◌, ◌⊎◌, inl, inr, Bool, true, false, ◌&&◌, some, List, [], ◌∷◌, arith, ◌==◌,
  ==_iff, Bool-cases,
}
use alice_uprm.Prelude.Int.{ℤ, pos, ◌≤ℤ◌}
use alice_uprm.Prelude.Exec.{ok, Result-cases}
use alice_uprm.Prelude.Rows.{find}
use alice_uprm.Rewards.Types.{TierType, percent, flat, RewardTier, RewardConfig, Ancestor}
use alice_uprm.Rewards.Decimal.{parse_money_to_minor, parse_percent_scaled}
use alice_uprm.Rewards.Compute.{percent_of, apply_tier, tier_for}

-- The tier is of the depth and enabled.
abbrev pub Applies : ℕ → RewardTier → Type 0
Applies depth t = (t.depth ≡ depth) × (t.enabled ≡ true)

-- The tier is the first one that applies.
abbrev pub IsFirst : ℕ → List RewardTier → RewardTier → Type 0
IsFirst depth [] t = ⊥
IsFirst depth (u ∷ us) t =
    (Applies depth u × (u ≡ t)) ⊎ ((u.depth ≢ depth ⊎ u.enabled ≡ false) × IsFirst depth us t)

-- The amount of the tier: its share of the base, or its own value.
abbrev pub IsWorth : ℤ → RewardTier → ℤ → Type 0
IsWorth base t amount =
    ((t.tier_type ≡ percent)
      × (p : ℕ) × (parse_percent_scaled t.value ≡ ok p)
      × (amount ≡ percent_of base p))
    ⊎ ((t.tier_type ≡ flat) × (n : ℕ) × (parse_money_to_minor t.value ≡ ok n) × (amount ≡ pos n))

-- The first tier that applies at the ancestor's depth is worth the amount, which is positive.
abbrev pub Gives : RewardConfig → ℤ → Ancestor → ℤ → Type 0
Gives config base a amount =
    (tier : RewardTier) × IsFirst a.depth config.tiers tier
    × IsWorth base tier amount
    × (pos 1 ≤ℤ amount)

abbrev applies : ℕ → RewardTier → Bool
applies depth t = t.depth == depth && t.enabled

find-IsFirst :
    (depth : ℕ) (ts : List RewardTier) (t : RewardTier)
    → find (applies depth) ts ≡ some t
    → IsFirst depth ts t
find-IsFirst depth [] t h = cc
find-IsFirst depth (u ∷ us) t h = elim (Bool-cases (u.depth == depth)) [
  | inr apart ↦ inr (
    inl (λ e. absurd (cc (rw ((==_iff u.depth depth).1 e) at apart))),
    find-IsFirst depth us t (rw apart at h),
  )
  | inl same ↦ elim (Bool-cases u.enabled) [
    | inl on ↦
        let e : some u ≡ some t = ground arith in inl (((==_iff u.depth depth).0 same, on), cc)
    | inr off ↦ inr (inr off, find-IsFirst depth us t (rw (same, off) at h))
  ]
]

IsFirst-find :
    (depth : ℕ) (ts : List RewardTier) (t : RewardTier)
    → IsFirst depth ts t
    → find (applies depth) ts ≡ some t
IsFirst-find depth [] t h = absurd h
IsFirst-find depth (u ∷ us) t (inl ((at_depth, on), same)) =
    let own : (u.depth == depth) ≡ true = (==_iff u.depth depth).1 at_depth in
    ground (arith, own, on, same)
IsFirst-find depth (u ∷ us) t (inr (inr off, later)) = elim (Bool-cases (u.depth == depth)) [
  | inl same ↦ rw (same, off) (IsFirst-find depth us t later)
  | inr apart ↦ rw apart (IsFirst-find depth us t later)
]
IsFirst-find depth (u ∷ us) t (inr (inl other, later)) = elim (Bool-cases (u.depth == depth)) [
  | inl same ↦ absurd (other ((==_iff u.depth depth).0 same))
  | inr apart ↦ rw apart (IsFirst-find depth us t later)
]

pub tier_for-IsFirst :
    (config : RewardConfig) (depth : ℕ) (t : RewardTier)
    → tier_for config depth ≡ some t
    → IsFirst depth config.tiers t
unfolding tier_for
tier_for-IsFirst config depth t h = find-IsFirst depth config.tiers t h

pub IsFirst-tier_for :
    (config : RewardConfig) (depth : ℕ) (t : RewardTier)
    → IsFirst depth config.tiers t
    → tier_for config depth ≡ some t
unfolding tier_for
IsFirst-tier_for config depth t h = IsFirst-find depth config.tiers t h

pub TierType-cases : (t : TierType) → (t ≡ percent) ⊎ (t ≡ flat)
TierType-cases percent = inl refl
TierType-cases flat = inr refl

pub apply_tier-IsWorth :
    (base : ℤ) (t : RewardTier) (amount : ℤ) → apply_tier base t ≡ ok amount → IsWorth base t amount
unfolding apply_tier
apply_tier-IsWorth base t amount h = elim (TierType-cases t.tier_type) [
  | inl share ↦ elim (Result-cases (parse_percent_scaled t.value)) [
    | inl (p, parsed) ↦
        let e : ok (percent_of base p) ≡ ok amount = rw (share, parsed, apply_tier) at h in
        inl (share, p, parsed, cc)
    | inr (e, failed) ↦ absurd (cc (rw (share, failed, apply_tier) at h))
  ]
  | inr own ↦ elim (Result-cases (parse_money_to_minor t.value)) [
    | inl (n, parsed) ↦
        let e : ok (pos n) ≡ ok amount = rw (own, parsed, apply_tier) at h in
        inr (own, n, parsed, cc)
    | inr (e, failed) ↦ absurd (cc (rw (own, failed, apply_tier) at h))
  ]
]

pub IsWorth-apply_tier :
    (base : ℤ) (t : RewardTier) (amount : ℤ) → IsWorth base t amount → apply_tier base t ≡ ok amount
unfolding apply_tier
IsWorth-apply_tier base t amount (inl (share, p, parsed, e)) =
    rw (share, parsed, e, apply_tier) refl
IsWorth-apply_tier base t amount (inr (own, n, parsed, e)) = rw (own, parsed, e, apply_tier) refl
