-- ===== src/Rewards/Earned.antt =====
-- What the loop of `computeRewards` returns (packages/domain/rewards/src/reward.service.ts): one reward
-- for each visited ancestor to whom a tier gives something, in the order of the visits.
use alice_uprm.Prelude.{
  ℕ, ◌≤◌, ◌≡◌, sym, inl, inr, List, [], ◌∷◌, arith, Bool-cases, Option-cases, All,
}
use alice_uprm.Prelude.Int.{ℤ, pos, leb_ℤ, int_laws, leb_ℤ-false}
use alice_uprm.Prelude.Exec.{ok, Result-cases}
use alice_uprm.Rewards.Types.{RewardConfig, Ancestor, ComputedReward}
use alice_uprm.Rewards.Tiers.{
  Gives, tier_for-IsFirst, IsFirst-tier_for, apply_tier-IsWorth, IsWorth-apply_tier,
}
use alice_uprm.Rewards.Compute.{apply_tier, tier_for, reward_for, rewards_for}
use alice_uprm.Rewards.Order.{IsByDepth}

-- The reward of the amount for the ancestor, field by field.
abbrev pub reward_of : RewardConfig → Ancestor → ℤ → ComputedReward
reward_of config a amount = record {
  referrer_tenant_user_id = a.tenant_user_id;
  depth = a.depth;
  amount_minor = amount;
  currency = config.currency;
}

-- The rewards of a list of ancestors: each ancestor to whom its tier gives an amount has the reward of
-- that amount, and the others have none.
pub data Rewards (config : RewardConfig) (base : ℤ)
    : List Ancestor → List ComputedReward → Type 0 where
  done : Rewards config base [] []
  skipped :
      {a : Ancestor} {xs : List Ancestor} {rs : List ComputedReward}
      → ((amount : ℤ) → Gives config base a amount → ⊥)
      → Rewards config base xs rs
      → Rewards config base (a ∷ xs) rs
  given :
      {a : Ancestor} {xs : List Ancestor} {rs : List ComputedReward} (amount : ℤ)
      → Gives config base a amount
      → Rewards config base xs rs
      → Rewards config base (a ∷ xs) (reward_of config a amount ∷ rs)

module _ (config : RewardConfig) (base : ℤ) where
  pub rewards_for-Rewards :
      (xs : List Ancestor) (rs : List ComputedReward)
      → rewards_for config base xs ≡ ok rs
      → Rewards config base xs rs
  unfolding rewards_for reward_for
  rewards_for-Rewards [] rs h = let e : [] ≡ rs = ground arith in rw (sym e) Rewards.done
  rewards_for-Rewards (a ∷ xs) rs h = elim (Option-cases (tier_for config a.depth)) [
    | inl no_tier ↦
        Rewards.skipped
          (λ amount (t, first, _, _).
            let found = IsFirst-tier_for config a.depth t first in ground arith)
          (rewards_for-Rewards xs rs (rw (no_tier, rewards_for) at h))
    | inr (t, tier) ↦ elim (Result-cases (apply_tier base t)) [
      | inr (e, failed) ↦ absurd (cc (rw (tier, failed, rewards_for) at h))
      | inl (amount, applied) ↦ elim (Bool-cases (leb_ℤ amount (pos 0))) [
        | inl low ↦
            Rewards.skipped
              (λ other (t', first, worth, positive).
                let found = IsFirst-tier_for config a.depth t' first in
                let gives = IsWorth-apply_tier base t' other worth in ground arith)
              (rewards_for-Rewards xs rs (rw (tier, applied, low, rewards_for) at h))
        | inr high ↦
            let run = rw (tier, applied, high, rewards_for) at h in
            elim (Result-cases (rewards_for config base xs)) [
              | inr (e, failed) ↦ absurd (cc (rw failed at run))
              | inl (rest, ran) ↦
                  let result : ok (reward_of config a amount ∷ rest) ≡ ok rs = rw ran at run in
                  let same : reward_of config a amount ∷ rest ≡ rs = cc in
                  rw (sym same) (
                    Rewards.given amount
                      (
                        t,
                        tier_for-IsFirst config a.depth t tier,
                        apply_tier-IsWorth base t amount applied,
                        omega (int_laws, leb_ℤ-false amount (pos 0) high),
                      )
                      (rewards_for-Rewards xs rest ran))
            ]
      ]
    ]
  ]

  Rewards-depths :
      (n : ℕ) (xs : List Ancestor) (rs : List ComputedReward)
      → Rewards config base xs rs
      → All (λ a. n ≤ a.depth) xs
      → All (λ r. n ≤ r.depth) rs
  Rewards-depths n _ _ Rewards.done h = tt
  Rewards-depths n _ _ (Rewards.skipped {a} {xs} {rs} no_gift r) h = Rewards-depths n xs rs r h.1
  Rewards-depths n _ _ (Rewards.given {a} {xs} {rs} amount gives r) h =
      (h.0, Rewards-depths n xs rs r h.1)

  pub Rewards-IsByDepth :
      (xs : List Ancestor) (rs : List ComputedReward)
      → Rewards config base xs rs
      → IsByDepth (λ a. a.depth) xs
      → IsByDepth (λ r. r.depth) rs
  Rewards-IsByDepth _ _ Rewards.done h = tt
  Rewards-IsByDepth _ _ (Rewards.skipped {a} {xs} {rs} no_gift r) h = Rewards-IsByDepth xs rs r h.1
  Rewards-IsByDepth _ _ (Rewards.given {a} {xs} {rs} amount gives r) h =
      (Rewards-depths a.depth xs rs r h.0, Rewards-IsByDepth xs rs r h.1)
