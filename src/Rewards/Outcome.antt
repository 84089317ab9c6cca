-- ===== src/Rewards/Outcome.antt =====
-- The results of `computeRewards` (packages/domain/rewards/src/reward.service.ts).
use alice_uprm.Prelude.{
  ◌≤◌, ◌≡◌, refl, inl, inr, Bool, true, false, not, ◌&&◌, ◌||◌, ◌==◌, if◌then◌else◌, List, [], ◌∷◌,
  arith, is_some, Bool-cases, Option-cases, length, All,
}
use alice_uprm.Prelude.Int.{ℤ, pos, leb_ℤ}
use alice_uprm.Prelude.Text.{Text, text_eq}
use alice_uprm.Prelude.Exec.{ok, Result-cases}
use alice_uprm.Prelude.Rows.{filter, any, find-All}
use alice_uprm.Rewards.Types.{
  TriggerEvent, RewardTier, RewardConfig, Ancestor, ComputedReward, ComputeRewardsResult,
}
use alice_uprm.Rewards.Decimals.{
  AreDigits, decimal_text, parse_money_to_minor-IsFloor, parse_percent_scaled-IsExact,
}
use alice_uprm.Rewards.Compute.{
  percent_of, apply_tier, is_relevant, sort_by_depth, tier_for, reward_for, rewards_for, computed,
  refused, compute_rewards,
}
use mathlib.Core.List.{Perm}
use alice_uprm.Rewards.Order.{IsByDepth, sort_by_depth-perm, sort_by_depth-IsByDepth}
use alice_uprm.Rewards.Tiers.{TierType-cases}
use alice_uprm.Rewards.Earned.{Rewards, rewards_for-Rewards, Rewards-IsByDepth}

abbrev pub is_triggered : RewardConfig → TriggerEvent → Bool
is_triggered config event = config.enabled && any (λ t. text_eq t event.event_type) config.triggers

-- The ancestors of a payment: at depth 1 or more, and not the user who paid.
abbrev pub entitled : TriggerEvent → List Ancestor → List Ancestor
entitled event [] = []
entitled event (a ∷ xs) =
    if a.depth == 0 || a.tenant_user_id == event.referred_tenant_user_id
    then entitled event xs
    else a ∷ entitled event xs

entitled-filter :
    (event : TriggerEvent) (xs : List Ancestor) → filter (is_relevant event) xs ≡ entitled event xs
entitled-filter event [] = refl
entitled-filter event (a ∷ xs) = ground (arith, entitled-filter event xs)

module _ (event : TriggerEvent) (config : RewardConfig) (ancestors : List Ancestor) where
  abbrev visited : List Ancestor
  visited = sort_by_depth (filter (is_relevant event) ancestors)

  module _ (result : ComputeRewardsResult)
      (run : compute_rewards event config ancestors ≡ ok result) where
    loop-run :
        is_triggered config event ≡ true
        → rewards_for config event.amount_minor visited ≡ ok result.rewards
    unfolding compute_rewards computed
    loop-run on = elim (Result-cases (rewards_for config event.amount_minor visited)) [
      | inl (rs, ran) ↦ ground (arith, ran)
      | inr (e, failed) ↦ absurd (ground (arith, failed))
    ]

-- When rewards are enabled and the event type is a trigger, the ancestors at depth 1 or more other than
-- the user who paid are visited, each as often as it is listed, the nearest first. A visited
-- ancestor to whom the first enabled tier of its depth gives a positive amount has one reward for the
-- visit, with the ancestor, its depth, the amount and the currency; the others have none, there is no
-- other reward, and the rewards stand in the order of the visits, so that the nearest come first.
pub compute_rewards-IsExact :
    (event : TriggerEvent) (config : RewardConfig) (ancestors : List Ancestor)
    (result : ComputeRewardsResult)
    → is_triggered config event ≡ true
    → compute_rewards event config ancestors ≡ ok result
    → (order : List Ancestor) × Perm order (entitled event ancestors)
      × IsByDepth (λ a. a.depth) order
      × Rewards config event.amount_minor order result.rewards
      × IsByDepth (λ r. r.depth) result.rewards
compute_rewards-IsExact event config ancestors result on run =
    let order = visited event config ancestors in
    let loop =
      rewards_for-Rewards config event.amount_minor order result.rewards
        (loop-run event config ancestors result run on) in
    let sorted = sort_by_depth-IsByDepth (filter (is_relevant event) ancestors) in
    (
      order,
      rw⁻¹ (entitled-filter event ancestors)
          (sort_by_depth-perm (filter (is_relevant event) ancestors)),
      sorted,
      loop,
      Rewards-IsByDepth config event.amount_minor order result.rewards loop sorted,
    )

abbrev pub is_empty : List ComputedReward → Bool
is_empty [] = true
is_empty (_ ∷ _) = false

-- A result is eligible exactly when it has a reward, it has a reason exactly when it is not eligible,
-- and it has no reward when rewards are disabled or the event type is no trigger.
pub compute_rewards-eligible :
    (event : TriggerEvent) (config : RewardConfig) (ancestors : List Ancestor)
    (result : ComputeRewardsResult)
    → compute_rewards event config ancestors ≡ ok result
    → (result.eligible ≡ not (is_empty result.rewards))
      × (is_some result.reason ≡ not result.eligible)
      × (is_triggered config event ≡ false → result.rewards ≡ [])
unfolding compute_rewards computed refused
compute_rewards-eligible event config ancestors result run =
    elim (Result-cases (rewards_for config event.amount_minor (visited event config ancestors))) [
      | inl ([], ran) ↦ ground (arith, ran)
      | inl (r ∷ rs, ran) ↦ ground (arith, ran)
      | inr (e, failed) ↦ ground (arith, failed)
    ]

-- The texts that the schema admits.
abbrev pub IsDecimal : Text → Type 0
IsDecimal s =
    (whole : Text) × (frac : Text) × AreDigits whole
    × AreDigits frac
    × (length frac ≤ 4)
    × (s ≡ decimal_text whole frac)

apply_tier-total :
    (base : ℤ) (tier : RewardTier)
    → IsDecimal tier.value
    → (amount : ℤ) × (apply_tier base tier ≡ ok amount)
unfolding apply_tier
apply_tier-total base tier (whole, frac, h, k, le, e) =
    let (p, percent_ok, _) = parse_percent_scaled-IsExact whole frac h k le in
    let (c, money_ok, _, _) = parse_money_to_minor-IsFloor whole frac h k le in
    elim (TierType-cases tier.tier_type) [
      | inl is_percent ↦ (percent_of base p, rw (is_percent, e, percent_ok, apply_tier))
      | inr is_flat ↦ (pos c, rw (is_flat, e, money_ok, apply_tier))
    ]

rewards_for-total :
    (config : RewardConfig) (base : ℤ) (xs : List Ancestor)
    → All (λ (t : RewardTier). IsDecimal t.value) config.tiers
    → (rs : List ComputedReward) × (rewards_for config base xs ≡ ok rs)
unfolding rewards_for tier_for
rewards_for-total config base [] h = ([], refl)
rewards_for-total config base (a ∷ xs) h =
    let (rs, ran) = rewards_for-total config base xs h in
    elim (Option-cases (tier_for config a.depth)) [
      | inl no_tier ↦ (rs, rw (no_tier, rewards_for) ran)
      | inr (t, tier) ↦
          let (amount, applied) =
            apply_tier-total base t
              (find-All (λ (x : RewardTier). IsDecimal x.value) _ config.tiers t h tier) in
          elim (Bool-cases (leb_ℤ amount (pos 0))) [
            | inl low ↦ (rs, rw (tier, applied, low, rewards_for) ran)
            | inr high ↦
                (reward_for config a amount ∷ rs, rw (tier, applied, high, rewards_for, ran))
          ]
    ]

-- With tier values that the schema admits, the computation never throws.
pub compute_rewards-total :
    (event : TriggerEvent) (config : RewardConfig) (ancestors : List Ancestor)
    → All (λ (t : RewardTier). IsDecimal t.value) config.tiers
    → (result : ComputeRewardsResult) × (compute_rewards event config ancestors ≡ ok result)
unfolding compute_rewards
compute_rewards-total event config ancestors h =
    let (rs, ran) =
      rewards_for-total config event.amount_minor (visited event config ancestors) h in
    elim (Bool-cases config.enabled) [
      | inr disabled ↦ rw (disabled, compute_rewards) (_, refl)
      | inl enabled ↦ elim (Bool-cases (any (λ t. text_eq t event.event_type) config.triggers)) [
        | inr other ↦ rw (enabled, other, compute_rewards) (_, refl)
        | inl triggered ↦ rw (ran, enabled, triggered, compute_rewards) (_, refl)
      ]
    ]
