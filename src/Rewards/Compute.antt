-- ===== src/Rewards/Compute.antt =====
-- `RewardService` of packages/domain/rewards/src/reward.service.ts.
use alice_uprm.Prelude.{
  ℕ, ◌+◌, ◌*◌, ◌/◌, Bool, true, false, not, ◌&&◌, Option, none, some, List, [], ◌∷◌, leb, ◌==◌,
  if◌then◌else◌,
}
use alice_uprm.Prelude.Int.{ℤ, pos, negsuc, neg, leb_ℤ}
use alice_uprm.Prelude.Text.{text_eq}
use alice_uprm.Prelude.Exec.{Result, ok, err}
use alice_uprm.Prelude.Rows.{find, filter, any}
use alice_uprm.Rewards.Types.{
  TriggerEvent, percent, flat, RewardTier, RewardConfig, Ancestor, ComputedReward, Reason,
  ComputeRewardsResult,
}
use alice_uprm.Rewards.Decimal.{parse_money_to_minor, parse_percent_scaled}

-- `baseMinor * percentScaled / 1_000_000n`, which truncates towards 0.
unfoldable pub percent_of : ℤ → ℕ → ℤ
percent_of (pos n) p = pos (n * p / 1000000)
percent_of (negsuc n) p = neg (pos ((n + 1) * p / 1000000))

unfoldable pub apply_tier : ℤ → RewardTier → Result ℤ
apply_tier base_minor tier = elim tier.tier_type [
  | flat ↦ elim (parse_money_to_minor tier.value) [ ok n ↦ ok (pos n) | err e ↦ err e ]
  | percent ↦ elim (parse_percent_scaled tier.value) [
    | ok p ↦ ok (percent_of base_minor p)
    | err e ↦ err e
  ]
]

abbrev pub is_relevant : TriggerEvent → Ancestor → Bool
is_relevant event a = leb 1 a.depth && not (a.tenant_user_id == event.referred_tenant_user_id)

-- `sort` by `depth`, which is stable.
unfoldable pub insert_by_depth : Ancestor → List Ancestor → List Ancestor
insert_by_depth a [] = a ∷ []
insert_by_depth a (b ∷ bs) = if leb a.depth b.depth then a ∷ b ∷ bs else b ∷ insert_by_depth a bs

unfoldable pub sort_by_depth : List Ancestor → List Ancestor
sort_by_depth [] = []
sort_by_depth (a ∷ ancestors) = insert_by_depth a (sort_by_depth ancestors)

unfoldable pub tier_for : RewardConfig → ℕ → Option RewardTier
tier_for config depth = find (λ (t : RewardTier). t.depth == depth && t.enabled) config.tiers

unfoldable pub reward_for : RewardConfig → Ancestor → ℤ → ComputedReward
reward_for config a amount = record {
  referrer_tenant_user_id = a.tenant_user_id;
  depth = a.depth;
  amount_minor = amount;
  currency = config.currency;
}

abbrev pub with_reward :
    ComputedReward → Result (List ComputedReward) → Result (List ComputedReward)
with_reward r (ok rs) = ok (r ∷ rs)
with_reward r (err e) = err e

-- The loop over the relevant ancestors.
unfoldable pub rewards_for : RewardConfig → ℤ → List Ancestor → Result (List ComputedReward)
rewards_for config base [] = ok []
rewards_for config base (a ∷ ancestors) =
    let rest = rewards_for config base ancestors in
    elim (tier_for config a.depth) [
      | none ↦ rest
      | some tier ↦ elim (apply_tier base tier) [
        | err e ↦ err e
        | ok amount ↦
            if leb_ℤ amount (pos 0) then rest else with_reward (reward_for config a amount) rest
      ]
    ]

abbrev is_none_left : List ComputedReward → Bool
is_none_left [] = true
is_none_left (_ ∷ _) = false

unfoldable pub computed : ℕ → List ComputedReward → ComputeRewardsResult
computed post_at rewards = record {
  eligible = not (is_none_left rewards);
  reason = if is_none_left rewards then some Reason.no_eligible_ancestors else none;
  rewards = rewards;
  post_at = post_at;
}

unfoldable pub refused : ℕ → Reason → ComputeRewardsResult
refused post_at reason = record {
  eligible = false;
  reason = some reason;
  rewards = [];
  post_at = post_at;
}

unfoldable pub compute_rewards :
    TriggerEvent → RewardConfig → List Ancestor → Result ComputeRewardsResult
compute_rewards event config ancestors =
    let post_at = event.occurred_at + config.settlement_window_days * 86400000 in
    if not config.enabled
    then ok (refused post_at Reason.rewards_disabled)
    else if not (any (λ t. text_eq t event.event_type) config.triggers)
    then ok (refused post_at Reason.event_type_not_triggered)
    else elim (rewards_for config event.amount_minor
        (sort_by_depth (filter (is_relevant event) ancestors))) [
          | ok rewards ↦ ok (computed post_at rewards)
          | err e ↦ err e
        ]
