-- ===== src/Rewards/Tests.antt =====
-- Runs of the reward computation (packages/domain/rewards/src/reward.service.ts).
use alice_uprm.Prelude.{
  ℕ, ◌+◌, ◌*◌, ◌^◌, ◌≤◌, ◌<◌, ◌≡◌, refl, true, false, not, none, List, [], ◌∷◌, ◌++◌, arith,
  is_some, All,
}
use alice_uprm.Prelude.Int.{pos}
use alice_uprm.Prelude.Text.{codes, text_eq}
use alice_uprm.Prelude.Exec.{ok}
use alice_uprm.Rewards.Types.{
  TriggerEvent, percent, flat, RewardTier, RewardConfig, Ancestor, ComputedReward,
  ComputeRewardsResult,
}
use alice_uprm.Rewards.Decimal.{
  split, digits_from, big_int, scaled, parse_money_to_minor, parse_percent_scaled,
}
use alice_uprm.Rewards.Decimals.{
  AreDigits, decimal_text, place_value, parse_money_to_minor-IsFloor, parse_percent_scaled-IsExact,
}
use alice_uprm.Rewards.Compute.{
  percent_of, apply_tier, insert_by_depth, sort_by_depth, tier_for, reward_for, rewards_for,
  computed, compute_rewards,
}
use mathlib.Core.List.{Perm}
use alice_uprm.Rewards.Order.{IsByDepth}
use alice_uprm.Rewards.Earned.{Rewards}
use alice_uprm.Rewards.Percent.{apply_tier-IsFloor}
use alice_uprm.Rewards.Outcome.{
  entitled, is_empty, is_triggered, IsDecimal, compute_rewards-IsExact, compute_rewards-eligible,
  compute_rewards-total,
}

abbrev payment : TriggerEvent
payment = record {
  tenant_id = 7;
  event_id = 1;
  event_type = codes "payment";
  occurred_at = 1000;
  referred_tenant_user_id = 3;
  amount_minor = pos 2999;
  currency = codes "EUR";
}

abbrev tenth : RewardTier
tenth = record { depth = 1; tier_type = percent; value = codes "2.5"; enabled = true }

abbrev bonus : RewardTier
bonus = record { depth = 2; tier_type = flat; value = codes "5"; enabled = true }

abbrev config : RewardConfig
config = record {
  enabled = true;
  currency = codes "credit";
  settlement_window_days = 1;
  triggers = codes "payment" ∷ [];
  tiers = tenth ∷ bonus ∷ [];
}

abbrev referrers : List Ancestor
referrers =
    record { tenant_user_id = 5; depth = 2 }
    ∷ record { tenant_user_id = 4; depth = 1 }
    ∷ record { tenant_user_id = 3; depth = 1 }
    ∷ record { tenant_user_id = 6; depth = 3 }
    ∷ []

abbrev earned : List ComputedReward
earned =
    record {
      referrer_tenant_user_id = 4;
      depth = 1;
      amount_minor = pos 74;
      currency = codes "credit";
    }
    ∷ record {
      referrer_tenant_user_id = 5;
      depth = 2;
      amount_minor = pos 500;
      currency = codes "credit";
    }
    ∷ []

abbrev outcome : ComputeRewardsResult
outcome = record { eligible = true; reason = none; rewards = earned; post_at = 86401000 }

compute-payment : compute_rewards payment config referrers ≡ ok outcome
unfolding compute_rewards computed rewards_for tier_for apply_tier reward_for sort_by_depth
    insert_by_depth percent_of parse_money_to_minor parse_percent_scaled scaled split big_int
    digits_from text_eq
compute-payment = refl

triggered : is_triggered config payment ≡ true
unfolding text_eq
triggered = refl

compute_rewards-IsExact_example :
    (order : List Ancestor) × Perm order (entitled payment referrers)
    × IsByDepth (λ a. a.depth) order
    × Rewards config payment.amount_minor order earned
    × IsByDepth (λ r. r.depth) earned
compute_rewards-IsExact_example =
    compute_rewards-IsExact payment config referrers outcome triggered compute-payment

compute_rewards-eligible_example :
    (outcome.eligible ≡ not (is_empty outcome.rewards))
    × (is_some outcome.reason ≡ not outcome.eligible)
    × (is_triggered config payment ≡ false → outcome.rewards ≡ [])
compute_rewards-eligible_example =
    compute_rewards-eligible payment config referrers outcome compute-payment

five : AreDigits (codes "5")
five = ((omega arith, omega arith), tt)

two : AreDigits (codes "2")
two = ((omega arith, omega arith), tt)

IsDecimal-tiers : All (λ (t : RewardTier). IsDecimal t.value) config.tiers
IsDecimal-tiers = (
  (codes "2", codes "5", two, five, omega arith, refl),
  ((codes "5", [], five, tt, omega arith, refl), tt),
)

compute_rewards-total_example :
    (result : ComputeRewardsResult) × (compute_rewards payment config referrers ≡ ok result)
compute_rewards-total_example = compute_rewards-total payment config referrers IsDecimal-tiers

apply_tier-IsFloor_example :
    (m : ℕ) × (apply_tier (pos 2999) tenth ≡ ok (pos m))
    × (m * (100 * 10 ^ 1) ≤ 2999 * place_value (codes "2" ++ codes "5"))
    × (2999 * place_value (codes "2" ++ codes "5") < (m + 1) * (100 * 10 ^ 1))
apply_tier-IsFloor_example =
    apply_tier-IsFloor 2999 tenth (codes "2") (codes "5") refl two five (omega arith) refl

parse_money_to_minor-IsFloor_example :
    (cents : ℕ) × (parse_money_to_minor (decimal_text (codes "2") (codes "5")) ≡ ok cents)
    × (cents * 10 ^ 1 ≤ place_value (codes "2" ++ codes "5") * 100)
    × (place_value (codes "2" ++ codes "5") * 100 < (cents + 1) * 10 ^ 1)
parse_money_to_minor-IsFloor_example =
    parse_money_to_minor-IsFloor (codes "2") (codes "5") two five (omega arith)

parse_percent_scaled-IsExact_example :
    (p : ℕ) × (parse_percent_scaled (decimal_text (codes "2") (codes "5")) ≡ ok p)
    × (p * 10 ^ 1 ≡ place_value (codes "2" ++ codes "5") * 10000)
parse_percent_scaled-IsExact_example =
    parse_percent_scaled-IsExact (codes "2") (codes "5") two five (omega arith)
