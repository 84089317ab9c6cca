-- ===== src/Rewards/Types.antt =====
-- The events, configurations and results of packages/domain/rewards/src/reward.service.ts and
-- config.ts. `settlementWindowDays` and the depths are natural numbers by the schema of config.ts;
-- dates are in milliseconds.
use alice_uprm.Prelude.{ℕ, Bool, Option, List}
use alice_uprm.Prelude.Int.{ℤ}
use alice_uprm.Prelude.Text.{Text}

pub record TriggerEvent : Type 0 where
  pub tenant_id : ℕ
  pub event_id : ℕ
  pub event_type : Text
  pub occurred_at : ℕ
  pub referred_tenant_user_id : ℕ
  pub amount_minor : ℤ
  pub currency : Text

pub data TierType : Type 0 where
  percent flat : TierType

pub record RewardTier : Type 0 where
  pub depth : ℕ
  pub tier_type : TierType
  pub value : Text
  pub enabled : Bool

pub record RewardConfig : Type 0 where
  pub enabled : Bool
  pub currency : Text
  pub settlement_window_days : ℕ
  pub triggers : List Text
  pub tiers : List RewardTier

pub record Ancestor : Type 0 where
  pub tenant_user_id : ℕ
  pub depth : ℕ

pub record ComputedReward : Type 0 where
  pub referrer_tenant_user_id : ℕ
  pub depth : ℕ
  pub amount_minor : ℤ
  pub currency : Text

pub data Reason : Type 0 where
  rewards_disabled event_type_not_triggered no_eligible_ancestors : Reason

pub record ComputeRewardsResult : Type 0 where
  pub eligible : Bool
  pub reason : Option Reason
  pub rewards : List ComputedReward
  pub post_at : ℕ
