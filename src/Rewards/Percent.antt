-- ===== src/Rewards/Percent.antt =====
-- The amount of a percentage tier (`applyTier` of packages/domain/rewards/src/reward.service.ts).
use alice_uprm.Prelude.{ℕ, zero, suc, ◌+◌, ◌*◌, ◌/◌, ◌^◌, ◌≤◌, ◌<◌, ◌≡◌, ap, ◌++◌, arith, length}
use alice_uprm.Prelude.Int.{pos}
use alice_uprm.Prelude.Text.{Text}
use alice_uprm.Prelude.Exec.{ok}
use alice_uprm.Rewards.Types.{percent, RewardTier}
use alice_uprm.Rewards.Decimals.{AreDigits, decimal_text, place_value, parse_percent_scaled-IsExact}
use alice_uprm.Rewards.Compute.{percent_of, apply_tier}

mul_le : (a b p : ℕ) → a ≤ b → a * p ≤ b * p
mul_le a b zero h = omega arith
mul_le a b (suc p) h = omega (arith, mul_le a b p h)

floor_of :
    (n p v k : ℕ)
    → 1 ≤ k
    → p * k ≡ v * 10000
    → (n * p / 1000000 * (100 * k) ≤ n * v) × (n * v < (n * p / 1000000 + 1) * (100 * k))
floor_of n p v k pos_k h =
    let m = n * p / 1000000 in
    let low : m * 1000000 ≤ n * p = omega arith in
    let high : n * p + 1 ≤ (m + 1) * 1000000 = omega arith in
    let scale : n * (p * k) ≡ n * (v * 10000) = ap (λ (t : ℕ). n * t) h in
    (
      omega (arith, mul_le (m * 1000000) (n * p) k low, scale),
      omega (arith, mul_le (n * p + 1) ((m + 1) * 1000000) k high, scale),
    )

pow-positive : (n : ℕ) → 1 ≤ 10 ^ n
pow-positive zero = omega arith
pow-positive (suc n) =
    let grow : 10 ^ suc n ≡ 10 * 10 ^ n = grind arith in rw grow (omega (arith, pow-positive n))

-- With a percentage of up to four decimals, the reward on an amount of n minor units is n times the
-- percentage over 100, rounded down.
pub apply_tier-IsFloor :
    (n : ℕ) (tier : RewardTier) (whole frac : Text)
    → tier.tier_type ≡ percent
    → AreDigits whole
    → AreDigits frac
    → length frac ≤ 4
    → tier.value ≡ decimal_text whole frac
    → (m : ℕ) × (apply_tier (pos n) tier ≡ ok (pos m))
      × (m * (100 * 10 ^ length frac) ≤ n * place_value (whole ++ frac))
      × (n * place_value (whole ++ frac) < (m + 1) * (100 * 10 ^ length frac))
unfolding apply_tier percent_of
apply_tier-IsFloor n tier whole frac is_percent h k le e =
    let (p, parsed, exact) = parse_percent_scaled-IsExact whole frac h k le in
    let (low, high) =
      floor_of n p (place_value (whole ++ frac)) (10 ^ length frac) (pow-positive (length frac))
        exact in
    (n * p / 1000000, rw (is_percent, e, parsed, apply_tier), low, high)
