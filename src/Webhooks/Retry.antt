-- ===== src/Webhooks/Retry.antt =====
-- The delays between attempts (`computeRetryAt` of apps/worker/src/webhooks/webhook-dispatcher.ts).
use alice_uprm.Prelude.{
  ℕ, zero, suc, ◌+◌, ◌-◌, ◌*◌, ◌^◌, ◌≤◌, ◌≡◌, refl, inl, inr, false, arith, leb, Bool-cases,
}
use alice_uprm.Webhooks.Dispatcher.{retry_seconds}

pow_suc : (n : ℕ) → 2 ^ suc n ≡ 2 * 2 ^ n
pow_suc n = grind arith

pow_mono : (n k : ℕ) → 2 ^ n ≤ 2 ^ (n + k)
pow_mono n zero = let e : n + 0 ≡ n = omega arith in rw e (omega arith)
pow_mono n (suc k) =
    let e : n + suc k ≡ suc (n + k) = omega arith in
    rw (e, pow_suc (n + k)) (omega (arith, pow_mono n k))

pow_le : (n m : ℕ) → n ≤ m → 2 ^ n ≤ 2 ^ m
pow_le n m h = let e : n + (m - n) ≡ m = omega arith in rw e at (pow_mono n (m - n))

-- The delay is 30 seconds times two to the number of the attempt, up to ten doublings; so the limit
-- of one day in the code is never reached, the longest delay being 30720 seconds.
pub retry_seconds-backoff :
    (n : ℕ)
    → (n ≤ 10 → retry_seconds n ≡ 2 ^ n * 30)
      × (10 ≤ n → retry_seconds n ≡ 30720)
      × (retry_seconds n ≤ 30720)
unfolding retry_seconds
retry_seconds-backoff n = elim (Bool-cases (leb n 10)) [
  | inl small ↦
      let le : n ≤ 10 = ground arith in
      let bound : 2 ^ n ≤ 1024 = pow_le n 10 le in
      let under : leb 86400 (2 ^ n * 30) ≡ false = ground (arith, bound) in
      rw (small, under)
        (λ h. refl, λ h. let e : n ≡ 10 = omega arith in rw e refl, omega (arith, bound))
  | inr large ↦ rw large ((λ h. absurd (ground arith)), (λ h. refl), omega arith)
]
