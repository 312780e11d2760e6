-- ===== src/Retry/Backoff.antt =====
-- Bounds of the waits between two attempts.
use native.Mathlib.Nat.{pow-suc, one-le-pow, pow-le-pow_right}
use calendar_bridge.Base.{ℕ, suc, ◌*◌, ◌≤◌, ◌<◌, arith}
use calendar_bridge.Retry.{
  RetryPolicy, Runtime, pow2, base_of, max_of, backoff_ceiling, backoff_for,
}

base-pos : (p : RetryPolicy) → 0 < base_of p
unfolding base_of
base-pos p = ground arith

max-pos : (p : RetryPolicy) → 0 < max_of p
unfolding max_of
max-pos p = ground arith

pow2_pos : (n : ℕ) → 0 < pow2 n
unfolding pow2
pow2_pos n = ground (arith, one-le-pow n 2 (omega arith))

pow2_mono : (n : ℕ) → pow2 n ≤ pow2 (suc n)
unfolding pow2
pow2_mono n = ground (
  arith,
  one-le-pow (suc n) 2 (omega arith),
  pow-suc 2 n,
  pow-le-pow_right {n = 2} (omega arith) {i = n} {j = 62},
  pow-le-pow_right {n = 2} (omega arith) {i = n} {j = suc n},
)

mul_bounds : (b x y : ℕ) → 0 < b → 0 < x → x ≤ y → (0 < b * x) × (b * x ≤ b * y)
mul_bounds b x y h k l = (grind arith, grind arith)

-- The ceiling of the wait is positive, is at most the policy's maximum backoff, and does not fall
-- from one retry to the next, whatever the policy.
pub backoff_ceiling_bounds :
    (p : RetryPolicy) (i : ℕ)
    → (0 < backoff_ceiling p i)
      × (backoff_ceiling p i ≤ max_of p)
      × (backoff_ceiling p i ≤ backoff_ceiling p (suc i))
unfolding backoff_ceiling
backoff_ceiling_bounds p i = ground (
  arith,
  max-pos p,
  mul_bounds (base_of p) (pow2 i) (pow2 (suc i)) (base-pos p) (pow2_pos i) (pow2_mono i),
)

-- The wait itself is below the ceiling, if the random number is below 1.
pub backoff_for_lem :
    {W : Type 0} (rt : Runtime W) (p : RetryPolicy) (i : ℕ) (w : W)
    → ((c : ℕ) (v : W) → 0 < c → (rt.jitter c v).0 < c)
    → (backoff_for rt p i w).0 < backoff_ceiling p i
unfolding backoff_for
backoff_for_lem rt p i w below =
    ground (arith, backoff_ceiling_bounds p i, below (backoff_ceiling p i) w)
