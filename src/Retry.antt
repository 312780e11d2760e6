-- ===== src/Retry.antt =====
-- internal/sync/retry.go: retries with exponential backoff and full jitter. A duration is a number
-- of nanoseconds. The ceiling of a wait is computed exactly here; the source computes it in float64,
-- where a base below 2^53 times a power of two is exact as well.
pub mod Backoff
pub mod Rule
pub mod Laws
pub mod Client
pub mod Insert
use calendar_bridge.Base.{
  ℕ, zero, suc, ◌-◌, ◌*◌, ◌^◌, Bool, true, false, Option, none, some, ltb, leb, eqb, min,
  if◌then◌else◌,
}
use calendar_bridge.Base.Int.{ℤ, pos, negsuc, pos_part, leb_ℤ, ltb_ℤ}
use calendar_bridge.Fault.{Fault, joined, is_transient}
use calendar_bridge.Effect.{Result, ok, err, M}

pub record RetryPolicy : Type 0 where
  pub max_attempts : ℤ
  pub base_backoff : ℤ
  pub max_backoff : ℤ

unfoldable pub default_retry_policy : RetryPolicy
default_retry_policy = record {
  max_attempts = pos 4;
  base_backoff = pos 500_000_000;
  max_backoff = pos 30_000_000_000;
}

-- What the loop takes from the standard library, over a world of type `W`.
pub record Runtime (W : Type 0) : Type 0 where
  -- `ctx.Err()`
  pub ctx_err : W → Option Fault
  -- `time.Duration(rand.Float64() * ceiling)`
  pub jitter : ℕ → W → ℕ × W
  -- The `select` on the timer and `ctx.Done()`: `none` if the timer fired, and otherwise `ctx.Err()`.
  pub sleep : ℕ → W → Option Fault × W

unfoldable pub pow2 : ℕ → ℕ
pow2 n = if eqb n 0 then 1 else if ltb 62 n then 2 ^ 62 else 2 ^ n

-- `base` and `maxb` of `backoffFor`, after its defaults.
unfoldable pub base_of : RetryPolicy → ℕ
base_of p = if leb_ℤ p.base_backoff (pos 0) then 500_000_000 else pos_part p.base_backoff

unfoldable pub max_of : RetryPolicy → ℕ
max_of p = if leb_ℤ p.max_backoff (pos 0) then 30_000_000_000 else pos_part p.max_backoff

unfoldable pub backoff_ceiling : RetryPolicy → ℕ → ℕ
backoff_ceiling p attempt =
    let ceiling = base_of p * pow2 attempt in if ltb (max_of p) ceiling then max_of p else ceiling

-- `attempts` of `retry`
unfoldable pub attempts_of : RetryPolicy → ℕ
attempts_of p = if ltb_ℤ p.max_attempts (pos 1) then 1 else pos_part p.max_attempts

-- The error of a cancelled loop.
abbrev pub with_last : Option Fault → Fault → Fault
with_last none e = e
with_last (some last) e = joined last e

module _ {W : Type 0} (rt : Runtime W) (p : RetryPolicy) where
  unfoldable pub backoff_for : ℕ → W → ℕ × W
  unfolding backoff_ceiling pow2 base_of max_of
  backoff_for attempt w =
      let ceiling = backoff_ceiling p attempt in
      if leb ceiling 0 then (0, w) else rt.jitter ceiling w

unfoldable pub after_sleep : {W A : Type 0} → Fault → M W A → Option Fault × W → Result A × W
after_sleep e next (none, w) = next w
after_sleep e next (some cancelled, w) = (err (joined e cancelled), w)

-- What the world does in the wait before the retry with number `i`.
unfoldable pub pause : {W : Type 0} → Runtime W → RetryPolicy → ℕ → W → Option Fault × W
unfolding backoff_for
pause rt p i w = let (wait, w') = backoff_for rt p i w in rt.sleep wait w'

-- A round's decision on the outcome of its call; `next` is what a transient error leads to.
unfoldable pub decide : {W A : Type 0} → (Fault → M W A) → Result A × W → Result A × W
decide next (ok a, w) = (ok a, w)
decide next (err e, w) = if is_transient e then next e w else (err e, w)

-- A round: the check of the context, and the call.
unfoldable pub round : {W A : Type 0} → Runtime W → (Fault → M W A) → M W A → Option Fault → M W A
unfolding decide
round rt next call last w = elim (rt.ctx_err w) [
  | some e ↦ (err (with_last last e), w)
  | none ↦ decide next (call w)
]

module _ {W A : Type 0} (rt : Runtime W) (p : RetryPolicy) (fn : ℕ → M W A) where
  -- The loop of `retry`: `more` rounds may follow this one, whose number is `i`. The closure `fn`
  -- is given how many times it was called before.
  unfoldable pub retry_loop : ℕ → ℕ → Option Fault → M W A
  unfolding round pause after_sleep
  retry_loop zero i last = round rt (λ e w. (err e, w)) (fn i) last
  retry_loop (suc more) i last =
      round rt (λ e w. after_sleep e (retry_loop more (suc i) (some e)) (pause rt p i w)) (fn i)
        last

  unfoldable pub retry : M W A
  retry = retry_loop (attempts_of p - 1) 0 none
