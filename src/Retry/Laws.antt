-- ===== src/Retry/Laws.antt =====
-- How often `retry` (internal/sync/retry.go) calls, how long it waits, and when it succeeds.
use calendar_bridge.Base.{
  ℕ, suc, ◌+◌, ◌-◌, ◌*◌, ◌≤◌, ◌<◌, ◌≡◌, refl, sym, ap, ◌∙◌, arith, true, Option, none, some,
}
use calendar_bridge.Fault.{Fault, is_transient}
use calendar_bridge.Effect.{Result, ok, err, M}
use calendar_bridge.Retry.{
  RetryPolicy, Runtime, max_of, backoff_ceiling, backoff_for, attempts_of, pause, retry,
}
use calendar_bridge.Retry.Backoff.{backoff_ceiling_bounds, backoff_for_lem}
use calendar_bridge.Retry.Rule.{retry_loop_rule}

pub attempts_pos : (p : RetryPolicy) → 0 < attempts_of p
unfolding attempts_of
attempts_pos p = ground arith

-- A number of the world that randomness and waiting leave alone.
pub record IsQuiet {W : Type 0} (rt : Runtime W) (count : W → ℕ) : Type 0 where
  pub jitter : (c : ℕ) (w : W) → count (rt.jitter c w).1 ≡ count w
  pub sleep : (d : ℕ) (w : W) → count (rt.sleep d w).1 ≡ count w

module _ {W : Type 0} (rt : Runtime W) (p : RetryPolicy) (count : W → ℕ)
    (quiet : IsQuiet rt count) where
  count-backoff_for : (i : ℕ) (w : W) → count (backoff_for rt p i w).1 ≡ count w
  unfolding backoff_for
  count-backoff_for i w = ground (arith, quiet.jitter (backoff_ceiling p i) w)

  count-pause : (i : ℕ) (w : W) → count (pause rt p i w).1 ≡ count w
  unfolding pause
  count-pause i w = quiet.sleep _ _ ∙ count-backoff_for i w

  pub count-slept :
      (i : ℕ) (w : W) (c : Option Fault) (v : W) → pause rt p i w ≡ (c, v) → count v ≡ count w
  count-slept i w c v slept = sym (ap (λ s. count s.1) slept) ∙ count-pause i w

module _ {W A : Type 0} (rt : Runtime W) (p : RetryPolicy) (fn : ℕ → M W A) (count : W → ℕ)
    (quiet : IsQuiet rt count) where
  -- Whatever the calls answer, `retry` makes at most `max 1 MaxAttempts` of them: a number that a
  -- call raises by 1 at most, and random numbers and waits leave alone, is raised by no more than
  -- that.
  count-retry-le :
      ((i : ℕ) (w : W) → count (fn i w).1 ≤ count w + 1)
      → (w : W) → count (retry rt p fn w).1 ≤ count w + attempts_of p
  unfolding retry
  count-retry-le calls w =
      retry_loop_rule rt p fn (λ more _ _ v. count v + suc more ≤ count w + attempts_of p)
        (λ r. count r.1 ≤ count w + attempts_of p) (λ more i last v e h _. omega arith)
        (λ more i last v a v' h call. omega (arith, called i v (ok a) v' call))
        (λ more i last v e v' h call _. omega (arith, called i v (err e) v' call))
        (λ i last v e v' h call _. omega (arith, called i v (err e) v' call))
        (λ more i last v e v' c u h call _ slept.
          omega
            (arith, called i v (err e) v' call, count-slept rt p count quiet i v' (some c) u slept))
        (λ more i last v e v' u h call _ slept.
          omega (arith, called i v (err e) v' call, count-slept rt p count quiet i v' none u slept))
        (attempts_of p - 1) 0 none w (omega (arith, attempts_pos p))
    where
      called : (i : ℕ) (v : W) (r : Result A) (v' : W) → fn i v ≡ (r, v') → count v' ≤ count v + 1
      called i v r v' call = omega (arith, calls i v, ap (λ (s : Result A × W). count s.1) call)

-- The outcome is a value.
abbrev pub Succeeds : {W A : Type 0} → Result A × W → Type 0
Succeeds {W} {A} r = (a : A) × (w : W) × (r ≡ (ok a, w))

module _ {W A : Type 0} (rt : Runtime W) (p : RetryPolicy) (fn : ℕ → M W A) (faults : W → ℕ)
    (quiet : IsQuiet rt faults) where
  -- If every failure of the call is transient and uses up one of the world's faults, fewer faults are
  -- left than attempts, and nobody cancels, then `retry` succeeds.
  pub retry-Succeeds :
      ((w : W) → rt.ctx_err w ≡ none)
      → ((d : ℕ) (w : W) → (rt.sleep d w).0 ≡ none)
      → ((i : ℕ) (w : W) (e : Fault) (w' : W)
          → fn i w ≡ (err e, w')
          → (is_transient e ≡ true) × (faults w' < faults w))
      → (w : W) → faults w < attempts_of p
      → Succeeds (retry rt p fn w)
  unfolding retry pause
  retry-Succeeds going sleeps failing w few =
      retry_loop_rule rt p fn (λ more _ _ v. faults v ≤ more) Succeeds
        (λ more i last v e h stop. cc (going v)) (λ more i last v a v' h call. (a, v', refl))
        (λ more i last v e v' h call stop. cc (stop, (failing i v e v' call).0))
        (λ i last v e v' h call _. absurd (omega (arith, (failing i v e v' call).1)))
        (λ more i last v e v' c u h call _ slept. cc (never i v' c u slept))
        (λ more i last v e v' u h call _ slept.
          omega (arith, (failing i v e v' call).1, count-slept rt p faults quiet i v' none u slept))
        (attempts_of p - 1) 0 none w (omega arith)
    where
      never : (i : ℕ) (v : W) (c : Fault) (u : W) → pause rt p i v ≡ (some c, u) → some c ≡ none
      never i v c u slept = sym (ap (λ s. s.0) slept) ∙ sleeps _ _

module _ {W A : Type 0} (rt : Runtime W) (p : RetryPolicy) (fn : ℕ → M W A) (clock : W → ℕ) where
  -- The waits of one `retry` sum up to at most `max 1 MaxAttempts - 1` times the maximum backoff, if
  -- the random wait is below its ceiling and takes no time to draw, a sleep takes no longer than it
  -- was asked to, and the calls take no time.
  clock-retry-le :
      ((c : ℕ) (w : W) → 0 < c → (rt.jitter c w).0 < c)
      → ((c : ℕ) (w : W) → clock (rt.jitter c w).1 ≡ clock w)
      → ((d : ℕ) (w : W) → clock (rt.sleep d w).1 ≤ clock w + d)
      → ((i : ℕ) (w : W) → clock (fn i w).1 ≡ clock w)
      → (w : W) → clock (retry rt p fn w).1 ≤ clock w + (attempts_of p - 1) * max_of p
  unfolding retry pause backoff_for
  clock-retry-le below steady sleeps timeless w =
      retry_loop_rule rt p fn
        (λ more _ _ v. clock v + more * max_of p ≤ clock w + (attempts_of p - 1) * max_of p)
        (λ r. clock r.1 ≤ clock w + (attempts_of p - 1) * max_of p)
        (λ more i last v e h _. omega arith)
        (λ more i last v a v' h call. omega (arith, called i v (ok a) v' call))
        (λ more i last v e v' h call _. omega (arith, called i v (err e) v' call))
        (λ i last v e v' h call _. omega (arith, called i v (err e) v' call))
        (λ more i last v e v' c u h call _ rest.
          omega (arith, called i v (err e) v' call, waited i v' (some c) u rest))
        (λ more i last v e v' u h call _ rest.
          omega (arith, called i v (err e) v' call, waited i v' none u rest))
        (attempts_of p - 1) 0 none w (omega arith)
    where
      called : (i : ℕ) (v : W) (r : Result A) (v' : W) → fn i v ≡ (r, v') → clock v' ≡ clock v
      called i v r v' call = sym (ap (λ s. clock s.1) call) ∙ timeless i v

      drawn : (i : ℕ) (v : W) → clock (backoff_for rt p i v).1 ≡ clock v
      drawn i v = ground (arith, steady (backoff_ceiling p i) v)

      waited :
          (i : ℕ) (v : W) (c : Option Fault) (u : W)
          → pause rt p i v ≡ (c, u)
          → clock u ≤ clock v + max_of p
      waited i v c u rest = omega (
        arith,
        ap (λ (s : Option Fault × W). clock s.1) rest,
        sleeps (backoff_for rt p i v).0 (backoff_for rt p i v).1,
        drawn i v,
        backoff_for_lem rt p i v below,
        (backoff_ceiling_bounds p i).1,
      )

module _ {W A : Type 0} (rt : Runtime W) (p : RetryPolicy) (fn : ℕ → M W A) (count clock : W → ℕ)
    (quiet : IsQuiet rt count) where
  -- Whatever the calls answer, `retry` makes at most `max 1 MaxAttempts` of them: a number that a
  -- call raises by 1 at most, and random numbers and waits leave alone, is raised by no more than
  -- that. Its waits sum up to at most `max 1 MaxAttempts - 1` times the maximum backoff, if the random
  -- wait is below its ceiling and takes no time to draw, a sleep takes no longer than it was asked to,
  -- and the calls take no time.
  pub retry_bounds :
      ((i : ℕ) (w : W) → count (fn i w).1 ≤ count w + 1)
      → ((c : ℕ) (w : W) → 0 < c → (rt.jitter c w).0 < c)
      → ((c : ℕ) (w : W) → clock (rt.jitter c w).1 ≡ clock w)
      → ((d : ℕ) (w : W) → clock (rt.sleep d w).1 ≤ clock w + d)
      → ((i : ℕ) (w : W) → clock (fn i w).1 ≡ clock w)
      → (w : W)
      → (count (retry rt p fn w).1 ≤ count w + attempts_of p)
        × (clock (retry rt p fn w).1 ≤ clock w + (attempts_of p - 1) * max_of p)
  retry_bounds calls below steady sleeps timeless w = (
    count-retry-le rt p fn count quiet calls w,
    clock-retry-le rt p fn clock below steady sleeps timeless w,
  )
