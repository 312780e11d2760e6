-- ===== src/Stack/Retrying.antt =====
-- What `retryingClient` (internal/sync/retrying_client.go) hands on from the client that it wraps: an
-- invariant that each call and the waits keep, and what is known of every value that a call returns.
use mathlib.Core.Path.{subst}
use calendar_bridge.Base.{ℕ, ◌≡◌, refl, sym, Option, none, some, Bool-cases, leb, inl, inr}
use calendar_bridge.Fault.{Fault}
use calendar_bridge.Effect.{Result, ok, err, M, continue}
use calendar_bridge.Retry.{RetryPolicy, Runtime, backoff_ceiling, backoff_for, pause, retry}
use calendar_bridge.Retry.Rule.{retry_loop_rule}

-- Random numbers and waits keep `Q`.
pub record WaitsKeep {W : Type 0} (rt : Runtime W) (Q : W → Type 0) : Type 0 where
  pub jitter : (c : ℕ) (w : W) → Q w → Q (rt.jitter c w).1
  pub sleep : (d : ℕ) (w : W) → Q w → Q (rt.sleep d w).1

-- `Q` of the world that a call leaves, and `V` of its value.
abbrev pub Yields : {W A : Type 0} → (W → Type 0) → (A → Type 0) → Result A × W → Type 0
Yields Q V (ok a, w) = V a × Q w
Yields Q V (err e, w) = Q w

-- What is known of a call goes on to what follows it.
pub continue-Yields :
    {W A B : Type 0} (Q : W → Type 0) (V : A → Type 0) (U : B → Type 0) (r : Result A × W)
    (f : A → M W B)
    → Yields Q V r
    → ((a : A) (w : W) → V a → Q w → Yields Q U (f a w))
    → Yields Q U (continue r f)
continue-Yields Q V U (ok a, w) f y next = next a w y.0 y.1
continue-Yields Q V U (err e, w) f y next = y

module _ {W A : Type 0} (rt : Runtime W) (p : RetryPolicy) (fn : ℕ → M W A) (Q : W → Type 0)
    (V : A → Type 0) (waits : WaitsKeep rt Q) where
  backoff_for_keeps : (i : ℕ) (w : W) → Q w → Q (backoff_for rt p i w).1
  unfolding backoff_for
  backoff_for_keeps i w q = elim (Bool-cases (leb (backoff_ceiling p i) 0)) [
    | inl zero_wait ↦ rw zero_wait q
    | inr some_wait ↦ rw some_wait (waits.jitter _ w q)
  ]

  pause_keeps : (i : ℕ) (w : W) → Q w → Q (pause rt p i w).1
  unfolding pause
  pause_keeps i w q = waits.sleep _ _ (backoff_for_keeps i w q)

  -- Whatever every round yields, the loop yields.
  pub retry-Yields :
      ((i : ℕ) (w : W) → Q w → Yields Q V (fn i w)) → (w : W) → Q w → Yields Q V (retry rt p fn w)
  unfolding retry
  retry-Yields rounds w q =
      retry_loop_rule rt p fn (λ _ _ _ v. Q v) (Yields Q V) (λ more i last v e h _. h)
        (λ more i last v a v' h call. yielded i v (ok a, v') h call)
        (λ more i last v e v' h call _. yielded i v (err e, v') h call)
        (λ i last v e v' h call _. yielded i v (err e, v') h call)
        (λ more i last v e v' c u h call _ slept.
          rested i v' (some c, u) slept (yielded i v (err e, v') h call))
        (λ more i last v e v' u h call _ slept.
          rested i v' (none, u) slept (yielded i v (err e, v') h call))
        _ 0 none w q
    where
      yielded : (i : ℕ) (v : W) (r : Result A × W) → Q v → fn i v ≡ r → Yields Q V r
      yielded i v r h call = rw (sym call) (rounds i v h)

      rested : (i : ℕ) (v : W) (r : Option Fault × W) → pause rt p i v ≡ r → Q v → Q r.1
      rested i v r slept h = rw (sym slept) (pause_keeps i v h)

-- What is known of the value of a call, in the world that it leaves.
abbrev pub Answers : {W A : Type 0} → (A → W → Type 0) → Result A × W → Type 0
Answers V (ok a, w) = V a w
Answers V (err e, w) = Unit

pub continue-Answers :
    {W A B : Type 0} (V : B → W → Type 0) (r : Result A × W) (f : A → M W B)
    → ((a : A) (w : W) → r ≡ (ok a, w) → Answers V (f a w))
    → Answers V (continue r f)
continue-Answers V (ok a, w) f next = next a w refl
continue-Answers V (err e, w) f next = tt

-- What every round answers, the loop answers: no wait comes after the round that returns.
pub retry-Answers :
    {W A : Type 0} (rt : Runtime W) (p : RetryPolicy) (fn : ℕ → M W A) (V : A → W → Type 0)
    → ((i : ℕ) (w : W) → Answers V (fn i w))
    → (w : W) → Answers V (retry rt p fn w)
unfolding retry
retry-Answers rt p fn V rounds w =
    retry_loop_rule rt p fn (λ _ _ _ _. Unit {0}) (Answers V) (λ more i last v e h _. tt)
      (λ more i last v a v' h call. subst (Answers V) call (rounds i v))
      (λ more i last v e v' h call _. tt) (λ i last v e v' h call _. tt)
      (λ more i last v e v' c u h call _ slept. tt) (λ more i last v e v' u h call _ slept. tt) _ 0
      none w tt
