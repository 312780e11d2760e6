-- ===== src/Retry/Rule.antt =====
-- A proof rule for the loop of `retry` (internal/sync/retry.go): an invariant of its rounds, and
-- what every way out of the loop leaves.
use calendar_bridge.Base.{
  ℕ, zero, suc, ◌≡◌, refl, true, false, Option, none, some, Bool-cases, inl, inr,
}
use calendar_bridge.Fault.{Fault, joined, is_transient}
use calendar_bridge.Effect.{Result, ok, err, M}
use calendar_bridge.Retry.{
  RetryPolicy, Runtime, with_last, after_sleep, pause, decide, round, retry_loop,
}

module _ {W A : Type 0} (P : Result A × W → Type 0) where
  -- The outcome of the call decides.
  decide_rule :
      (next : Fault → M W A) (r : Result A × W)
      → ((a : A) (w : W) → r ≡ (ok a, w) → P (ok a, w))
      → ((e : Fault) (w : W) → r ≡ (err e, w) → is_transient e ≡ false → P (err e, w))
      → ((e : Fault) (w : W) → r ≡ (err e, w) → is_transient e ≡ true → P (next e w))
      → P (decide next r)
  unfolding decide
  decide_rule next (ok a, w) done stop more = done a w refl
  decide_rule next (err e, w) done stop more = elim (Bool-cases (is_transient e)) [
    | inl transient ↦ rw transient (more e w refl transient)
    | inr permanent ↦ rw permanent (stop e w refl permanent)
  ]

  round_rule :
      (rt : Runtime W) (next : Fault → M W A) (call : M W A) (last : Option Fault) (w : W)
      → ((e : Fault) → rt.ctx_err w ≡ some e → P (err (with_last last e), w))
      → (rt.ctx_err w ≡ none → P (decide next (call w)))
      → P (round rt next call last w)
  unfolding round
  round_rule rt next call last w cancelled going = go (rt.ctx_err w) refl
    where
      go : (c : Option Fault) → rt.ctx_err w ≡ c → P (round rt next call last w)
      go (some e) h = rw (h, round) (cancelled e h)
      go none h = rw (h, round) (going h)

  after_sleep_rule :
      (e : Fault) (next : M W A) (s : Option Fault × W)
      → ((c : Fault) (w : W) → s ≡ (some c, w) → P (err (joined e c), w))
      → ((w : W) → s ≡ (none, w) → P (next w))
      → P (after_sleep e next s)
  unfolding after_sleep
  after_sleep_rule e next (none, w) cancelled fired = fired w refl
  after_sleep_rule e next (some c, w) cancelled fired = cancelled c w refl

-- `I more i last w` holds before the round `i`, which `more` rounds may follow.
module _ {W A : Type 0} (rt : Runtime W) (p : RetryPolicy) (fn : ℕ → M W A)
    (I : ℕ → ℕ → Option Fault → W → Type 0) (P : Result A × W → Type 0)
    (cancelled : (more i : ℕ) (last : Option Fault) (w : W) (e : Fault)
      → I more i last w
      → rt.ctx_err w ≡ some e
      → P (err (with_last last e), w))
    (done : (more i : ℕ) (last : Option Fault) (w : W) (a : A) (w' : W)
      → I more i last w
      → fn i w ≡ (ok a, w')
      → P (ok a, w'))
    (permanent : (more i : ℕ) (last : Option Fault) (w : W) (e : Fault) (w' : W)
      → I more i last w
      → fn i w ≡ (err e, w')
      → is_transient e ≡ false
      → P (err e, w'))
    (exhausted : (i : ℕ) (last : Option Fault) (w : W) (e : Fault) (w' : W)
      → I zero i last w
      → fn i w ≡ (err e, w')
      → is_transient e ≡ true
      → P (err e, w'))
    (woken : (more i : ℕ) (last : Option Fault) (w : W) (e : Fault) (w' : W) (c : Fault) (v : W)
      → I (suc more) i last w
      → fn i w ≡ (err e, w')
      → is_transient e ≡ true
      → pause rt p i w' ≡ (some c, v)
      → P (err (joined e c), v))
    (again : (more i : ℕ) (last : Option Fault) (w : W) (e : Fault) (w' v : W)
      → I (suc more) i last w
      → fn i w ≡ (err e, w')
      → is_transient e ≡ true
      → pause rt p i w' ≡ (none, v)
      → I more (suc i) (some e) v) where
  pub retry_loop_rule :
      (more i : ℕ) (last : Option Fault) (w : W)
      → I more i last w
      → P (retry_loop rt p fn more i last w)
  unfolding retry_loop
  retry_loop_rule zero i last w h =
      round_rule P rt _ (fn i) last w (λ e. cancelled zero i last w e h)
        λ _.
          decide_rule P _ (fn i w) (λ a w'. done zero i last w a w' h)
            (λ e w'. permanent zero i last w e w' h) (λ e w'. exhausted i last w e w' h)
  retry_loop_rule (suc more) i last w h =
      round_rule P rt _ (fn i) last w (λ e. cancelled (suc more) i last w e h)
        λ _.
          decide_rule P _ (fn i w) (λ a w'. done (suc more) i last w a w' h)
            (λ e w'. permanent (suc more) i last w e w' h)
            λ e w' call transient.
              after_sleep_rule P e _ (pause rt p i w')
                (λ c v. woken more i last w e w' c v h call transient)
                λ v slept.
                  retry_loop_rule more (suc i) (some e) v
                    (again more i last w e w' v h call transient slept)
