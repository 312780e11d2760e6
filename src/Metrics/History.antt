-- ===== src/Metrics/History.antt =====
-- The registry of internal/metrics/metrics.go as a summary of the passes that it has observed.
use calendar_bridge.Base.{
  ℕ, suc, ◌+◌, ◌%◌, ◌≡◌, refl, ap, ◌∙◌, String, Option, none, some, List, [], ◌∷◌, map, leb, arith,
  if◌then◌else◌,
}
use calendar_bridge.Base.Int.{ℤ, pos_part, word_mod}
use calendar_bridge.Fault.{Fault}
use calendar_bridge.Metrics.{
  Pass, Registry, duration_buckets, new_registry, plus, note_error, bump, note_healthy, note_failed,
  note_counts, observe,
}

abbrev pub observe_all : List Pass → Registry → Registry
observe_all [] r = r
observe_all (p ∷ passes) r = observe_all passes (observe p r)

-- How many of the passes took no longer than the bound.
abbrev pub within : ℕ → List Pass → ℕ
within bound [] = 0
within bound (p ∷ passes) = (if leb (pos_part p.duration) bound then 1 else 0) + within bound passes

abbrev pub all_of : List Pass → ℕ
all_of [] = 0
all_of (p ∷ passes) = suc (all_of passes)

abbrev counts_of : (ℕ → ℕ) → List ℕ → List ℕ
counts_of f bounds = map (λ bound. f bound % word_mod) bounds

bump-counts_of :
    (d : ℕ) (f : ℕ → ℕ) (bounds : List ℕ)
    → bump d bounds (counts_of f bounds)
      ≡ counts_of (λ bound. f bound + (if leb d bound then 1 else 0)) bounds
unfolding bump
bump-counts_of d f [] = refl
bump-counts_of d f (b ∷ bounds) = λ i. counted i ∷ bump-counts_of d f bounds i
  where
    counted :
        (if leb d b then plus (f b % word_mod) 1 else f b % word_mod)
        ≡ (f b + (if leb d b then 1 else 0)) % word_mod
    counted = ground arith

-- What a pass does to the histogram and to the counts of the passes.
abbrev Tally : Type 0
Tally = List ℕ × ℕ × ℕ × ℕ

abbrev tally : Registry → Tally
tally r = (r.duration_counts, r.duration_count, r.passes_succeeded, r.passes_failed)

note_failed-tally :
    (accounts : List String) (r : Registry) → tally (note_failed accounts r) ≡ tally r
unfolding note_failed
note_failed-tally [] r = refl
note_failed-tally (a ∷ accounts) r = note_failed-tally accounts _

note_healthy-tally :
    (accounts : List String) (r : Registry) → tally (note_healthy accounts r) ≡ tally r
unfolding note_healthy
note_healthy-tally [] r = refl
note_healthy-tally (a ∷ accounts) r = note_healthy-tally accounts _

abbrev pub ok_count : Option Fault → ℕ
ok_count none = 1
ok_count (some e) = 0

abbrev pub error_count : Option Fault → ℕ
error_count none = 0
error_count (some e) = 1

abbrev pub succeeded : List Pass → ℕ
succeeded [] = 0
succeeded (p ∷ passes) = ok_count p.error + succeeded passes

abbrev pub failed : List Pass → ℕ
failed [] = 0
failed (p ∷ passes) = error_count p.error + failed passes

-- The registry has these numbers, modulo 2^64: of the passes within a bound, of all, of those without
-- and of those with an error.
pub record Summarizes (f : ℕ → ℕ) (n s t : ℕ) (r : Registry) : Type 0 where
  pub duration_counts : r.duration_counts ≡ counts_of f duration_buckets
  pub duration_count : r.duration_count ≡ n % word_mod
  pub passes_succeeded : r.passes_succeeded ≡ s % word_mod
  pub passes_failed : r.passes_failed ≡ t % word_mod

Summarizes-of_tally :
    (f : ℕ → ℕ) (n s t : ℕ) (r q : Registry)
    → tally q ≡ tally r
    → Summarizes f n s t r
    → Summarizes f n s t q
Summarizes-of_tally f n s t r q same sum = record {
  duration_counts = ap (λ (x : Tally). x.0) same ∙ sum.duration_counts;
  duration_count = ap (λ (x : Tally). x.1) same ∙ sum.duration_count;
  passes_succeeded = ap (λ (x : Tally). x.2) same ∙ sum.passes_succeeded;
  passes_failed = ap (λ (x : Tally). x.3) same ∙ sum.passes_failed;
}

note_error-Summarizes :
    (f : ℕ → ℕ) (n s t : ℕ) (e : Option Fault) (started : ℤ) (r : Registry)
    → Summarizes f n s t r
    → Summarizes f n (s + ok_count e) (t + error_count e) (note_error e started r)
unfolding note_error
note_error-Summarizes f n s t none started r sum = record {
  duration_counts = sum.duration_counts;
  duration_count = sum.duration_count;
  passes_succeeded = omega (arith, sum.passes_succeeded);
  passes_failed = omega (arith, sum.passes_failed);
}
note_error-Summarizes f n s t (some e) started r sum = record {
  duration_counts = sum.duration_counts;
  duration_count = sum.duration_count;
  passes_succeeded = omega (arith, sum.passes_succeeded);
  passes_failed = omega (arith, sum.passes_failed);
}

abbrev more : Pass → (ℕ → ℕ) → ℕ → ℕ
more p f bound = f bound + (if leb (pos_part p.duration) bound then 1 else 0)

note_counts-Summarizes :
    (f : ℕ → ℕ) (n s t : ℕ) (p : Pass) (r : Registry)
    → Summarizes f n s t r
    → Summarizes (more p f) (n + 1) s t (note_counts p r)
unfolding note_counts
note_counts-Summarizes f n s t p r sum = record {
  duration_counts =
      ap (bump (pos_part p.duration) duration_buckets) sum.duration_counts
      ∙ bump-counts_of (pos_part p.duration) f duration_buckets;
  duration_count = omega (arith, sum.duration_count);
  passes_succeeded = sum.passes_succeeded;
  passes_failed = sum.passes_failed;
}

observe-Summarizes :
    (f : ℕ → ℕ) (n s t : ℕ) (p : Pass) (r : Registry)
    → Summarizes f n s t r
    → Summarizes (more p f) (n + 1) (s + ok_count p.error) (t + error_count p.error) (observe p r)
unfolding observe
observe-Summarizes f n s t p r sum =
    Summarizes-of_tally _ _ _ _ _ _ (note_failed-tally p.failed _ ∙ note_healthy-tally p.healthy _)
      (note_counts-Summarizes f n _ _ p _ (note_error-Summarizes f n s t p.error p.started r sum))

observe_all-Summarizes :
    (passes : List Pass) (f : ℕ → ℕ) (n s t : ℕ) (r : Registry)
    → Summarizes f n s t r
    → Summarizes
        (λ bound. f bound + within bound passes)
        (n + all_of passes)
        (s + succeeded passes)
        (t + failed passes)
        (observe_all passes r)
observe_all-Summarizes [] f n s t r sum = record {
  duration_counts =
      sum.duration_counts
      ∙ ap (λ g. counts_of g duration_buckets) (λ i bound. plus_zero (f bound) i);
  duration_count = omega (arith, sum.duration_count);
  passes_succeeded = omega (arith, sum.passes_succeeded);
  passes_failed = omega (arith, sum.passes_failed);
}
  where
    plus_zero : (a : ℕ) → a ≡ a + 0
    plus_zero a = omega arith
observe_all-Summarizes (p ∷ passes) f n s t r sum =
    let rest =
      observe_all-Summarizes passes (more p f) (n + 1) (s + ok_count p.error)
        (t + error_count p.error) (observe p r) (observe-Summarizes f n s t p r sum) in
    record {
      duration_counts =
          rest.duration_counts
          ∙ ap (λ g. counts_of g duration_buckets)
              (λ i bound.
                regroup (f bound) (if leb (pos_part p.duration) bound then 1 else 0)
                  (within bound passes) i);
      duration_count = omega (arith, rest.duration_count);
      passes_succeeded = omega (arith, rest.passes_succeeded);
      passes_failed = omega (arith, rest.passes_failed);
    }
  where
    regroup : (a b c : ℕ) → a + b + c ≡ a + (b + c)
    regroup a b c = omega arith

new_registry-Summarizes : (now : ℤ) → Summarizes (λ bound. 0) 0 0 0 (new_registry now)
unfolding new_registry
new_registry-Summarizes now = record {
  duration_counts = refl;
  duration_count = refl;
  passes_succeeded = refl;
  passes_failed = refl;
}

-- After any passes the registry has, modulo 2^64, in each bucket the number of passes that took no
-- longer than its bound, and the numbers of all passes, of those without and of those with an error.
pub observe_all-new_registry :
    (passes : List Pass) (now : ℤ)
    → Summarizes
        (λ bound. within bound passes)
        (all_of passes)
        (succeeded passes)
        (failed passes)
        (observe_all passes (new_registry now))
observe_all-new_registry passes now =
    let sum =
      observe_all-Summarizes passes (λ bound. 0) 0 0 0 (new_registry now)
        (new_registry-Summarizes now) in
    record {
      duration_counts =
          sum.duration_counts
          ∙ ap (λ g. counts_of g duration_buckets) (λ i bound. zero_plus (within bound passes) i);
      duration_count = omega (arith, sum.duration_count);
      passes_succeeded = omega (arith, sum.passes_succeeded);
      passes_failed = omega (arith, sum.passes_failed);
    }
  where
    zero_plus : (a : ℕ) → 0 + a ≡ a
    zero_plus a = omega arith
