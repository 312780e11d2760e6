-- ===== src/Metrics.antt =====
-- `Registry` of internal/metrics/metrics.go, without the build that it names. Counters are uint64 and wrap.
-- Durations are numbers of nanoseconds, where the source compares and adds seconds in float64.
pub mod History
pub mod Ready
pub mod Text
pub mod Scraper
pub mod Reads
pub mod Scrape
pub mod Comments
pub mod Exposed
use calendar_bridge.Base.{
  ℕ, ◌+◌, ◌%◌, String, Bool, true, false, Option, none, some, List, [], ◌∷◌, map, leb,
  if◌then◌else◌,
}
use calendar_bridge.Base.Int.{ℤ, pos_part, word_mod}
use calendar_bridge.Base.Dict
use calendar_bridge.Base.Dict.{Dict}
use calendar_bridge.Fault.{Fault}

-- The bounds of the histogram.
abbrev pub duration_buckets : List ℕ
duration_buckets =
    100_000_000 ∷ 250_000_000 ∷ 500_000_000 ∷ 1_000_000_000 ∷ 2_500_000_000 ∷ 5_000_000_000
    ∷ 10_000_000_000 ∷ 30_000_000_000 ∷ 60_000_000_000 ∷ 120_000_000_000 ∷ 300_000_000_000 ∷ []

pub record Pass : Type 0 where
  pub started : ℤ
  pub duration : ℤ
  pub created : ℤ
  pub updated : ℤ
  pub deleted : ℤ
  pub skipped : ℤ
  pub healthy : List String
  pub failed : List String
  pub error : Option Fault

-- A zero time is `none`.
pub record Registry : Type 0 where
  pub passes_succeeded : ℕ
  pub passes_failed : ℕ
  pub created : ℕ
  pub updated : ℕ
  pub deleted : ℕ
  pub skipped : ℕ
  pub duration_counts : List ℕ
  pub duration_sum : ℕ
  pub duration_count : ℕ
  pub account_errors : Dict ℕ
  pub account_healthy : Dict Bool
  pub last_pass : Option ℤ
  pub last_success : Option ℤ
  pub started : ℤ

-- `New`, at this time.
unfoldable pub new_registry : ℤ → Registry
new_registry now = record {
  passes_succeeded = 0;
  passes_failed = 0;
  created = 0;
  updated = 0;
  deleted = 0;
  skipped = 0;
  duration_counts = map (λ bound. 0) duration_buckets;
  duration_sum = 0;
  duration_count = 0;
  account_errors = [];
  account_healthy = [];
  last_pass = none;
  last_success = none;
  started = now;
}

-- uint64 addition.
abbrev pub plus : ℕ → ℕ → ℕ
plus a b = (a + b) % word_mod

unfoldable pub note_error : Option Fault → ℤ → Registry → Registry
note_error none started r = record r {
  passes_succeeded = plus r.passes_succeeded 1;
  last_success = some started;
}
note_error (some e) started r = record r { passes_failed = plus r.passes_failed 1 }

-- The loop over the buckets, with their bounds.
unfoldable pub bump : ℕ → List ℕ → List ℕ → List ℕ
bump duration [] counts = counts
bump duration (bound ∷ bounds) [] = []
bump duration (bound ∷ bounds) (count ∷ counts) =
    (if leb duration bound then plus count 1 else count) ∷ bump duration bounds counts

abbrev pub or_zero : Option ℕ → ℕ
or_zero none = 0
or_zero (some n) = n

unfoldable pub note_healthy : List String → Registry → Registry
note_healthy [] r = r
note_healthy (a ∷ accounts) r = note_healthy accounts (record r {
  account_healthy = Dict.insert a true r.account_healthy;
  account_errors = Dict.insert a (or_zero (Dict.lookup a r.account_errors)) r.account_errors;
})

unfoldable pub note_failed : List String → Registry → Registry
note_failed [] r = r
note_failed (a ∷ accounts) r = note_failed accounts (record r {
  account_healthy = Dict.insert a false r.account_healthy;
  account_errors =
      Dict.insert a (plus (or_zero (Dict.lookup a r.account_errors)) 1) r.account_errors;
})

-- The counts and the duration of a pass; a negative number counts as 0.
unfoldable pub note_counts : Pass → Registry → Registry
note_counts p r = record r {
  last_pass = some (p.started);
  created = plus r.created (pos_part p.created);
  updated = plus r.updated (pos_part p.updated);
  deleted = plus r.deleted (pos_part p.deleted);
  skipped = plus r.skipped (pos_part p.skipped);
  duration_sum = r.duration_sum + pos_part p.duration;
  duration_count = plus r.duration_count 1;
  duration_counts = bump (pos_part p.duration) duration_buckets r.duration_counts;
}

unfoldable pub observe : Pass → Registry → Registry
observe p r =
    note_failed p.failed (note_healthy p.healthy (note_counts p (note_error p.error p.started r)))
