-- ===== src/Tests/Meters.antt =====
-- Passes observed by the registry of internal/metrics/metrics.go.
use calendar_bridge.Base.{zero, suc, String, ◌≡◌, refl, true, false, none, some, [], ◌∷◌, string_eq}
use calendar_bridge.Base.Int.{pos, negsuc}
use calendar_bridge.Base.Dict
use calendar_bridge.Fault.{canceled}
use calendar_bridge.Metrics.{
  Pass, Registry, new_registry, note_error, bump, note_healthy, note_failed, note_counts, observe,
}
use calendar_bridge.Metrics.Text.{
  Value, count, seconds, at_time, BuildInfo, escaped_char, escape_label, write_to,
}
use calendar_bridge.Metrics.Scraper.{scrape}
use calendar_bridge.Metrics.Reads.{any, is_newline}
use calendar_bridge.Metrics.Exposed.{exposed, scrape-write_to}
use calendar_bridge.Metrics.History.{
  Summarizes, observe_all, within, all_of, succeeded, failed, observe_all-new_registry,
}

abbrev quick : Pass
quick = record {
  started = pos 10;
  duration = pos 200_000_000;
  created = pos 2;
  updated = negsuc 0;
  deleted = pos 0;
  skipped = pos 1;
  healthy = "home" ∷ "work" ∷ [];
  failed = [];
  error = none;
}

abbrev slow : Pass
slow = record quick {
  started = pos 20;
  duration = pos 40_000_000_000;
  healthy = "home" ∷ [];
  failed = "work" ∷ [];
  error = some canceled;
}

after : Registry
unfolding new_registry observe note_error bump note_healthy note_failed note_counts Dict.insert
    Dict.lookup string_eq
after = observe slow (observe quick (new_registry (pos 0)))

buckets_run : after.duration_counts ≡ 0 ∷ 1 ∷ 1 ∷ 1 ∷ 1 ∷ 1 ∷ 1 ∷ 1 ∷ 2 ∷ 2 ∷ 2 ∷ []
unfolding after
buckets_run = refl

health_run : after.account_healthy ≡ ("home", true) ∷ ("work", false) ∷ []
unfolding after
health_run = refl

errors_run : after.account_errors ≡ ("home", 0) ∷ ("work", 1) ∷ []
unfolding after
errors_run = refl

last_success_run : after.last_success ≡ some (pos 10)
unfolding after
last_success_run = refl

observe_all-new_registry_example :
    Summarizes
      (λ bound. within bound (quick ∷ slow ∷ []))
      (all_of (quick ∷ slow ∷ []))
      (succeeded (quick ∷ slow ∷ []))
      (failed (quick ∷ slow ∷ []))
      (observe_all (quick ∷ slow ∷ []) (new_registry (pos 0)))
observe_all-new_registry_example = observe_all-new_registry (quick ∷ slow ∷ []) (pos 0)

abbrev shown : Value → String
shown (count zero) = "0"
shown (count (suc n)) = "1"
shown (seconds n) = "0.5"
shown (at_time t) = "10"

shown_line : (v : Value) → any is_newline (shown v) ≡ false
shown_line (count zero) = refl
shown_line (count (suc n)) = refl
shown_line (seconds n) = refl
shown_line (at_time t) = refl

abbrev build : BuildInfo
build = record { version = "v1"; commit = "a\\b"; go_version = "go1" }

quoted : Registry
unfolding observe new_registry
quoted = observe (record quick { failed = "the \"other\" one\n" ∷ [] }) (new_registry (pos 0))

scrape-write_to_example : scrape (write_to shown build quoted) ≡ some (exposed shown build quoted)
scrape-write_to_example = scrape-write_to shown shown_line build quoted

escape_run : escape_label "a\"b\\c\n" ≡ "a\\\"b\\\\c\\n"
unfolding escape_label escaped_char
escape_run = refl
