-- ===== src/Metrics/Exposed.antt =====
-- The text of `writeTo` in internal/metrics/metrics.go as a whole, as a scraper reads it.
use calendar_bridge.Base.{ℕ, String, ◌≡◌, refl, ap, false, some, List, [], ◌∷◌, ◌++◌, map}
use calendar_bridge.Metrics.{Registry, duration_buckets}
use calendar_bridge.Metrics.Text.{
  Sample, BuildInfo, header, write_sample, write_samples, metric, buckets, account_names,
  healthy_sample, errors_sample, unix, plain, labelled, write_accounts, write_histogram,
  write_counters, write_times, write_to, Value, count, seconds,
}
use calendar_bridge.Metrics.Scraper.{Reading, start, run, scrape, at_end}
use calendar_bridge.Metrics.Reads.{Reads, Reads-then, any, is_newline}
use calendar_bridge.Metrics.Scrape.{AllKeys, IsName, reading, read_sample}
use calendar_bridge.Metrics.Comments.{read_header}

-- The keys of the labels of these samples are keys.
abbrev AllSamples : List Sample → Type 0
AllSamples [] = Unit
AllSamples (s ∷ samples) = AllKeys s.labels × AllSamples samples

module _ (format : Value → String) where
  abbrev told : String → List Sample → List Reading
  told name samples = map (reading format name) samples

  abbrev pub accounts_exposed : Registry → List String → List Reading
  accounts_exposed r names =
      told "account_healthy" (map (healthy_sample r) names)
      ++ told "account_fetch_errors_total" (map (errors_sample r) names)

  abbrev pub counters_exposed : BuildInfo → Registry → List Reading
  counters_exposed build r =
      told "build_info" (
        record {
          labels =
              ("version", build.version)
              ∷ ("commit", build.commit)
              ∷ ("go_version", build.go_version)
              ∷ [];
          value = count 1;
        }
        ∷ [])
      ++ told "sync_passes_total" (
          labelled "outcome" "success" r.passes_succeeded
          ∷ labelled "outcome" "failure" r.passes_failed
          ∷ [])
      ++ told "blocks_total" (
          labelled "action" "created" r.created
          ∷ labelled "action" "updated" r.updated
          ∷ labelled "action" "deleted" r.deleted
          ∷ [])
      ++ told "events_skipped_total" (plain (count r.skipped) ∷ [])

  abbrev pub histogram_exposed : Registry → List Reading
  histogram_exposed r =
      told "sync_duration_seconds_bucket" (buckets format duration_buckets r.duration_counts)
      ++ (told "sync_duration_seconds_bucket" (labelled "le" "+Inf" r.duration_count ∷ [])
          ++ (told "sync_duration_seconds_sum" (plain (seconds r.duration_sum) ∷ [])
              ++ told "sync_duration_seconds_count" (plain (count r.duration_count) ∷ [])))

  abbrev pub times_exposed : Registry → List Reading
  times_exposed r =
      told "last_success_timestamp_seconds" (plain (unix r.last_success) ∷ [])
      ++ told "last_pass_timestamp_seconds" (plain (unix r.last_pass) ∷ [])
      ++ told "start_time_seconds" (plain (unix (some r.started)) ∷ [])

  -- The samples of a registry, in their order.
  abbrev pub exposed : BuildInfo → Registry → List Reading
  exposed build r =
      counters_exposed build r
      ++ (histogram_exposed r ++ (accounts_exposed r (account_names r) ++ times_exposed r))

module _ (format : Value → String)
    (one_line : (v : Value) → any is_newline (format v) ≡ false) where
  read_samples :
      (name : String) (samples : List Sample)
      → IsName name
      → AllSamples samples
      → Reads start (write_samples format name samples) start (map (reading format name) samples)
  unfolding write_samples run
  read_samples name [] is_name all = refl
  read_samples name (s ∷ samples) is_name (keys, all) =
      Reads-then _ (write_sample format name s.labels s.value) _
        (read_sample format name s.labels s.value is_name keys (one_line s.value))
        (read_samples name samples is_name all)

  read_metric :
      (name typ help : String) (samples : List Sample)
      → IsName name
      → any is_newline typ ≡ false
      → AllSamples samples
      → Reads start (metric format name typ help samples) start (map (reading format name) samples)
  unfolding metric
  read_metric name typ help samples is_name free all =
      Reads-then _ (header name typ help) _ (read_header name typ help is_name free)
        (read_samples name samples is_name all)

  buckets-AllSamples : (bounds counts : List ℕ) → AllSamples (buckets format bounds counts)
  unfolding buckets
  buckets-AllSamples [] counts = tt
  buckets-AllSamples (b ∷ bounds) [] = tt
  buckets-AllSamples (b ∷ bounds) (n ∷ counts) = ((refl, tt), buckets-AllSamples bounds counts)

  healthy-AllSamples :
      (r : Registry) (names : List String) → AllSamples (map (healthy_sample r) names)
  unfolding healthy_sample
  healthy-AllSamples r [] = tt
  healthy-AllSamples r (a ∷ names) = ((refl, tt), healthy-AllSamples r names)

  errors-AllSamples :
      (r : Registry) (names : List String) → AllSamples (map (errors_sample r) names)
  unfolding errors_sample
  errors-AllSamples r [] = tt
  errors-AllSamples r (a ∷ names) = ((refl, tt), errors-AllSamples r names)

  read_counters :
      (build : BuildInfo) (r : Registry)
      → Reads start (write_counters format build r) start (counters_exposed format build r)
  unfolding write_counters
  read_counters build r =
      Reads-then start _ _
        (read_metric "build_info" "gauge" _ _ refl refl ((refl, (refl, (refl, tt))), tt))
        (Reads-then _ _ _
          (read_metric "sync_passes_total" "counter" _ _ refl refl ((refl, tt), ((refl, tt), tt)))
          (Reads-then _ _ _
            (read_metric "blocks_total" "counter" _ _ refl refl
              ((refl, tt), ((refl, tt), ((refl, tt), tt))))
            (read_metric "events_skipped_total" "counter" _ _ refl refl (tt, tt))))

  read_times : (r : Registry) → Reads start (write_times format r) start (times_exposed format r)
  unfolding write_times
  read_times r =
      Reads-then start _ _
        (read_metric "last_success_timestamp_seconds" "gauge" _ _ refl refl (tt, tt))
        (Reads-then _ _ _ (read_metric "last_pass_timestamp_seconds" "gauge" _ _ refl refl (tt, tt))
          (read_metric "start_time_seconds" "gauge" _ _ refl refl (tt, tt)))

  read_histogram :
      (r : Registry) → Reads start (write_histogram format r) start (histogram_exposed format r)
  unfolding write_histogram
  read_histogram r =
      Reads-then start (header "sync_duration_seconds" "histogram" _) _
        (read_header "sync_duration_seconds" "histogram" _ refl refl)
        (Reads-then _ (write_samples format "sync_duration_seconds_bucket" _) _
          (read_samples "sync_duration_seconds_bucket" _ refl
            (buckets-AllSamples duration_buckets r.duration_counts))
          (Reads-then _ (write_sample format "sync_duration_seconds_bucket" _ _) _
            (read_sample format "sync_duration_seconds_bucket" _ _ refl (refl, tt) (one_line _))
            (Reads-then _ (write_sample format "sync_duration_seconds_sum" _ _) _
              (read_sample format "sync_duration_seconds_sum" _ _ refl tt (one_line _))
              (read_sample format "sync_duration_seconds_count" _ _ refl tt (one_line _)))))

  read_accounts :
      (r : Registry) (names : List String)
      → Reads start (write_accounts format r names) start (accounts_exposed format r names)
  unfolding write_accounts run
  read_accounts r [] = refl
  read_accounts r (a ∷ names) =
      Reads-then start (header "account_healthy" "gauge" _) _
        (read_header "account_healthy" "gauge" _ refl refl)
        (Reads-then _ (write_samples format "account_healthy" _) _
          (read_samples "account_healthy" _ refl (healthy-AllSamples r (a ∷ names)))
          (Reads-then _ (header "account_fetch_errors_total" "counter" _) _
            (read_header "account_fetch_errors_total" "counter" _ refl refl)
            (read_samples "account_fetch_errors_total" _ refl (errors-AllSamples r (a ∷ names)))))

  -- A reader of the text format gets back from the text of `writeTo` exactly the samples of the
  -- registry, with the labels as they are, whatever characters the names of the accounts and the build
  -- have in them, if no number is written with a newline.
  pub scrape-write_to :
      (build : BuildInfo) (r : Registry)
      → scrape (write_to format build r) ≡ some (exposed format build r)
  unfolding scrape write_to
  scrape-write_to build r = ap at_end (
      Reads-then start (write_counters format build r) _ (read_counters build r) (
        Reads-then _ (write_histogram format r) _ (read_histogram r) (
          Reads-then _ (write_accounts format r (account_names r)) _
            (read_accounts r (account_names r)) (read_times r))))
