-- ===== src/Metrics/Text.antt =====
-- `writeTo` of internal/metrics/metrics.go: the registry in the text format of Prometheus. What is
-- written to the builder is the result here. The map of accounts is read in the order of its entries,
-- which are sorted.
use Prim.Native.Char.{Char, code}
use Prim.Native.String.{compare}
use Prim.Native.Nat.{Ordering}
use calendar_bridge.Base.{
  ℕ, String, ◌<>◌, Bool, true, false, Option, none, some, List, [], ◌∷◌, map, eqb, if◌then◌else◌,
}
use calendar_bridge.Base.Int.{ℤ}
use calendar_bridge.Base.Dict
use calendar_bridge.Base.Dict.{Dict}
use calendar_bridge.Metrics.{Registry, duration_buckets, or_zero}

pub record BuildInfo : Type 0 where
  pub version : String
  pub commit : String
  pub go_version : String

-- A float64, by what it is made of: a counter, a number of nanoseconds in seconds, or a Unix time.
pub data Value : Type 0 where
  count : ℕ → Value
  seconds : ℕ → Value
  at_time : ℤ → Value

abbrev pub Labels : Type 0
Labels = List (String × String)

pub record Sample : Type 0 where
  pub labels : Labels
  pub value : Value

-- What `escapeLabel` puts in place of a character.
unfoldable pub escaped_char : Char → String
escaped_char c =
    if eqb (code c) b'\\'
    then "\\\\"
    else if eqb (code c) b'"'
    then "\\\""
    else if eqb (code c) b'\n'
    then "\\n"
    else String.◌∷◌ c ""

unfoldable pub escape_label : String → String
escape_label String.[] = ""
escape_label (String.◌∷◌ c s) = escaped_char c <> escape_label s

-- What `escapeHelp` puts in place of a character.
unfoldable pub escaped_help : Char → String
escaped_help c =
    if eqb (code c) b'\\' then "\\\\" else if eqb (code c) b'\n' then "\\n" else String.◌∷◌ c ""

unfoldable pub escape_help : String → String
escape_help String.[] = ""
escape_help (String.◌∷◌ c s) = escaped_help c <> escape_help s

unfoldable pub header : String → String → String → String
header name typ help =
    ("# HELP " <> "calendar_bridge" <> "_" <> name <> " " <> escape_help help <> "\n")
    <> ("# TYPE " <> "calendar_bridge" <> "_" <> name <> " " <> typ <> "\n")

unfoldable pub label_text : String × String → String
label_text (key, value) = key <> "=\"" <> escape_label value <> "\""

-- The labels after the first one.
unfoldable pub more_labels : Labels → String
more_labels [] = ""
more_labels (label ∷ labels) = "," <> label_text label <> more_labels labels

unfoldable pub labels_text : Labels → String
labels_text [] = ""
labels_text (label ∷ labels) = "{" <> label_text label <> more_labels labels <> "}"

-- `format` is `strconv.FormatFloat(v, 'g', -1, 64)`.
module _ (format : Value → String) where
  unfoldable pub write_sample : String → Labels → Value → String
  write_sample name labels v =
      "calendar_bridge" <> "_" <> name <> labels_text labels <> " " <> format v <> "\n"

  unfoldable pub write_samples : String → List Sample → String
  write_samples name [] = ""
  write_samples name (s ∷ samples) =
      write_sample name s.labels s.value <> write_samples name samples

  unfoldable pub metric : String → String → String → List Sample → String
  metric name typ help samples = header name typ help <> write_samples name samples

  -- The loop over the buckets.
  unfoldable pub buckets : List ℕ → List ℕ → List Sample
  buckets [] counts = []
  buckets (bound ∷ bounds) [] = []
  buckets (bound ∷ bounds) (n ∷ counts) =
      record { labels = ("le", format (seconds bound)) ∷ []; value = count n }
      ∷ buckets bounds counts

-- `sort.Strings`, whose order of bytes is the order of code points.
abbrev before : String → String → Bool
before a b = elim (compare a b) [ Ordering.gt ↦ false | _ ↦ true ]

abbrev insert_sorted : String → List String → List String
insert_sorted a [] = a ∷ []
insert_sorted a (b ∷ names) = if before a b then a ∷ b ∷ names else b ∷ insert_sorted a names

abbrev pub sort_strings : List String → List String
sort_strings [] = []
sort_strings (a ∷ names) = insert_sorted a (sort_strings names)

unfoldable pub account_names : Registry → List String
account_names r = sort_strings (map (λ entry. entry.0) r.account_healthy)

unfoldable pub healthy_value : Option Bool → Value
healthy_value (some true) = count 1
healthy_value (some false) = count 0
healthy_value none = count 0

unfoldable pub healthy_sample : Registry → String → Sample
healthy_sample r a = record {
  labels = ("account", a) ∷ [];
  value = healthy_value (Dict.lookup a r.account_healthy);
}

unfoldable pub errors_sample : Registry → String → Sample
errors_sample r a = record {
  labels = ("account", a) ∷ [];
  value = count (or_zero (Dict.lookup a r.account_errors));
}

unfoldable pub unix : Option ℤ → Value
unix none = count 0
unix (some t) = at_time t

abbrev pub plain : Value → Sample
plain v = record { labels = []; value = v }

abbrev pub labelled : String → String → ℕ → Sample
labelled key label n = record { labels = (key, label) ∷ []; value = count n }

module _ (format : Value → String) where
  unfoldable pub write_accounts : Registry → List String → String
  write_accounts r [] = ""
  write_accounts r (a ∷ names) =
      header "account_healthy" "gauge"
        "1 if the account's events were fetched successfully on the last pass, 0 otherwise."
      <> write_samples format "account_healthy" (map (healthy_sample r) (a ∷ names))
      <> header "account_fetch_errors_total" "counter"
          "Passes in which this account's events could not be fetched."
      <> write_samples format "account_fetch_errors_total" (map (errors_sample r) (a ∷ names))

  unfoldable pub write_histogram : Registry → String
  write_histogram r =
      header "sync_duration_seconds" "histogram" "Duration of a sync pass, in seconds."
      <> write_samples format "sync_duration_seconds_bucket"
          (buckets format duration_buckets r.duration_counts)
      <> write_sample format "sync_duration_seconds_bucket" (("le", "+Inf") ∷ [])
          (count r.duration_count)
      <> write_sample format "sync_duration_seconds_sum" [] (seconds r.duration_sum)
      <> write_sample format "sync_duration_seconds_count" [] (count r.duration_count)

  unfoldable pub write_counters : BuildInfo → Registry → String
  write_counters build r =
      metric format "build_info" "gauge" "Build identification for the running binary; always 1." (
        record {
          labels =
              ("version", build.version)
              ∷ ("commit", build.commit)
              ∷ ("go_version", build.go_version)
              ∷ [];
          value = count 1;
        }
        ∷ [])
      <> metric format "sync_passes_total" "counter" "Sync passes completed, by outcome." (
          labelled "outcome" "success" r.passes_succeeded
          ∷ labelled "outcome" "failure" r.passes_failed
          ∷ [])
      <> metric format "blocks_total" "counter" "Busy blocks written, by action." (
          labelled "action" "created" r.created
          ∷ labelled "action" "updated" r.updated
          ∷ labelled "action" "deleted" r.deleted
          ∷ [])
      <> metric format "events_skipped_total" "counter"
          "Source events deliberately not propagated because they were marked Free or declined."
          (plain (count r.skipped) ∷ [])

  unfoldable pub write_times : Registry → String
  write_times r =
      metric format "last_success_timestamp_seconds" "gauge"
        "Unix time of the last fully-successful sync pass; 0 if there has never been one. Alert when time() minus this exceeds a few poll intervals."
        (plain (unix r.last_success) ∷ [])
      <> metric format "last_pass_timestamp_seconds" "gauge"
          "Unix time of the last sync pass, successful or not; 0 if none has run."
          (plain (unix r.last_pass) ∷ [])
      <> metric format "start_time_seconds" "gauge" "Unix time at which this process started."
          (plain (unix (some r.started)) ∷ [])

  -- `writeTo`
  unfoldable pub write_to : BuildInfo → Registry → String
  write_to build r =
      write_counters build r
      <> write_histogram r
      <> write_accounts r (account_names r)
      <> write_times r
