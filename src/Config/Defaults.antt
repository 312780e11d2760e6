-- ===== src/Config/Defaults.antt =====
-- `applyDefaults` of internal/config/config.go.
use calendar_bridge.Base.{String, Bool, false, ◌==◌, eqb, string_eq, if◌then◌else◌}
use calendar_bridge.Base.Int.{ℤ, pos, negsuc, ◌*ℤ◌, leb_ℤ, ltb_ℤ, wrap_i64}
use calendar_bridge.Effect.{Result, ok, err}
use calendar_bridge.Config.{MetricsConfig, WebhookConfig, Config}

-- The largest `time.Duration`, and what `maxDuration/3` is.
abbrev pub max_duration : ℤ
max_duration = pos 9_223_372_036_854_775_807

abbrev pub third_of_max : ℤ
third_of_max = pos 3_074_457_345_618_258_602

-- The time package's durations as text: `time.ParseDuration` and `Duration.String`.
pub record Durations : Type 0 where
  pub parse : String → Result ℤ
  pub show : ℤ → String

unfoldable pub is_zero : ℤ → Bool
is_zero (pos n) = eqb n 0
is_zero (negsuc n) = false

unfoldable pub or_default : String → String → String
or_default text default = if text == "" then default else text

module _ (durations : Durations) where
  -- Where the interval has been parsed.
  unfoldable pub three_times : Result ℤ → String
  three_times (err e) = "15m"
  three_times (ok d) =
      if leb_ℤ d (pos 0)
      then "15m"
      else if ltb_ℤ third_of_max d
      then durations.show max_duration
      else durations.show (wrap_i64 (pos 3 *ℤ d))

  unfoldable pub three_poll_intervals : String → String
  three_poll_intervals poll = three_times (durations.parse poll)

  abbrev pub filled_webhook : WebhookConfig → WebhookConfig
  filled_webhook h = record h {
    listen_addr = or_default h.listen_addr ":8080";
    channel_ttl = or_default h.channel_ttl "24h";
    debounce_interval = or_default h.debounce_interval "5s";
  }

  unfoldable pub default_webhook : WebhookConfig → WebhookConfig
  default_webhook h = if h.enabled then filled_webhook h else h

  abbrev pub filled_metrics : String → MetricsConfig → MetricsConfig
  filled_metrics poll m = record m {
    listen_addr = or_default m.listen_addr "127.0.0.1:9090";
    ready_max_age = or_default m.ready_max_age (three_poll_intervals poll);
  }

  unfoldable pub default_metrics : String → MetricsConfig → MetricsConfig
  default_metrics poll m = if m.enabled then filled_metrics poll m else m

  unfoldable pub apply_defaults : Config → Config
  apply_defaults c =
      let poll = or_default c.poll_interval "5m" in
      record c {
        poll_interval = poll;
        lookahead_days = if is_zero c.lookahead_days then pos 30 else c.lookahead_days;
        block_title = or_default c.block_title "Busy (calendar-bridge)";
        webhook = default_webhook c.webhook;
        web_ui = record (c.web_ui) {
          listen_addr = or_default c.web_ui.listen_addr "127.0.0.1:8090";
        };
        metrics = default_metrics poll c.metrics;
      }
