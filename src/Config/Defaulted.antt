-- ===== src/Config/Defaulted.antt =====
-- What `applyDefaults` (internal/config/config.go) makes of a configuration: a valid one again, and
-- one with a maximum age for the readiness probe that does not overflow.
use calendar_bridge.Base.{
  ℕ, zero, suc, ◌*◌, ◌<◌, min, ◌≡◌, ◌≢◌, refl, sym, ap, ◌∙◌, String, true, not, ◌⊎◌, inl, inr,
  Option, none, ltb, ◌/=◌, string_eq, Bool-cases, arith, if◌then◌else◌,
}
use calendar_bridge.Base.Int.{ℤ, pos, negsuc, ◌*ℤ◌, ltb_ℤ, wrap_i64, wrap_i64_of_range}
use calendar_bridge.Effect.{Result, ok, err}
use calendar_bridge.Config.{MetricsConfig, WebhookConfig, Config}
use calendar_bridge.Config.Defaults.{
  Durations, is_zero, or_default, three_times, three_poll_intervals, filled_webhook, filled_metrics,
  default_webhook, default_metrics, apply_defaults,
}
use calendar_bridge.Config.Clear.{or_else-none}
use calendar_bridge.Config.Validate.{
  Problem, public_url_required, verification_token_required, url_problem, Url, ◌or_else◌, unless,
  lookahead_days_negative, debounce_problem, ttl_problem, interval_problem, max_age_problem, if_set,
  enabled_problem, webhook_problem, metrics_problem, validate,
}

-- The durations that the source writes as text, and every duration as text and back.
pub record DurationLaws (durations : Durations) : Type 0 where
  pub five_seconds : durations.parse "5s" ≡ ok (pos 5_000_000_000)
  pub five_minutes : durations.parse "5m" ≡ ok (pos 300_000_000_000)
  pub quarter_hour : durations.parse "15m" ≡ ok (pos 900_000_000_000)
  pub one_day : durations.parse "24h" ≡ ok (pos 86_400_000_000_000)
  pub round :
      (n : ℕ)
      → n < 9_223_372_036_854_775_808
      → durations.parse (durations.show (pos n)) ≡ ok (pos n)

or_default_idempotent : (t d : String) → or_default (or_default t d) d ≡ or_default t d
unfolding or_default
or_default_idempotent t d = ground arith

triple : (n : ℕ) → pos 3 *ℤ pos n ≡ pos (3 * n)
unfolding ◌*ℤ◌
triple n = ground arith

tripled : (n : ℕ) → 3 * n < 9_223_372_036_854_775_808 → wrap_i64 (pos 3 *ℤ pos n) ≡ pos (3 * n)
tripled n small = ap wrap_i64 (triple n) ∙ wrap_i64_of_range (pos (3 * n)) small (omega arith)

age_of_pos : (n : ℕ) → max_age_problem (ok (pos n)) ≡ none
unfolding max_age_problem
age_of_pos n = ground arith

or_default-cases :
    (t d : String) → ((t ≡ "") × (or_default t d ≡ d)) ⊎ ((t ≢ "") × (or_default t d ≡ t))
unfolding or_default
or_default-cases t d = ground arith

if_set_of_clear : (t : String) (p : Option Problem) → p ≡ none → if_set t p ≡ none
unfolding if_set
if_set_of_clear t p clear = ground arith

if_set_default :
    (durations : Durations) (problem : Result ℤ → Option Problem) (t d : String)
    → problem (durations.parse d) ≡ none
    → if_set t (problem (durations.parse t)) ≡ none
    → if_set (or_default t d) (problem (durations.parse (or_default t d))) ≡ none
if_set_default durations problem t d default_clear clear = elim (or_default-cases t d) [
  | inl (empty, same) ↦ rw same (if_set_of_clear d _ default_clear)
  | inr (given, same) ↦ rw same clear
]

both-none : (p q : Option Problem) → p ≡ none → q ≡ none → (p or_else q) ≡ none
both-none p q h k = rw (h, k) refl

module _ (durations : Durations) (laws : DurationLaws durations) where
  three_times_of_negsuc : (n : ℕ) → three_times durations (ok (negsuc n)) ≡ "15m"
  unfolding three_times
  three_times_of_negsuc n = ground arith

  -- Three times a positive duration, and the largest where that would overflow.
  three_times_of_pos :
      (n : ℕ)
      → 0 < n
      → durations.parse (three_times durations (ok (pos n)))
        ≡ ok (pos (min (3 * n) 9_223_372_036_854_775_807))
  unfolding three_times
  three_times_of_pos n above = elim (Bool-cases (ltb 3_074_457_345_618_258_602 n)) [
    | inl large ↦ ground (arith, laws.round 9_223_372_036_854_775_807 (omega arith))
    | inr small ↦ ground (arith, tripled n, laws.round (3 * n))
  ]

  -- The maximum age of the last success is three poll intervals, and the largest duration where that
  -- would overflow; if the interval is a positive duration, and the time package reads the durations
  -- that it prints.
  pub three_poll_intervals_lem :
      (poll : String) (n : ℕ)
      → durations.parse poll ≡ ok (pos n)
      → 0 < n
      → durations.parse (three_poll_intervals durations poll)
        ≡ ok (pos (min (3 * n) 9_223_372_036_854_775_807))
  unfolding three_poll_intervals
  three_poll_intervals_lem poll n parsed above = rw parsed (three_times_of_pos n above)

  -- It is a duration and not negative, whatever the poll interval reads.
  three_times-clear :
      (r : Result ℤ) → max_age_problem (durations.parse (three_times durations r)) ≡ none
  unfolding max_age_problem three_times
  three_times-clear (err e) = rw (three_times, laws.quarter_hour) refl
  three_times-clear (ok (negsuc n)) = rw (three_times_of_negsuc n, laws.quarter_hour) refl
  three_times-clear (ok (pos zero)) = rw (three_times, laws.quarter_hour) refl
  three_times-clear (ok (pos (suc n))) =
      rw (three_times_of_pos (suc n) (omega arith))
        (age_of_pos (min (3 * suc n) 9_223_372_036_854_775_807))

module _ (durations : Durations) (laws : DurationLaws durations)
    (parse_url : String → Result Url) where
  seconds_clear : debounce_problem (durations.parse "5s") ≡ none
  unfolding debounce_problem
  seconds_clear = rw laws.five_seconds refl

  day_clear : ttl_problem (durations.parse "24h") ≡ none
  unfolding ttl_problem
  day_clear = rw laws.one_day refl

  minutes_clear : interval_problem (durations.parse "5m") ≡ none
  unfolding interval_problem
  minutes_clear = rw laws.five_minutes refl

  enabled_problem-filled :
      (h : WebhookConfig) (listen_addr : String)
      → enabled_problem durations parse_url h ≡ none
      → enabled_problem durations parse_url (record h {
        listen_addr = listen_addr;
        channel_ttl = or_default h.channel_ttl "24h";
        debounce_interval = or_default h.debounce_interval "5s";
      })
        ≡ none
  unfolding enabled_problem
  enabled_problem-filled h listen_addr clear =
      let (url, h1) =
        or_else-none (unless (h.public_url /= "") public_url_required)
          (url_problem (parse_url h.public_url)
            or_else unless (h.verification_token /= "") verification_token_required
            or_else if_set h.debounce_interval
                (debounce_problem (durations.parse h.debounce_interval))
            or_else if_set h.channel_ttl (ttl_problem (durations.parse h.channel_ttl)))
          clear in
      let (parsed, h2) = or_else-none (url_problem (parse_url h.public_url)) _ h1 in
      let (token, h3) =
        or_else-none (unless (h.verification_token /= "") verification_token_required) _ h2 in
      let (debounce, ttl) = or_else-none _ _ h3 in
      both-none _ _ url (
        both-none _ _ parsed (
          both-none _ _ token (
            both-none _ _
              (if_set_default durations debounce_problem h.debounce_interval "5s" seconds_clear
                debounce)
              (if_set_default durations ttl_problem h.channel_ttl "24h" day_clear ttl))))

  webhook_problem_on :
      (h : WebhookConfig)
      → h.enabled ≡ true
      → webhook_problem durations parse_url h ≡ enabled_problem durations parse_url h
  unfolding webhook_problem
  webhook_problem_on h on = ground arith

  default_webhook-cases :
      (h : WebhookConfig)
      → ((h.enabled ≡ true) × (default_webhook durations h ≡ filled_webhook durations h))
        ⊎ (default_webhook durations h ≡ h)
  unfolding default_webhook
  default_webhook-cases h = elim (Bool-cases h.enabled) [
    | inl on ↦ inl (on, simp on refl)
    | inr off ↦ inr (simp off refl)
  ]

  webhook_problem-default_webhook :
      (h : WebhookConfig)
      → webhook_problem durations parse_url h ≡ none
      → webhook_problem durations parse_url (default_webhook durations h) ≡ none
  webhook_problem-default_webhook h clear = elim (default_webhook-cases h) [
    | inl (on, filled) ↦ rw filled (
        webhook_problem_on (filled_webhook durations h) on
        ∙ enabled_problem-filled h _ (sym (webhook_problem_on h on) ∙ clear))
    | inr same ↦ rw same clear
  ]

  metrics_problem_on :
      (m : MetricsConfig)
      → m.enabled ≡ true
      → metrics_problem durations parse_url m
        ≡ if_set m.ready_max_age (max_age_problem (durations.parse m.ready_max_age))
  unfolding metrics_problem
  metrics_problem_on m on = ground arith

  default_metrics-cases :
      (poll : String) (m : MetricsConfig)
      → ((m.enabled ≡ true) × (default_metrics durations poll m ≡ filled_metrics durations poll m))
        ⊎ (default_metrics durations poll m ≡ m)
  unfolding default_metrics
  default_metrics-cases poll m = elim (Bool-cases m.enabled) [
    | inl on ↦ inl (on, simp on refl)
    | inr off ↦ inr (simp off refl)
  ]

  metrics_problem-default_metrics :
      (poll : String) (m : MetricsConfig)
      → metrics_problem durations parse_url m ≡ none
      → metrics_problem durations parse_url (default_metrics durations poll m) ≡ none
  unfolding three_poll_intervals
  metrics_problem-default_metrics poll m clear = elim (default_metrics-cases poll m) [
    | inl (on, filled) ↦ rw filled (
        metrics_problem_on (filled_metrics durations poll m) on
        ∙ if_set_default durations max_age_problem m.ready_max_age _
            (three_times-clear durations laws (durations.parse poll))
            (sym (metrics_problem_on m on) ∙ clear))
    | inr same ↦ rw same clear
  ]

  lookahead-clear :
      (d : ℤ)
      → unless (not (ltb_ℤ d (pos 0))) lookahead_days_negative ≡ none
      → unless (not (ltb_ℤ (if is_zero d then pos 30 else d) (pos 0))) lookahead_days_negative
        ≡ none
  lookahead-clear d clear = elim (Bool-cases (is_zero d)) [
    | inl zero_days ↦ rw zero_days refl
    | inr set ↦ rw set clear
  ]

  -- With its defaults filled in, a configuration that `Validate` accepts is one that it accepts, so
  -- that what `Load` returns can be saved, if the time package reads the durations that the source
  -- writes as text and every duration that it prints.
  pub validate-apply_defaults :
      (c : Config)
      → validate durations parse_url c ≡ none
      → validate durations parse_url (apply_defaults durations c) ≡ none
  unfolding validate apply_defaults
  validate-apply_defaults c clear =
      let (enough, h1) = or_else-none _ _ clear in
      let (accounts, h2) = or_else-none _ _ h1 in
      let (webhook, h3) = or_else-none _ _ h2 in
      let (poll, h4) = or_else-none _ _ h3 in
      let (lookahead, metrics) = or_else-none _ _ h4 in
      both-none _ _ enough (
        both-none _ _ accounts (
          both-none _ _ (webhook_problem-default_webhook c.webhook webhook) (
            both-none _ _
              (if_set_default durations interval_problem c.poll_interval "5m" minutes_clear poll)
              (both-none _ _ (lookahead-clear c.lookahead_days lookahead)
                (metrics_problem-default_metrics _ c.metrics metrics)))))
