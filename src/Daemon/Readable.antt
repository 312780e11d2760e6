-- ===== src/Daemon/Readable.antt =====
-- The durations of a configuration that `Load` of internal/config/config.go has accepted.
use mathlib.Core.Path.{subst}
use text.Mathlib.Text
use calendar_bridge.Base.{
  ◌≡◌, ◌≢◌, refl, ap, ◌∙◌, ◌⊎◌, inl, inr, String, ◌<>◌, Bool, true, false, Option, none, some,
  Bool-cases, string_eq, arith, if◌then◌else◌,
}
use calendar_bridge.Base.Int.{ℤ, pos}
use calendar_bridge.Fault.{Fault}
use calendar_bridge.Effect.{Result, ok, err}
use calendar_bridge.Config.{WebhookConfig, Config}
use calendar_bridge.Config.Defaults.{Durations, or_default, default_webhook, apply_defaults}
use calendar_bridge.Config.Validate.{Url, Problem, validate}
use calendar_bridge.Config.Clear.{IsInterval, IsPositive, IsAge}
use calendar_bridge.Config.Laws.{validate-IsValid}
use calendar_bridge.Config.Defaulted.{DurationLaws, validate-apply_defaults}
use calendar_bridge.Config.Files.{Yaml, accept, check_parsed, load_bytes, load_text}
use calendar_bridge.GoogleAuth.Client.{explained_result}
use calendar_bridge.Daemon.Servers.{duration_or_zero}

ok-eq : {A : Type 0} (a b : A) → ◌≡◌ {A = Result A} (ok a) (ok b) → a ≡ b
ok-eq a b same = cc

or_default_given : (t d : String) → d ≢ "" → or_default t d ≢ ""
unfolding or_default
or_default_given t d given = ground arith

pub true_is_not_false : ◌≢◌ {A = Bool} true false
true_is_not_false same = cc

minutes_given : ◌≢◌ {A = String} "5m" ""
minutes_given same = true_is_not_false (ap (λ (s : String). Text.◌==◌ s "5m") same)

seconds_given : ◌≢◌ {A = String} "5s" ""
seconds_given same = true_is_not_false (ap (λ (s : String). Text.◌==◌ s "5s") same)

module _ (durations : Durations) (parse_url : String → Result Url) (explain : Problem → Fault)
    (yaml : Yaml) where
  -- What `Load` returns is a valid configuration with its defaults filled in.
  abbrev pub IsFilled : Config → Type 0
  IsFilled cfg =
      (c : Config) × (validate durations parse_url c ≡ none) × (apply_defaults durations c ≡ cfg)

  accept-IsFilled :
      (c cfg : Config) (o : Option Problem)
      → validate durations parse_url c ≡ o
      → accept durations parse_url explain yaml c o ≡ ok cfg
      → IsFilled cfg
  unfolding accept
  accept-IsFilled c cfg none valid h = (c, valid, ok-eq _ _ h)
  accept-IsFilled c cfg (some p) valid h = cc

  check_parsed-IsFilled :
      (r : Result Config) (cfg : Config)
      → check_parsed durations parse_url explain yaml r ≡ ok cfg
      → IsFilled cfg
  unfolding check_parsed
  check_parsed-IsFilled (ok c) cfg h = accept-IsFilled c cfg _ refl h
  check_parsed-IsFilled (err e) cfg h = cc

  if_ok :
      (b : Bool) (e : Fault) (r : Result Config) (cfg : Config)
      → (if b then err e else r) ≡ ok cfg
      → r ≡ ok cfg
  if_ok true e r cfg h = cc
  if_ok false e r cfg h = h

  load_bytes-IsFilled :
      (text : String) (cfg : Config)
      → load_bytes durations parse_url explain yaml text ≡ ok cfg
      → IsFilled cfg
  unfolding load_bytes
  load_bytes-IsFilled text cfg h =
      check_parsed-IsFilled (yaml.unmarshal text) cfg (if_ok _ _ _ cfg h)

  pub load_text-IsFilled :
      (text : String) (cfg : Config)
      → load_text durations parse_url explain yaml text ≡ ok cfg
      → IsFilled cfg
  unfolding load_text
  load_text-IsFilled text cfg h = load_bytes-IsFilled text cfg (if_ok _ _ _ cfg h)

  -- Every duration that the set-up reads can be read.
  pub record Readable (cfg : Config) : Type 0 where
    pub poll_interval : IsInterval (durations.parse cfg.poll_interval)
    pub webhook :
        (cfg.webhook.enabled ≡ false)
        ⊎ (((d : ℤ) × (durations.parse cfg.webhook.debounce_interval ≡ ok d))
            × ((d : ℤ) × (duration_or_zero durations "webhook.channel_ttl" cfg.webhook.channel_ttl
                  ≡ ok d)))
    pub metrics :
        (cfg.metrics.enabled ≡ false)
        ⊎ ((d : ℤ) × (duration_or_zero durations "metrics.ready_max_age" cfg.metrics.ready_max_age
              ≡ ok d))

  duration_of_empty :
      (what text : String) → text ≡ "" → (d : ℤ) × (duration_or_zero durations what text ≡ ok d)
  unfolding duration_or_zero string_eq
  duration_of_empty what text empty = (pos 0, rw empty refl)

  duration_if_set :
      (what text : String)
      → text ≢ ""
      → duration_or_zero durations what text
        ≡ explained_result ("invalid " <> what) (durations.parse text)
  unfolding duration_or_zero
  duration_if_set what text given = ground arith

  duration_of_set :
      (what text : String) (d : ℤ)
      → durations.parse text ≡ ok d
      → (e : ℤ) × (duration_or_zero durations what text ≡ ok e)
  unfolding explained_result
  duration_of_set what text d parsed = elim (string_eq.dec text "") [
    | yes empty ↦ duration_of_empty what text empty
    | no given ↦
        (d, duration_if_set what text given ∙ ap (explained_result ("invalid " <> what)) parsed)
  ]

  debounce_given :
      (h : WebhookConfig)
      → ((default_webhook durations h).enabled ≡ false)
        ⊎ ((default_webhook durations h).debounce_interval ≢ "")
  unfolding default_webhook
  debounce_given h = elim (Bool-cases h.enabled) [
    | inl on ↦ inr (simp on (or_default_given h.debounce_interval "5s" seconds_given))
    | inr off ↦ inl (simp off refl)
  ]

  pub filled-Readable : DurationLaws durations → (cfg : Config) → IsFilled cfg → Readable cfg
  unfolding apply_defaults
  filled-Readable laws cfg (c, valid, filled) =
      let sound =
        validate-IsValid durations parse_url (apply_defaults durations c)
          (validate-apply_defaults durations laws parse_url c valid) in
      subst Readable filled (record {
        poll_interval = elim sound.poll_interval [
          | inl empty ↦ absurd (or_default_given c.poll_interval "5m" minutes_given empty)
          | inr interval ↦ interval
        ];
        webhook = elim (debounce_given c.webhook) [
          | inl off ↦ inl off
          | inr given ↦ elim sound.webhook [
            | inl off ↦ inl off
            | inr reachable ↦ inr (
              debounce_read _ given reachable.debounce_interval,
              ttl_read _ reachable.channel_ttl,
            )
          ]
        ];
        metrics = elim sound.ready_max_age [ inl off ↦ inl off | inr age ↦ inr (age_read _ age) ];
      })
    where
      debounce_read :
          (text : String)
          → text ≢ ""
          → (text ≡ "") ⊎ ((d : ℤ) × (durations.parse text ≡ ok d))
          → (d : ℤ) × (durations.parse text ≡ ok d)
      debounce_read text given (inl empty) = absurd (given empty)
      debounce_read text given (inr read) = read

      ttl_read :
          (text : String)
          → (text ≡ "") ⊎ IsPositive (durations.parse text)
          → (d : ℤ) × (duration_or_zero durations "webhook.channel_ttl" text ≡ ok d)
      ttl_read text (inl empty) = duration_of_empty "webhook.channel_ttl" text empty
      ttl_read text (inr (n, parsed, above)) =
          duration_of_set "webhook.channel_ttl" text (pos n) parsed

      age_read :
          (text : String)
          → (text ≡ "") ⊎ IsAge (durations.parse text)
          → (d : ℤ) × (duration_or_zero durations "metrics.ready_max_age" text ≡ ok d)
      age_read text (inl empty) = duration_of_empty "metrics.ready_max_age" text empty
      age_read text (inr (n, parsed)) = duration_of_set "metrics.ready_max_age" text (pos n) parsed
