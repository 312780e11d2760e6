-- ===== src/Config/Laws.antt =====
-- What a validated configuration (internal/config/config.go) guarantees.
use calendar_bridge.Base.{
  ◌≤◌, ◌≡◌, ◌≢◌, String, false, ◌⊎◌, inl, inr, none, [], All, length, string_eq,
}
use calendar_bridge.Base.Int.{ℤ, pos, ◌≤ℤ◌}
use calendar_bridge.Effect.{Result, ok}
use calendar_bridge.Config.{MetricsConfig, WebhookConfig, Config}
use calendar_bridge.Config.Defaults.{Durations}
use calendar_bridge.Config.Validate.{
  too_few_accounts, lookahead_days_negative, Url, enabled_problem, webhook_problem, metrics_problem,
  validate,
}
use calendar_bridge.Config.Clear.{
  or_else-none, unless-none, not_empty, if_set-none, if_on-none, enough_accounts, not_below_zero,
  IsComplete, Distinct, IsPublic, accounts_problem-Distinct, url_problem-IsPublic, IsInterval,
  IsPositive, IsAge, interval_problem-IsInterval, ttl_problem-IsPositive, max_age_problem-IsAge,
  debounce_problem-ok,
}

module _ (durations : Durations) (parse_url : String → Result Url) where
  -- A webhook that can be set up.
  pub record IsReachable (h : WebhookConfig) : Type 0 where
    pub url : (u : Url) × (parse_url h.public_url ≡ ok u) × IsPublic u
    pub verification_token : h.verification_token ≢ ""
    pub debounce_interval :
        (h.debounce_interval ≡ "") ⊎ ((d : ℤ) × (durations.parse h.debounce_interval ≡ ok d))
    pub channel_ttl : (h.channel_ttl ≡ "") ⊎ IsPositive (durations.parse h.channel_ttl)

  pub record IsValid (c : Config) : Type 0 where
    pub enough : 2 ≤ length c.accounts
    pub complete : All IsComplete c.accounts
    pub distinct : Distinct c.accounts
    pub webhook : (c.webhook.enabled ≡ false) ⊎ IsReachable c.webhook
    pub poll_interval : (c.poll_interval ≡ "") ⊎ IsInterval (durations.parse c.poll_interval)
    pub lookahead_days : pos 0 ≤ℤ c.lookahead_days
    pub ready_max_age :
        (c.metrics.enabled ≡ false)
        ⊎ ((c.metrics.ready_max_age ≡ "") ⊎ IsAge (durations.parse c.metrics.ready_max_age))

  or_map : {A B C : Type 0} → (B → C) → A ⊎ B → A ⊎ C
  or_map f (inl a) = inl a
  or_map f (inr b) = inr (f b)

  enabled_problem-IsReachable :
      (h : WebhookConfig) → enabled_problem durations parse_url h ≡ none → IsReachable h
  unfolding enabled_problem
  enabled_problem-IsReachable h clear =
      let (_, h1) = or_else-none _ _ clear in
      let (url, h2) = or_else-none _ _ h1 in
      let (token, h3) = or_else-none _ _ h2 in
      let (debounce, ttl) = or_else-none _ _ h3 in
      record {
        url = url_problem-IsPublic _ url;
        verification_token = not_empty _ (unless-none _ _ token);
        debounce_interval = or_map (debounce_problem-ok _) (if_set-none _ _ debounce);
        channel_ttl = or_map (ttl_problem-IsPositive _) (if_set-none _ _ ttl);
      }

  webhook_problem-IsReachable :
      (h : WebhookConfig)
      → webhook_problem durations parse_url h ≡ none
      → (h.enabled ≡ false) ⊎ IsReachable h
  unfolding webhook_problem
  webhook_problem-IsReachable h clear =
      or_map (enabled_problem-IsReachable h) (if_on-none h.enabled _ clear)

  metrics_problem-IsAge :
      (m : MetricsConfig)
      → metrics_problem durations parse_url m ≡ none
      → (m.enabled ≡ false) ⊎ ((m.ready_max_age ≡ "") ⊎ IsAge (durations.parse m.ready_max_age))
  unfolding metrics_problem
  metrics_problem-IsAge m clear =
      or_map (λ set. or_map (max_age_problem-IsAge _) (if_set-none _ _ set))
        (if_on-none m.enabled _ clear)

  -- A configuration in which `Validate` finds no problem has two accounts at least, of which each is
  -- complete and no two share a name; a webhook that is off, or has a bare https URL, a token, and
  -- durations where it has any; a poll interval that is not set, or positive and a third of the
  -- largest duration at most; no negative lookahead; and a maximum age of the metrics that is off, not
  -- set or not negative.
  pub validate-IsValid : (c : Config) → validate durations parse_url c ≡ none → IsValid c
  unfolding validate
  validate-IsValid c clear =
      let (enough, h1) = or_else-none _ _ clear in
      let (accounts, h2) = or_else-none _ _ h1 in
      let (webhook, h3) = or_else-none _ _ h2 in
      let (poll, h4) = or_else-none _ _ h3 in
      let (lookahead, metrics) = or_else-none _ _ h4 in
      let (complete, distinct, unseen) = accounts_problem-Distinct 0 [] c.accounts accounts in
      record {
        enough = enough_accounts _ (too_few_accounts (length c.accounts)) enough;
        complete = complete;
        distinct = distinct;
        webhook = webhook_problem-IsReachable c.webhook webhook;
        poll_interval = or_map (interval_problem-IsInterval _) (if_set-none _ _ poll);
        lookahead_days = not_below_zero _ lookahead_days_negative lookahead;
        ready_max_age = metrics_problem-IsAge c.metrics metrics;
      }
