-- ===== src/Daemon/Launch.antt =====
-- How the set-up of `runSync` in cmd/calendar-bridge/main.go can end with a configuration that `Load` has
-- accepted.
use calendar_bridge.Base.{
  ℕ, ◌<◌, ◌≡◌, refl, sym, ap, ◌∙◌, ◌⊎◌, inl, inr, String, ◌<>◌, Bool, true, false, Option, none,
  some, map, string_eq,
}
use calendar_bridge.Base.Int.{ℤ, pos}
use calendar_bridge.Fault.{Fault}
use calendar_bridge.Effect.{Result, ok, err, M, continue, pure}
use calendar_bridge.Config.{MetricsConfig, Config}
use calendar_bridge.Config.Defaults.{Durations}
use calendar_bridge.Config.Validate.{Url, Problem}
use calendar_bridge.Config.Defaulted.{DurationLaws}
use calendar_bridge.Config.Files.{Yaml, load_text}
use calendar_bridge.GoogleAuth.Client.{explained_result}
use calendar_bridge.Engine.Model.{Engine}
use calendar_bridge.Webhook.Manager.{ChannelWatcher, new_manager}
use calendar_bridge.Webhook.Debouncer.{new_debouncer}
use calendar_bridge.Metrics.{new_registry}
use calendar_bridge.Daemon.Exit.{exit_runtime, report_setup_error}
use calendar_bridge.Daemon.Servers.{
  WebhookServer, callback_url, target_of, bind, duration_or_zero, start_metrics, start_webhook,
}
use calendar_bridge.Daemon.Setup.{
  Started, going, exits, Setup, Ready, next, or_exit, if_enabled, set_up, start_sync,
}
use calendar_bridge.Daemon.Readable.{
  true_is_not_false, Readable, load_text-IsFilled, filled-Readable,
}

abbrev pub is_some : {A : Type 0} → Option A → Bool
is_some (some a) = true
is_some none = false

-- The calls that the set-up makes on the world, and what it can end in.
module _ {W : Type 0} (durations : Durations) (listen : String → M W (Unit {0})) (time_of : W → ℤ)
    (build : Config → M W (Engine W)) (watcher : ChannelWatcher W) where
  abbrev served : Config → ℤ → ℤ → WebhookServer W
  served cfg interval ttl = record {
    debouncer = new_debouncer interval;
    token = cfg.webhook.verification_token;
    manager =
        new_manager watcher (callback_url cfg.webhook.public_url) cfg.webhook.verification_token
          ttl;
    targets = map target_of cfg.accounts;
  }

  -- What the poll loop starts with is what the configuration asks for.
  pub record Serves (cfg : Config) (dry : Bool) (r : Ready W) : Type 0 where
    pub interval :
        (n : ℕ) × (r.interval ≡ pos n) × (0 < n) × (durations.parse cfg.poll_interval ≡ ok (pos n))
    pub metrics : is_some r.metrics ≡ cfg.metrics.enabled
    pub webhook : is_some r.webhook ≡ cfg.webhook.enabled
    pub dry_run : r.engine.dry_run ≡ dry

  continue_bound :
      {A : Type 0} (what addr : String) (a : A) (w w' : W) (e : Fault)
      → continue (bind durations listen what addr w) (λ _. pure a) ≡ (err e, w')
      → (e' : Fault) × (listen addr w ≡ (err e', w'))
  unfolding bind explained_result
  continue_bound what addr a w w' e h = bound (listen addr w) h
    where
      bound :
          (r : Result (Unit {0}) × W)
          → continue
              (explained_result ("binding " <> what <> " listener on " <> addr) r.0, r.1)
              (λ _. pure a)
            ≡ (err e, w')
          → (e' : Fault) × (r ≡ (err e', w'))
      bound (ok u, v) h = cc
      bound (err e', v) h = (e', ap (λ x. (err e', x)) (ap (λ r. r.1) h))

  start_metrics-eq :
      (m : MetricsConfig) (d : ℤ) (w : W)
      → duration_or_zero durations "metrics.ready_max_age" m.ready_max_age ≡ ok d
      → start_metrics durations listen time_of m w
        ≡ continue
            (bind durations listen "metrics" m.listen_addr w)
            (λ _. pure (record { registry = new_registry (time_of w); ready_max_age = d }))
  unfolding start_metrics
  start_metrics-eq m d w read = rw read refl

  start_webhook-eq :
      (cfg : Config) (interval ttl : ℤ) (w : W)
      → durations.parse cfg.webhook.debounce_interval ≡ ok interval
      → duration_or_zero durations "webhook.channel_ttl" cfg.webhook.channel_ttl ≡ ok ttl
      → start_webhook durations listen watcher cfg w
        ≡ continue
            (bind durations listen "webhook" cfg.webhook.listen_addr w)
            (λ _. pure (served cfg interval ttl))
  unfolding start_webhook explained_result
  start_webhook-eq cfg interval ttl w debounce read = rw (debounce, read) refl

  -- The set-up fails in no call but in binding an address and in building the engine.
  pub data SetUp (cfg : Config) (dry_run : Bool) : Started (Ready W) × W → Type 0 where
    serves : (r : Ready W) (w : W) → Serves cfg dry_run r → SetUp cfg dry_run (going r, w)
    unbound :
        (addr : String) (e : Fault) (v w : W)
        → listen addr v ≡ (err e, w)
        → SetUp cfg dry_run (exits exit_runtime, w)
    unbuilt :
        (e : Fault) (v w : W)
        → build cfg v ≡ (err e, w)
        → SetUp cfg dry_run (exits (report_setup_error e), w)

  -- An optional server that is bound to this address.
  next-if_enabled :
      {A B : Type 0} (P : Started B × W → Type 0) (enabled : Bool) (start : M W A) (w : W)
      (f : Option A → Setup W B)
      → ((a : Option A) (v : W) → is_some a ≡ enabled → P (f a v))
      → ((e : Fault) (v : W) → enabled ≡ true → start w ≡ (err e, v) → P (exits exit_runtime, v))
      → P (next (if_enabled enabled start w) f)
  next-if_enabled P false start w f works fails = works none w refl
  next-if_enabled {A} P true start w f works fails = started (start w) (fails_at)
    where
      fails_at : (e : Fault) (v : W) → start w ≡ (err e, v) → P (exits exit_runtime, v)
      fails_at e v call = fails e v refl call

      started :
          (r : Result A × W)
          → ((e : Fault) (v : W) → r ≡ (err e, v) → P (exits exit_runtime, v))
          → P (next (next (or_exit (λ e. exit_runtime) r) (λ a w'. (going (some a), w'))) f)
      started (ok a, v) fails = works (some a) v refl
      started (err e, v) fails = fails e v refl

  module _ (cfg : Config) (dry : Bool) where
    next-build :
        {B : Type 0} (P : Started B × W → Type 0) (w : W) (f : Engine W → Setup W B)
        → ((engine : Engine W) (v : W) → P (f engine v))
        → ((e : Fault) (v : W) → build cfg w ≡ (err e, v) → P (exits (report_setup_error e), v))
        → P (next (or_exit report_setup_error (build cfg w)) f)
    next-build {B} P w f works fails = built (build cfg w) fails
      where
        built :
            (r : Result (Engine W) × W)
            → ((e : Fault) (v : W) → r ≡ (err e, v) → P (exits (report_setup_error e), v))
            → P (next (or_exit report_setup_error r) f)
        built (ok engine, v) fails = works engine v
        built (err e, v) fails = fails e v refl

    metrics-SetUp :
        (e : Fault) (w v : W)
        → (cfg.metrics.enabled ≡ false)
          ⊎ ((d : ℤ) × (duration_or_zero durations "metrics.ready_max_age" cfg.metrics.ready_max_age
                ≡ ok d))
        → cfg.metrics.enabled ≡ true
        → start_metrics durations listen time_of cfg.metrics w ≡ (err e, v)
        → SetUp cfg dry (exits exit_runtime, v)
    metrics-SetUp e w v (inl off) on call = absurd (true_is_not_false (sym on ∙ off))
    metrics-SetUp e w v (inr (d, read)) on call =
        let (e', bound) =
          continue_bound "metrics" cfg.metrics.listen_addr _ w v e
            (sym (start_metrics-eq cfg.metrics d w read) ∙ call) in
        unbound cfg.metrics.listen_addr e' w v bound

    webhook-SetUp :
        (e : Fault) (w v : W)
        → (cfg.webhook.enabled ≡ false)
          ⊎ (((d : ℤ) × (durations.parse cfg.webhook.debounce_interval ≡ ok d))
              × ((d : ℤ) × (duration_or_zero durations "webhook.channel_ttl" cfg.webhook.channel_ttl
                    ≡ ok d)))
        → cfg.webhook.enabled ≡ true
        → start_webhook durations listen watcher cfg w ≡ (err e, v)
        → SetUp cfg dry (exits exit_runtime, v)
    webhook-SetUp e w v (inl off) on call = absurd (true_is_not_false (sym on ∙ off))
    webhook-SetUp e w v (inr ((d, debounce), (ttl, read))) on call =
        let (e', bound) =
          continue_bound "webhook" cfg.webhook.listen_addr _ w v e
            (sym (start_webhook-eq cfg d ttl w debounce read) ∙ call) in
        unbound cfg.webhook.listen_addr e' w v bound

    set_up-SetUp :
        (parse_url : String → Result Url) (explain : Problem → Fault) (yaml : Yaml) (w : W)
        → Readable durations parse_url explain yaml cfg
        → SetUp cfg dry (set_up durations listen time_of build watcher dry cfg w)
    unfolding set_up
    set_up-SetUp parse_url explain yaml w readable =
        let (n, parsed, above, small) = readable.poll_interval in
        next-if_enabled (SetUp cfg dry) cfg.metrics.enabled
          (start_metrics durations listen time_of cfg.metrics) w _
          (λ metrics v same.
            next-build (SetUp cfg dry) v _
              (λ engine v'. rw parsed (
                next-if_enabled (SetUp cfg dry) cfg.webhook.enabled
                  (start_webhook durations listen watcher cfg) v' _
                  (λ webhook u same'. serves _ u (record {
                    interval = (n, refl, above, parsed);
                    metrics = same;
                    webhook = same';
                    dry_run = refl;
                  }))
                  (λ e u on call. webhook-SetUp e v' u readable.webhook on call)))
              (λ e v' call. unbuilt e v v' call))
          (λ e v on call. metrics-SetUp e w v readable.metrics on call)

  -- With a configuration that `Load` has accepted, the set-up of `run` either gets to the poll loop, with
  -- a positive interval, the servers that are enabled and the dry-run flag as given, or it exits with code
  -- 6 as an address could not be bound, or with the code of the error that the engine could not be built
  -- for: no duration is found invalid so late.
  pub start_sync-SetUp :
      (laws : DurationLaws durations) (parse_url : String → Result Url) (explain : Problem → Fault)
      (yaml : Yaml) (text : String) (cfg : Config) (dry : Bool) (w : W)
      → load_text durations parse_url explain yaml text ≡ ok cfg
      → SetUp cfg dry (
          start_sync durations listen time_of build watcher dry
            (load_text durations parse_url explain yaml text)
            w)
  unfolding start_sync
  start_sync-SetUp laws parse_url explain yaml text cfg dry w loaded = rw loaded (
      set_up-SetUp cfg dry parse_url explain yaml w (
        filled-Readable durations parse_url explain yaml laws cfg
          (load_text-IsFilled durations parse_url explain yaml text cfg loaded)))
