-- ===== src/Daemon/Setup.antt =====
-- What `runSync` of cmd/calendar-bridge/main.go does before its poll loop, once the flags are read. A
-- command goes on or exits with a code; what it writes is left out.
use calendar_bridge.Base.{ℕ, String, Bool, Option, none, some, if◌then◌else◌}
use calendar_bridge.Base.Int.{ℤ}
use calendar_bridge.Fault.{Fault}
use calendar_bridge.Effect.{Result, ok, err, M}
use calendar_bridge.Config.{Config}
use calendar_bridge.Config.Defaults.{Durations}
use calendar_bridge.Engine.Model.{Engine}
use calendar_bridge.Webhook.Manager.{ChannelWatcher}
use calendar_bridge.Daemon.Exit.{exit_config, exit_runtime, report_setup_error}
use calendar_bridge.Daemon.State.{SyncState, new_sync_state, mark_running}
use calendar_bridge.Daemon.Servers.{MetricsServer, WebhookServer, start_metrics, start_webhook}

pub data Started (A : Type 0) : Type 0 where
  going : A → Started A
  exits : ℕ → Started A

abbrev pub Setup : Type 0 → Type 0 → Type 0
Setup W A = W → Started A × W

abbrev pub next : {W A B : Type 0} → Started A × W → (A → Setup W B) → Started B × W
next (going a, w) f = f a w
next (exits n, w) f = (exits n, w)

infixl 5 ◌>>=◌
abbrev ◌>>=◌ : {W A B : Type 0} → Setup W A → (A → Setup W B) → Setup W B
m >>= f = λ w. next (m w) f

-- Exit with this code on an error.
abbrev pub or_exit : {W A : Type 0} → (Fault → ℕ) → Result A × W → Started A × W
or_exit exit_code (ok a, w) = (going a, w)
or_exit exit_code (err e, w) = (exits (exit_code e), w)

-- What the poll loop starts with.
pub record Ready (W : Type 0) : Type 0 where
  pub state : SyncState
  pub metrics : Option MetricsServer
  pub engine : Engine W
  pub interval : ℤ
  pub webhook : Option (WebhookServer W)

-- An optional server.
abbrev pub if_enabled : {W A : Type 0} → Bool → M W A → Setup W (Option A)
if_enabled enabled start = λ w.
    if enabled
    then next (or_exit (λ e. exit_runtime) (start w)) (λ a w'. (going (some a), w'))
    else (going none, w)

module _ {W : Type 0} (durations : Durations) (listen : String → M W (Unit {0})) (time_of : W → ℤ)
    (build : Config → M W (Engine W)) (watcher : ChannelWatcher W) where
  -- The set-up, with a configuration.
  unfoldable pub set_up : Bool → Config → Setup W (Ready W)
  set_up dry_run cfg = do
    metrics ← if_enabled cfg.metrics.enabled (start_metrics durations listen time_of cfg.metrics)
    engine ← λ w. or_exit report_setup_error (build cfg w)
    interval ← λ w. or_exit (λ e. exit_config) (durations.parse cfg.poll_interval, w)
    webhook ← if_enabled cfg.webhook.enabled (start_webhook durations listen watcher cfg)
    λ w. (
      going (record {
        state = mark_running (new_sync_state cfg.webhook.enabled);
        metrics = metrics;
        engine = record engine { dry_run = dry_run };
        interval = interval;
        webhook = webhook;
      }),
      w,
    )

  -- `runSync` up to its loop, of the configuration that was loaded.
  unfoldable pub start_sync : Bool → Result Config → Setup W (Ready W)
  start_sync dry_run loaded = do
    cfg ← λ w. or_exit (λ e. exit_config) (loaded, w)
    set_up dry_run cfg
