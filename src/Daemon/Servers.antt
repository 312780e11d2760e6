-- ===== src/Daemon/Servers.antt =====
-- `startMetrics` and `startWebhook` of cmd/calendar-bridge/main.go. A server is what its handler needs;
-- that it is served, and shut down with the context, is left out.
use Prim.Native.Char.{Char, code}
use calendar_bridge.Base.{String, ◌<>◌, List, map, eqb, ◌==◌, string_eq, if◌then◌else◌}
use calendar_bridge.Base.Int.{ℤ, pos}
use calendar_bridge.Effect.{Result, ok, M, ◌>>=◌, ◌>>◌, pure}
use calendar_bridge.Config.{AccountConfig, MetricsConfig, Config}
use calendar_bridge.Config.Defaults.{Durations}
use calendar_bridge.GoogleAuth.Client.{explained_result}
use calendar_bridge.Metrics.{Registry, new_registry}
use calendar_bridge.Webhook.Manager.{Target, ChannelWatcher, Manager, new_manager}
use calendar_bridge.Webhook.Debouncer.{Debouncer, new_debouncer}

pub record MetricsServer : Type 0 where
  pub registry : Registry
  pub ready_max_age : ℤ

pub record WebhookServer (W : Type 0) : Type 0 where
  pub debouncer : Debouncer
  -- The token of the receiver.
  pub token : String
  pub manager : Manager W
  pub targets : List Target

-- `strings.TrimRight(text, "/")`
abbrev before_slash : Char → String → String
before_slash c String.[] = if eqb (code c) b'/' then "" else String.◌∷◌ c ""
before_slash c (String.◌∷◌ d s) = String.◌∷◌ c (String.◌∷◌ d s)

unfoldable pub trim_slashes : String → String
trim_slashes String.[] = ""
trim_slashes (String.◌∷◌ c s) = before_slash c (trim_slashes s)

unfoldable pub callback_url : String → String
callback_url public_url = trim_slashes public_url <> "/webhook"

abbrev pub target_of : AccountConfig → Target
target_of a = record { account = a.name; calendar_id = a.calendar_id }

abbrev given : {W A : Type 0} → Result A → M W A
given r = λ w. (r, w)

-- A duration that may be left empty.
unfoldable pub duration_or_zero : Durations → String → String → Result ℤ
duration_or_zero durations what text =
    if text == "" then ok (pos 0) else explained_result ("invalid " <> what) (durations.parse text)

-- `listen` binds an address.
module _ {W : Type 0} (durations : Durations) (listen : String → M W (Unit {0})) where
  unfoldable pub bind : String → String → M W (Unit {0})
  bind what addr = λ w.
      let (r, w') = listen addr w in
      (explained_result ("binding " <> what <> " listener on " <> addr) r, w')

  -- `startMetrics`
  unfoldable pub start_metrics : (W → ℤ) → MetricsConfig → M W MetricsServer
  start_metrics time_of m = do
    age ← given (duration_or_zero durations "metrics.ready_max_age" m.ready_max_age)
    registry ← λ w. (ok (new_registry (time_of w)), w)
    bind "metrics" m.listen_addr
    pure (record { registry = registry; ready_max_age = age })

  -- `startWebhook`
  unfoldable pub start_webhook : ChannelWatcher W → Config → M W (WebhookServer W)
  start_webhook watcher cfg = do
    interval ← given (
        explained_result "invalid webhook.debounce_interval"
          (durations.parse cfg.webhook.debounce_interval))
    ttl ← given (duration_or_zero durations "webhook.channel_ttl" cfg.webhook.channel_ttl)
    bind "webhook" cfg.webhook.listen_addr
    pure (record {
      debouncer = new_debouncer interval;
      token = cfg.webhook.verification_token;
      manager =
          new_manager watcher (callback_url cfg.webhook.public_url) cfg.webhook.verification_token
            ttl;
      targets = map target_of cfg.accounts;
    })
