-- ===== src/WebUi/Handlers.antt =====
-- The handlers of internal/webui/handlers.go.
use Prim.Native.String
use calendar_bridge.Base.{
  ℕ, String, ◌<>◌, Bool, true, false, not, ◌&&◌, Option, none, some, [], ltb, ◌==◌, string_eq,
  if◌then◌else◌,
}
use calendar_bridge.Base.Int.{pos}
use calendar_bridge.Base.Dict.{Dict}
use calendar_bridge.Fault.{Fault}
use calendar_bridge.Effect.{Result, ok, err}
use calendar_bridge.Disk.{Machine, Outcome, returned, died}
use calendar_bridge.AtomicFile.{Paths}
use calendar_bridge.Config.{Config, WebUiConfig, WebhookConfig}
use calendar_bridge.Config.Defaults.{Durations}
use calendar_bridge.Config.Validate.{Url, Problem}
use calendar_bridge.Config.Files.{Yaml, load, save}
use calendar_bridge.WebUi.Http.{
  Status, status_text, config_json, status_json, World, Reply, crashed, Handler, write_json,
  write_error,
}

-- The packages that the handlers call on configurations.
pub record Packages : Type 0 where
  pub durations : Durations
  pub parse_url : String → Result Url
  pub explain : Problem → Fault
  pub yaml : Yaml
  pub paths : Paths
  -- `Decode` of package json with `DisallowUnknownFields`: the first value and what follows it.
  pub decode : String → Option (Config × String)
  -- Nothing follows, so that `Decode` reports io.EOF.
  pub is_ended : String → Bool
  -- The text of an error.
  pub error_text : Fault → String

-- What is read of `Server`.
pub record Server (W : Type 0) : Type 0 where
  pub config_path : String
  pub auth_token : String
  pub sync_fn : Option (World W → Outcome (Unit {0}) × World W)
  pub status : Option (World W → Status × World W)

unfoldable pub redacted : Config → Config
redacted cfg = record cfg {
  web_ui = record (cfg.web_ui) { auth_token = "" };
  webhook = record (cfg.webhook) { verification_token = "" };
}

-- `incoming.Webhook == (config.Webhook{})`
unfoldable pub is_no_webhook : WebhookConfig → Bool
is_no_webhook h =
    not h.enabled
    && h.public_url == ""
    && h.listen_addr == ""
    && h.verification_token == ""
    && h.channel_ttl == ""
    && h.debounce_interval == ""

abbrev pub or_existing : String → String → String
or_existing incoming existing = if incoming == "" then existing else incoming

-- What `handlePutConfig` carries forward of the configuration that is there.
unfoldable pub merged_web_ui : WebUiConfig → WebUiConfig → WebUiConfig
merged_web_ui existing incoming = record {
  enabled = if not incoming.enabled then existing.enabled else incoming.enabled;
  listen_addr = or_existing incoming.listen_addr existing.listen_addr;
  auth_token = or_existing incoming.auth_token existing.auth_token;
}

unfoldable pub merged : Config → Config → Config
merged existing incoming = record incoming {
  web_ui = merged_web_ui existing.web_ui incoming.web_ui;
  webhook = if is_no_webhook incoming.webhook then existing.webhook else incoming.webhook;
}

-- 1 MiB
abbrev pub max_body : ℕ
max_body = 1_048_576

module _ {W : Type 0} (p : Packages) (s : Server W) where
  unfoldable pub answer_config : Dict String → World W → Outcome Config × Machine → Reply × World W
  answer_config headers w (returned (ok cfg), m) =
      write_json 200 (config_json (redacted cfg)) headers (record w { machine = m })
  answer_config headers w (returned (err e), m) =
      write_error 500 "could not load the configuration file" headers (record w { machine = m })
  answer_config headers w (died, m) = (crashed, record w { machine = m })

  -- `handleGetConfig`
  unfoldable pub handle_get_config : Handler W
  handle_get_config req headers w =
      answer_config headers w
        (load p.durations p.parse_url p.explain p.yaml s.config_path w.machine)

  unfoldable pub answer_saved :
      Dict String → World W → Outcome (Unit {0}) × Machine → Reply × World W
  answer_saved headers w (returned (ok _), m) =
      write_json 200 (status_text "saved") headers (record w { machine = m })
  answer_saved headers w (returned (err e), m) =
      write_error 400 (p.error_text e) headers (record w { machine = m })
  answer_saved headers w (died, m) = (crashed, record w { machine = m })

  unfoldable pub put_loaded :
      Config → Dict String → World W → Outcome Config × Machine → Reply × World W
  put_loaded incoming headers w (returned (ok existing), m) = answer_saved headers w (
      save p.durations p.parse_url p.explain p.yaml p.paths s.config_path (merged existing incoming)
        m)
  put_loaded incoming headers w (returned (err e), m) =
      write_error 500 "cannot load current config to merge server settings" headers
        (record w { machine = m })
  put_loaded incoming headers w (died, m) = (crashed, record w { machine = m })

  unfoldable pub put_decoded : Option (Config × String) → Dict String → World W → Reply × World W
  put_decoded none headers w = write_error 400 "invalid JSON" headers w
  put_decoded (some (incoming, rest)) headers w =
      if not (p.is_ended rest)
      then write_error 400 "invalid JSON: unexpected trailing data after the config object" headers
          w
      else put_loaded incoming headers w
          (load p.durations p.parse_url p.explain p.yaml s.config_path w.machine)

  -- `handlePutConfig`. A body over the limit fails the one or the other `Decode`.
  unfoldable pub handle_put_config : Handler W
  handle_put_config req headers w =
      if ltb max_body (String.len req.body)
      then write_error 400 "invalid JSON" headers w
      else put_decoded (p.decode req.body) headers w

  -- `Status{}`
  abbrev no_status : Status
  no_status = record {
    running = false;
    last_sync = "";
    last_attempt = "";
    last_duration_ms = pos 0;
    last_error = "";
    accounts_num = 0;
    accounts = [];
    created = 0;
    updated = 0;
    deleted = 0;
    skipped = 0;
    push_enabled = false;
  }

  unfoldable pub answer_status :
      Option (World W → Status × World W) → Dict String → World W → Reply × World W
  answer_status none headers w = write_json 200 (status_json no_status) headers w
  answer_status (some status) headers w =
      let (st, w') = status w in write_json 200 (status_json st) headers w'

  -- `handleGetStatus`
  unfoldable pub handle_get_status : Handler W
  handle_get_status req headers w = answer_status s.status headers w

  -- The deferred `Unlock`, and the answer.
  unfoldable pub answer_sync : Dict String → Outcome (Unit {0}) × World W → Reply × World W
  answer_sync headers (returned (ok _), w) =
      write_json 200 (status_text "sync complete") headers (record w { syncing = false })
  answer_sync headers (returned (err e), w) =
      write_error 500 ("sync failed: " <> p.error_text e) headers (record w { syncing = false })
  answer_sync headers (died, w) = (crashed, w)

  unfoldable pub start_sync :
      Option (World W → Outcome (Unit {0}) × World W) → Dict String → World W → Reply × World W
  start_sync none headers w = write_error 503 "sync not available in this mode" headers w
  start_sync (some sync) headers w =
      if w.syncing
      then write_error 409 "a sync is already running" headers w
      else answer_sync headers (sync (record w { syncing = true }))

  -- `handleSync`, whose `TryLock` fails where the lock is held.
  unfoldable pub handle_sync : Handler W
  handle_sync req headers w = start_sync s.sync_fn headers w
