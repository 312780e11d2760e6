-- ===== src/Daemon/Ui.antt =====
-- `runUI` of cmd/calendar-bridge/main.go, once the flags are read: the functions that it hands to the
-- server, and its exit codes.
use calendar_bridge.Base.{ℕ, String, false, not, Option, none, some, [], length, if◌then◌else◌}
use calendar_bridge.Base.Int.{ℤ, pos}
use calendar_bridge.Fault.{Fault, wrapped}
use calendar_bridge.Effect.{Result, ok, err, M}
use calendar_bridge.Config.{Config}
use calendar_bridge.Engine.Model.{Engine, SyncResult}
use calendar_bridge.Engine.Pass.{sync_once}
use calendar_bridge.WebUi.Http.{Status}
use calendar_bridge.Daemon.Exit.{exit_ok, exit_config, exit_runtime}
use calendar_bridge.Daemon.State.{SyncState, note_pass, status}

-- The state of the process and the world.
pub record Desk (W : Type 0) : Type 0 where
  pub state : SyncState
  pub world : W

-- The status where the configuration cannot be loaded.
abbrev pub unknown_status : Status
unknown_status = record {
  running = false;
  last_sync = "";
  last_attempt = "";
  last_duration_ms = pos 0;
  last_error = "config load failed (check -config path and file contents)";
  accounts_num = 0;
  accounts = [];
  created = 0;
  updated = 0;
  deleted = 0;
  skipped = 0;
  push_enabled = false;
}

-- `load` is `config.Load` on the path of the configuration, `text` the text of an error, `format` that of
-- a time, and `now` the clock. The context of a pass has a deadline of its own, which is part of the world.
module _ {W : Type 0} (text : Fault → String) (format : ℤ → String) (now : W → ℤ)
    (load : M W Config) (build : Config → M W (Engine W)) where
  unfoldable pub after_sync : SyncState → (SyncResult × Option Fault) × W → Option Fault × Desk W
  after_sync s (r, w) = (r.1, record { state = note_pass text (some r.0) r.1 (now w) s; world = w })

  unfoldable pub sync_built : SyncState → Result (Engine W) × W → Option Fault × Desk W
  sync_built s (err e, w) = (
    some (wrapped "setting up sync" e),
    record { state = note_pass text none (some e) (now w) s; world = w },
  )
  sync_built s (ok engine, w) = after_sync s (sync_once engine w)

  unfoldable pub sync_loaded : SyncState → Result Config × W → Option Fault × Desk W
  sync_loaded s (err e, w) = (some (wrapped "reloading config" e), record { state = s; world = w })
  sync_loaded s (ok cfg, w) = sync_built s (build cfg w)

  -- `syncNow`
  unfoldable pub sync_now : Desk W → Option Fault × Desk W
  sync_now d = sync_loaded d.state (load d.world)

  unfoldable pub status_loaded : SyncState → Result Config × W → Status × Desk W
  status_loaded s (err e, w) = (unknown_status, record { state = s; world = w })
  status_loaded s (ok cfg, w) =
      (status format (length cfg.accounts) s, record { state = s; world = w })

  -- `statusFn`
  unfoldable pub status_fn : Desk W → Status × Desk W
  status_fn d = status_loaded d.state (load d.world)

-- What serving ends with; the end of a shut-down server is no error.
abbrev serve_code : Option Fault → ℕ
serve_code none = exit_ok
serve_code (some e) = exit_runtime

-- The exit code of `runUI`, of the configuration that was loaded, of `webui.New`, and of serving.
module _ {S : Type 0} (new_server : Config → Result S) (serve : S → Option Fault) where
  unfoldable pub ui_built : Result S → ℕ
  ui_built (err e) = exit_config
  ui_built (ok server) = serve_code (serve server)

  unfoldable pub ui_code : Result Config → ℕ
  ui_code (err e) = exit_config
  ui_code (ok cfg) = if not cfg.web_ui.enabled then exit_config else ui_built (new_server cfg)
