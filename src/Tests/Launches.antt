-- ===== src/Tests/Launches.antt =====
-- The set-up of `run` in cmd/calendar-bridge/main.go on the desk.
use calendar_bridge.Base.{
  ◌∷◌, ◌≤◌, ◌≡◌, refl, String, [], true, false, arith, none, some, string_eq,
}
use calendar_bridge.Base.Int.{ℤ, pos}
use calendar_bridge.Fault.{message}
use calendar_bridge.Effect.{ok, M, pure, fail}
use calendar_bridge.Config.{Config}
use calendar_bridge.Config.Defaults.{apply_defaults}
use calendar_bridge.Config.Files.{max_config_keys, count_colons, load_text}
use calendar_bridge.Config.Reload.{load_text-eq}
use calendar_bridge.Engine.Model.{Engine}
use calendar_bridge.Webhook.Manager.{ChannelWatcher}
use calendar_bridge.Daemon.Servers.{callback_url, trim_slashes}
use calendar_bridge.AtomicFile.{owner_only}
use calendar_bridge.GoogleAuth.Perms.{others_bits, insecure_mode, check_secret_perms}
use calendar_bridge.Daemon.Command.{parsed, parse_flags, sync_once, command_named, command_of}
use calendar_bridge.Daemon.Setup.{going, exits, start_sync}
use calendar_bridge.Daemon.Launch.{SetUp, start_sync-SetUp}
use calendar_bridge.Tests.Desk.{Log, desk}
use calendar_bridge.Tests.Settings.{tally, tally-laws, parse_url, pair_config, pair_is_clear}
use calendar_bridge.Tests.Pages.{explain, yaml}

callback_run : callback_url "https://cb.example.com//" ≡ "https://cb.example.com/webhook"
unfolding callback_url trim_slashes
callback_run = refl

abbrev listen : String → M Log (Unit {0})
listen addr = pure tt

abbrev clock : Log → ℤ
clock log = pos 100

abbrev build : Config → M Log (Engine Log)
build cfg = pure (desk false)

abbrev watcher : ChannelWatcher Log
watcher = record {
  watch = λ account calendar url token ttl. fail (message "no channels");
  stop = λ ch. pure tt;
}

few_colons : count_colons "two: accounts" ≤ max_config_keys
unfolding count_colons
few_colons = omega arith

loaded :
    load_text tally parse_url explain yaml "two: accounts" ≡ ok (apply_defaults tally pair_config)
loaded =
    load_text-eq tally parse_url explain yaml "two: accounts" pair_config (omega arith) few_colons
      refl pair_is_clear

start_sync-SetUp_example :
    SetUp tally listen clock build watcher (apply_defaults tally pair_config) true (
      start_sync tally listen clock build watcher true
        (load_text tally parse_url explain yaml "two: accounts")
        [])
start_sync-SetUp_example =
    start_sync-SetUp tally listen clock build watcher tally-laws parse_url explain yaml
      "two: accounts" (apply_defaults tally pair_config) true [] loaded

-- A typo before the flag does not run the command without it.
typo_run : parse_flags (parsed false ("typo" ∷ "-dry-run" ∷ [])) ≡ exits 2
unfolding parse_flags
typo_run = refl

command_run : command_of ("sync-once" ∷ "-dry-run" ∷ []) ≡ going sync_once
unfolding command_of command_named string_eq
command_run = refl

-- What the program writes with its own mode raises no warning.
own_mode_run : check_secret_perms false (some owner_only) ≡ none
unfolding check_secret_perms insecure_mode others_bits
own_mode_run = refl

shared_mode_run : check_secret_perms false (some 0o640) ≡ some 0o640
unfolding check_secret_perms insecure_mode others_bits
shared_mode_run = refl
