-- ===== src/Tests/Processes.antt =====
-- `sync-once` and the poll loop of cmd/calendar-bridge on the desk.
use calendar_bridge.Base.{◌≡◌, refl, String, true, false, some, [], ◌∷◌, Bool, string_eq}
use calendar_bridge.Base.Int.{ℤ, pos, ◌-ℤ◌}
use calendar_bridge.Fault.{Fault, canceled, wrapped, errors_is, needs_auth}
use calendar_bridge.Effect.{ok, M, pure}
use calendar_bridge.Config.{Config}
use calendar_bridge.Metrics.Ready.{ready_since}
use calendar_bridge.Engine.Model.{Engine}
use calendar_bridge.Base.Text.{has_suffix}
use calendar_bridge.Daemon.Version.{Build, with_version, note_setting, note_settings, build_info}
use calendar_bridge.Daemon.Exit.{was_interrupted, report_setup_error}
use calendar_bridge.Daemon.Once.{run_sync_once}
use calendar_bridge.Daemon.Honest.{Reports, run_sync_once-Reports}
use calendar_bridge.Daemon.Loop.{stop, push, tick, run_loop}
use calendar_bridge.Daemon.Accounts.{Passes, Ran, Told, begin, run_loop-Told}
use calendar_bridge.Tests.Desk.{Log, desk}
use calendar_bridge.Tests.Settings.{pair_config}

abbrev text : Fault → String
text e = "failed"

abbrev clock : Log → ℤ
clock log = pos 100

abbrev never : Log → Bool
never log = false

unauthorized_run : report_setup_error (wrapped "account home" needs_auth) ≡ 4
unfolding report_setup_error errors_is
unauthorized_run = refl

interrupted_run : was_interrupted (some (wrapped "listing" canceled)) true ≡ true
unfolding was_interrupted errors_is
interrupted_run = refl

timeout_run : was_interrupted (some (wrapped "listing" canceled)) false ≡ false
unfolding was_interrupted errors_is
timeout_run = refl

-- Ready a minute after a success, and not ready an hour after it.
fresh_run : ready_since (pos 900) (pos 160) (some (pos 100)) ≡ (200, "ok")
unfolding ready_since ◌-ℤ◌
fresh_run = refl

abbrev build : Config → M Log (Engine Log)
build cfg = pure (desk false)

run_sync_once-Reports_example :
    Reports text true never build
      (ok pair_config)
      []
      (run_sync_once text (λ r. true) true true clock never build (ok pair_config) []).0
run_sync_once-Reports_example =
    run_sync_once-Reports text true never build (ok pair_config) [] (λ r. true) (λ r. refl) clock

run_loop-Told_example :
    (passes : Passes) × Ran never
      (desk false)
      []
      passes
      (run_loop text clock never
        (desk false)
        (tick ∷ push ∷ stop ∷ [])
        (begin true (some (pos 1)) [])).world
    × Told text
        (λ t. "time")
        3
        (pos 900)
        (pos 160)
        passes
        (run_loop text clock never
          (desk false)
          (tick ∷ push ∷ stop ∷ [])
          (begin true (some (pos 1)) []))
run_loop-Told_example =
    run_loop-Told text clock never (desk false) (λ t. "time") 3 (pos 900) (pos 160) true
      (some (pos 1)) [] (tick ∷ push ∷ stop ∷ [])

abbrev built : Build
built = record { version = "dev"; commit = ""; date = "" }

-- A modified tree is marked once.
dirty_run :
    build_info
      (some (record {
        main_version = "v1.2.0+dirty";
        settings = ("vcs.revision", "abc") ∷ ("vcs.modified", "true") ∷ [];
      }))
      built
    ≡ record { version = "v1.2.0+dirty"; commit = "abc"; date = "" }
unfolding build_info note_settings note_setting with_version has_suffix string_eq
dirty_run = refl
