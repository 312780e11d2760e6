-- ===== src/Daemon/Exit.antt =====
-- The exit codes of cmd/calendar-bridge/main.go, `reportSetupError` and `wasInterrupted`.
use calendar_bridge.Base.{ℕ, Bool, false, Option, none, some, ◌&&◌, if◌then◌else◌}
use calendar_bridge.Fault.{
  Fault, errors_is, is_needs_auth, is_token_inaccessible, is_token_unreadable, is_canceled,
}

abbrev pub exit_ok : ℕ
exit_ok = 0

abbrev pub exit_usage : ℕ
exit_usage = 2

abbrev pub exit_config : ℕ
exit_config = 3

abbrev pub exit_auth : ℕ
exit_auth = 4

abbrev pub exit_sync_failure : ℕ
exit_sync_failure = 5

abbrev pub exit_runtime : ℕ
exit_runtime = 6

-- `reportSetupError`
unfoldable pub report_setup_error : Fault → ℕ
report_setup_error e =
    if errors_is is_needs_auth e
    then exit_auth
    else if errors_is is_token_inaccessible e
    then exit_auth
    else if errors_is is_token_unreadable e
    then exit_auth
    else exit_runtime

-- `wasInterrupted`, of the error of the pass and whether the context of the signals is done.
unfoldable pub was_interrupted : Option Fault → Bool → Bool
was_interrupted none signaled = false
was_interrupted (some e) signaled = signaled && errors_is is_canceled e
