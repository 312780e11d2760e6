-- ===== src/Daemon/Once.antt =====
-- `runSyncOnce` and `emitFailureReport` of cmd/calendar-bridge/main.go, once the flags are read. The
-- result is the exit code and what stands on stdout where `-json` is given; what is written to
-- stderr and the log is left out.
use calendar_bridge.Base.{
  ℕ, String, Bool, true, false, not, ◌||◌, Option, none, some, List, [], ◌∷◌, if◌then◌else◌,
}
use calendar_bridge.Base.Int.{ℤ, pos}
use calendar_bridge.Fault.{Fault}
use calendar_bridge.Effect.{Result, ok, err, M}
use calendar_bridge.Config.{Config}
use calendar_bridge.Engine.Model.{Engine, SyncResult}
use calendar_bridge.Engine.Pass.{sync_once}
use calendar_bridge.Daemon.Exit.{
  exit_ok, exit_config, exit_sync_failure, exit_runtime, report_setup_error, was_interrupted,
}
use calendar_bridge.Daemon.State.{duration}

-- `passReport`, with times and durations as numbers.
pub record PassReport : Type 0 where
  pub dry_run : Bool
  pub ok : Bool
  pub interrupted : Bool
  pub error : String
  pub started_at : ℤ
  pub duration : ℤ
  pub created : ℕ
  pub updated : ℕ
  pub deleted : ℕ
  pub skipped : ℕ
  pub healthy : List String
  pub failed : List String

-- The end of the process: its exit code and the reports on stdout.
pub record End : Type 0 where
  pub code : ℕ
  pub reports : List PassReport

-- The text of an error.
module _ (text : Fault → String) (writable : PassReport → Bool) (as_json dry_run : Bool) where
  abbrev pub failure_report : Fault → ℤ → PassReport
  failure_report e now = record {
    dry_run = dry_run;
    ok = false;
    interrupted = false;
    error = text e;
    started_at = now;
    duration = pos 0;
    created = 0;
    updated = 0;
    deleted = 0;
    skipped = 0;
    healthy = [];
    failed = [];
  }

  abbrev shown_error : Option Fault → Bool → String
  shown_error none interrupted = ""
  shown_error (some e) interrupted = if interrupted then "" else text e

  abbrev is_nil : Option Fault → Bool
  is_nil none = true
  is_nil (some e) = false

  abbrev pub pass_report : SyncResult → Option Fault → Bool → PassReport
  pass_report res error interrupted = record {
    dry_run = dry_run;
    ok = is_nil error || interrupted;
    interrupted = interrupted;
    error = shown_error error interrupted;
    started_at = res.started;
    duration = duration res;
    created = res.created;
    updated = res.updated;
    deleted = res.deleted;
    skipped = res.skipped;
    healthy = res.healthy_accounts;
    failed = res.failed_accounts;
  }

  -- `writeJSONReport`, which exits where stdout fails, and what comes after it.
  unfoldable pub end_with : PassReport → ℕ → End
  end_with report code =
      if not as_json
      then record { code = code; reports = [] }
      else if writable report
      then record { code = code; reports = report ∷ [] }
      else record { code = exit_runtime; reports = [] }

  -- The exit code after the pass.
  unfoldable pub pass_code : Option Fault → Bool → ℕ
  pass_code none interrupted = exit_ok
  pass_code (some e) interrupted = if interrupted then exit_ok else exit_sync_failure

  unfoldable pub end_of_pass : SyncResult → Option Fault → Bool → End
  end_of_pass res error signaled =
      let interrupted = was_interrupted error signaled in
      end_with (pass_report res error interrupted) (pass_code error interrupted)

  -- `signaled` is whether the context of the signals is done, `build` is `buildEngine`, and `now` the
  -- clock.
  module _ {W : Type 0} (now : W → ℤ) (signaled : W → Bool) (build : Config → M W (Engine W)) where
    unfoldable pub run_engine : Result (Engine W) × W → End × W
    run_engine (err e, w) = (end_with (failure_report e (now w)) (report_setup_error e), w)
    run_engine (ok engine, w) =
        let (r, w') = sync_once (record engine { dry_run = dry_run }) w in
        (end_of_pass r.0 r.1 (signaled w'), w')

    -- `runSyncOnce`, of the configuration that was loaded.
    unfoldable pub run_sync_once : Result Config → W → End × W
    run_sync_once (err e) w = (end_with (failure_report e (now w)) exit_config, w)
    run_sync_once (ok cfg) w = run_engine (build cfg w)
