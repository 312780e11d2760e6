-- ===== src/Daemon/Honest.antt =====
-- What `sync-once -json` (cmd/calendar-bridge/main.go) prints, against its exit code and the run.
use calendar_bridge.Base.{
  ℕ, ◌≡◌, refl, String, Bool, true, false, ◌⊎◌, inl, inr, Option, none, some, [], ◌∷◌, Bool-cases,
  arith,
}
use calendar_bridge.Base.Int.{ℤ}
use calendar_bridge.Fault.{
  Fault, errors_is, is_needs_auth, is_token_inaccessible, is_token_unreadable, is_canceled,
}
use calendar_bridge.Effect.{Result, ok, err, M}
use calendar_bridge.Config.{Config}
use calendar_bridge.Engine.Model.{Engine, SyncResult}
use calendar_bridge.Engine.Pass.{sync_once}
use calendar_bridge.Daemon.Exit.{report_setup_error, was_interrupted}
use calendar_bridge.Daemon.Once.{
  PassReport, End, end_with, pass_code, end_of_pass, run_engine, run_sync_once,
}

-- The error of a token, which a new authorization or access to its file would mend.
abbrev pub IsOfToken : Fault → Type 0
IsOfToken e =
    (errors_is is_needs_auth e ≡ true)
    ⊎ ((errors_is is_token_inaccessible e ≡ true) ⊎ (errors_is is_token_unreadable e ≡ true))

abbrev pub IsOfNoToken : Fault → Type 0
IsOfNoToken e =
    (errors_is is_needs_auth e ≡ false)
    × (errors_is is_token_inaccessible e ≡ false)
    × (errors_is is_token_unreadable e ≡ false)

report_setup_error-cases :
    (e : Fault)
    → (IsOfToken e × (report_setup_error e ≡ 4)) ⊎ (IsOfNoToken e × (report_setup_error e ≡ 6))
unfolding report_setup_error
report_setup_error-cases e = ground arith

-- The report says that no pass has begun.
pub record SaysNothingDone (r : PassReport) : Type 0 where
  pub nothing_created : r.created ≡ 0
  pub nothing_updated : r.updated ≡ 0
  pub nothing_deleted : r.deleted ≡ 0
  pub nothing_skipped : r.skipped ≡ 0
  pub none_healthy : r.healthy ≡ []
  pub none_failed : r.failed ≡ []

-- The report has the counts and the accounts of this result.
pub record Counts (res : SyncResult) (r : PassReport) : Type 0 where
  pub all_created : r.created ≡ res.created
  pub all_updated : r.updated ≡ res.updated
  pub all_deleted : r.deleted ≡ res.deleted
  pub all_skipped : r.skipped ≡ res.skipped
  pub all_healthy : r.healthy ≡ res.healthy_accounts
  pub all_failed : r.failed ≡ res.failed_accounts

-- What the report says of success, of an interruption and of an error.
pub record Says (succeeded stopped : Bool) (problem : String) (r : PassReport) : Type 0 where
  pub is_ok : r.ok ≡ succeeded
  pub is_interrupted : r.interrupted ≡ stopped
  pub has_error : r.error ≡ problem

module _ (text : Fault → String) (dry_run : Bool) {W : Type 0} (signaled : W → Bool)
    (build : Config → M W (Engine W)) (loaded : Result Config) (w : W) where
  -- An engine was built, and its pass came to this result, error and world.
  pub record Passed (res : SyncResult) (error : Option Fault) (after : W) : Type 0 where
    pub cfg : Config
    pub engine : Engine W
    pub before : W
    pub loads : loaded ≡ ok cfg
    pub builds : build cfg w ≡ (ok engine, before)
    pub passes : sync_once (record engine { dry_run = dry_run }) before ≡ ((res, error), after)

  -- The engine could not be built, with this error.
  pub record Unbuilt (e : Fault) : Type 0 where
    pub cfg : Config
    pub after : W
    pub loads : loaded ≡ ok cfg
    pub fails : build cfg w ≡ (err e, after)

  -- The report and the exit code that this run has to end with.
  pub data Ends (r : PassReport) : ℕ → Type 0 where
    unloaded :
        (e : Fault) → loaded ≡ err e → Says false false (text e) r → SaysNothingDone r → Ends r 3
    unauthorized :
        (e : Fault)
        → Unbuilt e
        → IsOfToken e
        → Says false false (text e) r
        → SaysNothingDone r
        → Ends r 4
    unbuilt :
        (e : Fault)
        → Unbuilt e
        → IsOfNoToken e
        → Says false false (text e) r
        → SaysNothingDone r
        → Ends r 6
    clean :
        (res : SyncResult) (after : W)
        → Passed res none after
        → Says true false "" r
        → Counts res r
        → Ends r 0
    interrupted :
        (res : SyncResult) (e : Fault) (after : W)
        → Passed res (some e) after
        → signaled after ≡ true
        → errors_is is_canceled e ≡ true
        → Says true true "" r
        → Counts res r
        → Ends r 0
    failed :
        (res : SyncResult) (e : Fault) (after : W)
        → Passed res (some e) after
        → (signaled after ≡ false) ⊎ (errors_is is_canceled e ≡ false)
        → Says false false (text e) r
        → Counts res r
        → Ends r 5

  -- The one report on stdout.
  abbrev pub Reports : End → Type 0
  Reports e = (r : PassReport) × (e.reports ≡ r ∷ []) × (r.dry_run ≡ dry_run) × Ends r e.code

  was_interrupted-none : (s : Bool) → was_interrupted none s ≡ false
  unfolding was_interrupted
  was_interrupted-none s = refl

  was_interrupted-cases :
      (e : Fault) (s : Bool)
      → ((was_interrupted (some e) s ≡ true) × (s ≡ true) × (errors_is is_canceled e ≡ true))
        ⊎ ((was_interrupted (some e) s ≡ false) × ((s ≡ false) ⊎ (errors_is is_canceled e ≡ false)))
  unfolding was_interrupted
  was_interrupted-cases e false = inr (refl, inl refl)
  was_interrupted-cases e true = elim (Bool-cases (errors_is is_canceled e)) [
    | inl canceled ↦ inl (canceled, refl, canceled)
    | inr other ↦ inr (other, inr other)
  ]

  module _ (writable : PassReport → Bool) (writes : (r : PassReport) → writable r ≡ true) where
    end_with-Reports :
        (r : PassReport) (code : ℕ)
        → r.dry_run ≡ dry_run
        → Ends r code
        → Reports (end_with text writable true dry_run r code)
    unfolding end_with
    end_with-Reports r code same ends = rw (writes r) (r, refl, same, ends)

    end_of_pass-Reports :
        (res : SyncResult) (error : Option Fault) (after : W)
        → Passed res error after
        → Reports (end_of_pass text writable true dry_run res error (signaled after))
    unfolding end_of_pass pass_code
    end_of_pass-Reports res none after passed = rw (was_interrupted-none (signaled after)) (
        end_with-Reports _ _ refl (
          clean res after passed (record { is_ok = refl; is_interrupted = refl; has_error = refl })
            (record {
              all_created = refl;
              all_updated = refl;
              all_deleted = refl;
              all_skipped = refl;
              all_healthy = refl;
              all_failed = refl;
            })))
    end_of_pass-Reports res (some e) after passed =
        elim (was_interrupted-cases e (signaled after)) [
          | inl (h, done, canceled) ↦ rw h (
              end_with-Reports _ _ refl (
                interrupted res e after passed done canceled
                  (record { is_ok = refl; is_interrupted = refl; has_error = refl })
                  (record {
                    all_created = refl;
                    all_updated = refl;
                    all_deleted = refl;
                    all_skipped = refl;
                    all_healthy = refl;
                    all_failed = refl;
                  })))
          | inr (h, why) ↦ rw h (
              end_with-Reports _ _ refl (
                failed res e after passed why
                  (record { is_ok = refl; is_interrupted = refl; has_error = refl })
                  (record {
                    all_created = refl;
                    all_updated = refl;
                    all_deleted = refl;
                    all_skipped = refl;
                    all_healthy = refl;
                    all_failed = refl;
                  })))
        ]

    module _ (now : W → ℤ) where
      unbuilt_ends :
          (e : Fault) (r : PassReport)
          → Unbuilt e
          → Says false false (text e) r
          → SaysNothingDone r
          → Ends r (report_setup_error e)
      unbuilt_ends e r fails says idle = elim (report_setup_error-cases e) [
        | inl (token, code) ↦ rw code (unauthorized e fails token says idle)
        | inr (other, code) ↦ rw code (unbuilt e fails other says idle)
      ]

      run_engine-Reports :
          (cfg : Config) (made : Result (Engine W) × W)
          → loaded ≡ ok cfg
          → build cfg w ≡ made
          → Reports (run_engine text writable true dry_run now signaled build made).0
      unfolding run_engine
      run_engine-Reports cfg (err e, after) loads fails = end_with-Reports _ _ refl (
          unbuilt_ends e _ (record { cfg = cfg; after = after; loads = loads; fails = fails })
            (record { is_ok = refl; is_interrupted = refl; has_error = refl })
            (record {
              nothing_created = refl;
              nothing_updated = refl;
              nothing_deleted = refl;
              nothing_skipped = refl;
              none_healthy = refl;
              none_failed = refl;
            }))
      run_engine-Reports cfg (ok engine, before) loads builds = end_of_pass-Reports _ _ _ (record {
        cfg = cfg;
        engine = engine;
        before = before;
        loads = loads;
        builds = builds;
        passes = refl;
      })

      loaded_Reports :
          (l : Result Config)
          → loaded ≡ l
          → Reports (run_sync_once text writable true dry_run now signaled build l w).0
      unfolding run_sync_once
      loaded_Reports (err e) loads = end_with-Reports _ _ refl (
          unloaded e loads (record { is_ok = refl; is_interrupted = refl; has_error = refl })
            (record {
              nothing_created = refl;
              nothing_updated = refl;
              nothing_deleted = refl;
              nothing_skipped = refl;
              none_healthy = refl;
              none_failed = refl;
            }))
      loaded_Reports (ok cfg) loads = run_engine-Reports cfg (build cfg w) loads refl

      -- If stdout takes the report, `sync-once -json` prints exactly one. With code 3 it has the error of
      -- loading the configuration, and with code 4 or 6 that of building the engine, 4 if it is an error
      -- of a token; it then says not ok and no counts. Otherwise it has the counts and accounts of the
      -- pass: with code 0 it says ok, and interrupted just if the pass failed as canceled after a
      -- signal; with code 5 it says not ok and has the error with which the pass failed.
      pub run_sync_once-Reports :
          Reports (run_sync_once text writable true dry_run now signaled build loaded w).0
      run_sync_once-Reports = loaded_Reports loaded refl
