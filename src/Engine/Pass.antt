-- ===== src/Engine/Pass.antt =====
-- `SyncOnce` of internal/sync/sync.go: one pass.
use calendar_bridge.Base.{Option, none, some, List, [], ◌∷◌, ◌++◌, length, ltb, if◌then◌else◌}
use calendar_bridge.Base.Int.{ℤ, pos, ◌+ℤ◌, ◌-ℤ◌, ◌*ℤ◌, wrap_i64}
use calendar_bridge.Fault.{Fault, joined, too_few_healthy}
use calendar_bridge.Engine.Model.{Engine, SyncResult}
use calendar_bridge.Engine.Fetch.{Fetched, fetch}
use calendar_bridge.Engine.Propagate.{Progress, propagate}
use calendar_bridge.Engine.Collect.{live_source_ids, collect}

-- 24 hours, in nanoseconds.
abbrev pub day : ℤ
day = pos 86_400_000_000_000

unfoldable pub join_from : Fault → List Fault → Fault
join_from e [] = e
join_from e (f ∷ es) = joined e (join_from f es)

-- `errors.Join`: nil if there is no error.
unfoldable pub join : List Fault → Option Fault
unfolding join_from
join [] = none
join (e ∷ es) = some (join_from e es)

unfoldable pub time_min : ℤ → ℤ
time_min now = now -ℤ day

-- `time.Duration` is an int64 and wraps.
unfoldable pub time_max : ℤ → ℤ → ℤ
time_max now lookahead_days = now +ℤ wrap_i64 (lookahead_days *ℤ day)

-- `Result{Started: started}`
abbrev pub started_at : ℤ → SyncResult
started_at started = record {
  started = started;
  finished = pos 0;
  created = 0;
  updated = 0;
  deleted = 0;
  skipped = 0;
  healthy_accounts = [];
  failed_accounts = [];
}

module _ {W : Type 0} (e : Engine W) where
  -- Step 1.
  unfoldable pub fetch_all : W → Fetched W × W
  fetch_all w =
      let now = e.now w in
      fetch (time_min now) (time_max now e.lookahead_days) e.accounts
        (record { by_account = []; healthy = []; errors = []; result = started_at now }) w

  -- Steps 2 and 3.
  unfoldable pub reconcile : Fetched W → W → Progress × W
  reconcile f w =
      let (s, w') =
        propagate e f.healthy f.healthy
          (record { by_account = f.by_account; errors = []; result = f.result }) w in
      collect e f.healthy (live_source_ids f.healthy s.by_account) f.healthy s w'

  -- The deferred read of the clock.
  unfoldable pub finish : SyncResult → Option Fault → W → (SyncResult × Option Fault) × W
  finish r error w = ((record r { finished = e.now w }, error), w)

  unfoldable pub after_fetch : Fetched W → W → (SyncResult × Option Fault) × W
  after_fetch f w =
      if ltb (length f.healthy) 2
      then finish f.result (join (f.errors ++ (too_few_healthy (length f.healthy) ∷ []))) w
      else (let (s, w') = reconcile f w in finish s.result (join (f.errors ++ s.errors)) w')

  unfoldable pub sync_once : W → (SyncResult × Option Fault) × W
  sync_once w = let (f, w') = fetch_all w in after_fetch f w'
