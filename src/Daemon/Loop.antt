-- ===== src/Daemon/Loop.antt =====
-- The poll loop of `runSync` in cmd/calendar-bridge/main.go, after the set-up.
use calendar_bridge.Base.{Bool, Option, none, some, List, [], ◌∷◌, String, if◌then◌else◌}
use calendar_bridge.Base.Int.{ℤ, pos}
use calendar_bridge.Fault.{Fault}
use calendar_bridge.Metrics.{Pass, Registry, observe}
use calendar_bridge.Engine.Model.{Engine, SyncResult}
use calendar_bridge.Engine.Pass.{sync_once}
use calendar_bridge.Daemon.State.{SyncState, duration, note_pass}

-- What ends the wait after a pass: a signal, a push notification, or the poll interval.
pub data Wake : Type 0 where
  stop push tick : Wake

-- The state of the process, the registry where the metrics are on, and the world.
pub record Process (W : Type 0) : Type 0 where
  pub state : SyncState
  pub registry : Option Registry
  pub world : W

-- The `metrics.Pass` of a result and an error.
unfoldable pub pass_of : SyncResult → Option Fault → Pass
pass_of res error = record {
  started = res.started;
  duration = duration res;
  created = pos res.created;
  updated = pos res.updated;
  deleted = pos res.deleted;
  skipped = pos res.skipped;
  healthy = res.healthy_accounts;
  failed = res.failed_accounts;
  error = error;
}

abbrev pub observed : Pass → Option Registry → Option Registry
observed p none = none
observed p (some r) = some (observe p r)

unfoldable pub after_wait : {W : Type 0} → Wake → Process W → (Process W → Process W) → Process W
after_wait stop p rest = p
after_wait push p rest = rest p
after_wait tick p rest = rest p

module _ {W : Type 0} (text : Fault → String) (now : W → ℤ) where
  unfoldable pub note_result : (SyncResult × Option Fault) × W → Process W → Process W
  note_result (r, w) p = record {
    state = note_pass text (some r.0) r.1 (now w) p.state;
    registry = observed (pass_of r.0 r.1) p.registry;
    world = w;
  }

  -- One round without the wait. The context of the pass has a deadline of its own, which is part of
  -- the world.
  unfoldable pub one_pass : Engine W → Process W → Process W
  one_pass engine p = note_result (sync_once engine p.world) p

  -- The loop, of what ends each wait; `done` is whether the context of the signals is done.
  unfoldable pub run_loop : (W → Bool) → Engine W → List Wake → Process W → Process W
  run_loop done engine [] p = p
  run_loop done engine (wake ∷ wakes) p =
      if done p.world then p else after_wait wake (one_pass engine p) (run_loop done engine wakes)
