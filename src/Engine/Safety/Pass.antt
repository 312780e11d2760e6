-- ===== src/Engine/Safety/Pass.antt =====
-- A pass (`SyncOnce`, internal/sync/sync.go) writes on the terms only.
use calendar_bridge.Base.{String, [], All, length, ltb, Bool-cases, inl, inr}
use calendar_bridge.Base.Dict
use calendar_bridge.Calendar.{GoogleEvent}
use calendar_bridge.Engine.Model.{Engine, events_of}
use calendar_bridge.Engine.Fetch.{Fetched}
use calendar_bridge.Engine.Pass.{
  time_min, time_max, started_at, fetch_all, reconcile, finish, after_fetch, sync_once,
}
use calendar_bridge.Engine.Safety.Terms.{Terms, Good}
use calendar_bridge.Engine.Safety.Fetch.{FetchedWell, fetch-FetchedWell, no_events-Good}
use calendar_bridge.Engine.Safety.Propagate.{propagate-Fine}
use calendar_bridge.Engine.Safety.Collect.{collect-Fine}

module _ {W : Type 0} (e : Engine W) (Listed : String → GoogleEvent → Type 0)
    (Mirrors : String → String → GoogleEvent → Type 0) (Q : W → Type 0) where
  nothing-Good : Good e Listed Mirrors Q []
  unfolding events_of Dict.lookup
  nothing-Good name = no_events-Good e Listed Mirrors Q name

  reconcile_keeps :
      (f : Fetched W) (w : W) → FetchedWell e Listed Mirrors Q f → Q w → Q (reconcile e f w).1
  unfolding reconcile
  reconcile_keeps f w well q =
      (collect-Fine e Listed Mirrors Q f.healthy _ f.healthy _ _ well.healthy
        (propagate-Fine e Listed Mirrors Q f.healthy f.healthy _ w well.healthy (well.good, q))).1

  after_fetch_keeps :
      (f : Fetched W) (w : W) → FetchedWell e Listed Mirrors Q f → Q w → Q (after_fetch e f w).1
  unfolding after_fetch finish
  after_fetch_keeps f w well q = elim (Bool-cases (ltb (length f.healthy) 2)) [
    | inl few ↦ rw few q
    | inr enough ↦ rw enough (reconcile_keeps f w well q)
  ]

  -- A pass keeps any invariant `Q` of the world that the calls on its accounts keep on these terms
  -- (`Terms`), so it makes no other call: it lists events and looks for blocks; it inserts only the
  -- bare tagged block of a real event (listed, not cancelled, not owned, taking time) of another
  -- account; it updates only, on the condition of its ETag, the block that mirrors such an event, as
  -- a listing, a lookup or an earlier write told, and only if its times or its title differ; it
  -- deletes only, on the condition of its ETag, a listed owned block with a complete source identity;
  -- and all writes only outside a dry run. The listings, lookups and answers are hypotheses on the
  -- clients.
  pub sync_once_keeps :
      All (Terms e Listed Mirrors Q) e.accounts → (w : W) → Q w → Q (sync_once e w).1
  unfolding sync_once fetch_all
  sync_once_keeps terms w q =
      let (well, q') =
        fetch-FetchedWell e Listed Mirrors Q (time_min (e.now w))
          (time_max (e.now w) e.lookahead_days) e.accounts
          (record { by_account = []; healthy = []; errors = []; result = started_at (e.now w) }) w
          terms (record { good = nothing-Good; healthy = tt }) q in
      after_fetch_keeps (fetch_all e w).0 (fetch_all e w).1 well q'
