-- ===== src/Engine/Collect.antt =====
-- Step 3 of `SyncOnce`, internal/sync/sync.go: the garbage collection of blocks whose source is gone.
use calendar_bridge.Base.{
  ◌+◌, String, ◌<>◌, Bool, true, false, not, List, [], ◌∷◌, ◌++◌, map, ◌==◌, contains, string_eq,
  if◌then◌else◌,
}
use calendar_bridge.Base.Dict.{Dict}
use calendar_bridge.Fault.{wrapped}
use calendar_bridge.Effect.{Result, ok, err}
use calendar_bridge.Calendar.{GoogleEvent, source_identity, index_key}
use calendar_bridge.Engine.Model.{Account, Engine, AccountEvents, events_of}
use calendar_bridge.Engine.Propagate.{Progress}

module _ {W : Type 0} where
  unfoldable pub account_is_healthy : List (Account W) → String → Bool
  account_is_healthy [] name = false
  account_is_healthy (a ∷ healthy) name =
      if a.name == name then true else account_is_healthy healthy name

  -- The keys of `liveSourceIDs`.
  unfoldable pub live_source_ids : List (Account W) → Dict AccountEvents → List String
  live_source_ids [] by_account = []
  live_source_ids (src ∷ healthy) by_account =
      map (λ (ev : GoogleEvent). index_key src.name ev.id) (events_of src.name by_account).real
      ++ live_source_ids healthy by_account

  unfoldable pub note_deletion : Account W → GoogleEvent → Progress → Result (Unit {0}) → Progress
  note_deletion dst block s (ok _) = record s {
    result = record (s.result) { deleted = s.result.deleted + 1 };
  }
  note_deletion dst block s (err e) = record s {
    errors =
        s.errors ++ (wrapped ("deleting stale block " <> block.id <> " on " <> dst.name) e ∷ []);
  }

module _ {W : Type 0} (e : Engine W) (healthy : List (Account W)) (live : List String) where
  unfoldable pub collect_block : Account W → GoogleEvent → Progress → W → Progress × W
  collect_block dst block s w =
      let i = source_identity block in
      if not i.complete
      then (s, w)
      else if not (account_is_healthy healthy i.account)
      then (s, w)
      else if contains live (index_key i.account i.event_id)
      then (s, w)
      else if e.dry_run
      then (record s { result = record (s.result) { deleted = s.result.deleted + 1 } }, w)
      else (let (r, w') = dst.client.delete_event dst.calendar_id block.id block.etag w in
          (note_deletion dst block s r, w'))

  -- The loop over the blocks of a destination.
  unfoldable pub collect_blocks : Account W → List GoogleEvent → Progress → W → Progress × W
  collect_blocks dst [] s w = (s, w)
  collect_blocks dst (block ∷ blocks) s w =
      let (s', w') = collect_block dst block s w in collect_blocks dst blocks s' w'

  -- The loop over the destinations.
  unfoldable pub collect : List (Account W) → Progress → W → Progress × W
  collect [] s w = (s, w)
  collect (dst ∷ targets) s w =
      let (s', w') = collect_blocks dst (events_of dst.name s.by_account).owned s w in
      collect targets s' w'
