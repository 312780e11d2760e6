-- ===== src/Engine/Propagate.antt =====
-- Step 2 of `SyncOnce`, internal/sync/sync.go: a block for every real event on every other account.
use calendar_bridge.Base.{◌+◌, String, ◌<>◌, List, [], ◌∷◌, ◌++◌, ◌==◌, string_eq, if◌then◌else◌}
use calendar_bridge.Base.Dict
use calendar_bridge.Base.Dict.{Dict}
use calendar_bridge.Fault.{Fault, wrapped}
use calendar_bridge.Effect.{Result, ok, err}
use calendar_bridge.Calendar.{GoogleEvent}
use calendar_bridge.Engine.Model.{
  Account, Engine, SyncResult, Outcome, unchanged, created, updated, AccountEvents, events_of,
}
use calendar_bridge.Engine.Ensure.{ensure_block}

-- What steps 2 and 3 change. The indexes of `by_account` are shared maps, and change in place.
pub record Progress : Type 0 where
  pub by_account : Dict AccountEvents
  pub errors : List Fault
  pub result : SyncResult

-- `idx` of the destination is now this.
unfoldable pub set_index : String → Dict GoogleEvent → Dict AccountEvents → Dict AccountEvents
set_index name idx by_account =
    Dict.insert name (record (events_of name by_account) { index = idx }) by_account

unfoldable pub count_outcome : Outcome → SyncResult → SyncResult
count_outcome unchanged r = r
count_outcome created r = record r { created = r.created + 1 }
count_outcome updated r = record r { updated = r.updated + 1 }

module _ {W : Type 0} where
  unfoldable pub note_outcome :
      Account W
      → GoogleEvent
      → Account W
      → Progress
      → Result (Outcome × Dict GoogleEvent)
      → Progress
  note_outcome src ev dst s (err e) = record s {
    errors =
        s.errors
        ++ (wrapped ("ensuring block for " <> src.name <> "/" <> ev.id <> " on " <> dst.name) e
            ∷ []);
  }
  note_outcome src ev dst s (ok (outcome, idx)) = record s {
    by_account = set_index dst.name idx s.by_account;
    result = count_outcome outcome s.result;
  }

module _ {W : Type 0} (e : Engine W) where
  unfoldable pub propagate_pair : Account W → GoogleEvent → Account W → Progress → W → Progress × W
  propagate_pair src ev dst s w =
      if dst.name == src.name
      then (s, w)
      else (let (r, w') = ensure_block e src ev dst (events_of dst.name s.by_account).index w in
          (note_outcome src ev dst s r, w'))

  -- The loop over the destinations.
  unfoldable pub propagate_event :
      Account W → GoogleEvent → List (Account W) → Progress → W → Progress × W
  propagate_event src ev [] s w = (s, w)
  propagate_event src ev (dst ∷ targets) s w =
      let (s', w') = propagate_pair src ev dst s w in propagate_event src ev targets s' w'

  -- The loop over the real events of a source.
  unfoldable pub propagate_source :
      List (Account W) → Account W → List GoogleEvent → Progress → W → Progress × W
  propagate_source healthy src [] s w = (s, w)
  propagate_source healthy src (ev ∷ events) s w =
      let (s', w') = propagate_event src ev healthy s w in propagate_source healthy src events s' w'

  -- The loop over the sources.
  unfoldable pub propagate : List (Account W) → List (Account W) → Progress → W → Progress × W
  propagate healthy [] s w = (s, w)
  propagate healthy (src ∷ sources) s w =
      let (s', w') = propagate_source healthy src (events_of src.name s.by_account).real s w in
      propagate healthy sources s' w'
