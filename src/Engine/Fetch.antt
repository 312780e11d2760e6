-- ===== src/Engine/Fetch.antt =====
-- Step 1 of `SyncOnce`, internal/sync/sync.go: the events of every account, sorted into real events
-- and owned blocks.
use calendar_bridge.Base.{ℕ, ◌+◌, ◌<>◌, not, Option, none, some, List, [], ◌∷◌, ◌++◌, if◌then◌else◌}
use calendar_bridge.Base.Int.{ℤ}
use calendar_bridge.Base.Dict
use calendar_bridge.Base.Dict.{Dict}
use calendar_bridge.Fault.{Fault, wrapped}
use calendar_bridge.Effect.{Result, ok, err}
use calendar_bridge.Calendar.{
  GoogleEvent, is_cancelled, is_owned_block, source_identity, blocks_time, index_key,
}
use calendar_bridge.Engine.Model.{Account, SyncResult, AccountEvents, no_events}

unfoldable pub add_owned : AccountEvents → GoogleEvent → AccountEvents
add_owned ae ev =
    let i = source_identity ev in
    record ae {
      owned = ae.owned ++ (ev ∷ []);
      index =
          if i.complete then Dict.insert (index_key i.account i.event_id) ev ae.index else ae.index;
    }

-- The body of the loop over the events of an account, with the count of skipped events.
unfoldable pub place : AccountEvents × ℕ → GoogleEvent → AccountEvents × ℕ
place (ae, skipped) ev =
    if is_cancelled ev
    then (ae, skipped)
    else if is_owned_block ev
    then (add_owned ae ev, skipped)
    else if not (blocks_time ev)
    then (ae, skipped + 1)
    else (record ae { real = ae.real ++ (ev ∷ []) }, skipped)

unfoldable pub classify : AccountEvents × ℕ → List (Option GoogleEvent) → AccountEvents × ℕ
classify s [] = s
classify s (none ∷ events) = classify s events
classify s (some ev ∷ events) = classify (place s ev) events

-- What step 1 has gathered.
pub record Fetched (W : Type 0) : Type 0 where
  pub by_account : Dict AccountEvents
  pub healthy : List (Account W)
  pub errors : List Fault
  pub result : SyncResult

module _ {W : Type 0} where
  -- The body of the loop over the accounts, after the list call.
  unfoldable pub note_account :
      Account W → Fetched W → Result (List (Option GoogleEvent)) → Fetched W
  note_account acc f (err e) = record f {
    errors = f.errors ++ (wrapped ("listing events for account " <> acc.name) e ∷ []);
    result = record (f.result) { failed_accounts = f.result.failed_accounts ++ (acc.name ∷ []) };
  }
  note_account acc f (ok events) =
      let (ae, skipped) = classify (no_events, 0) events in
      record f {
        by_account = Dict.insert acc.name ae f.by_account;
        healthy = f.healthy ++ (acc ∷ []);
        result = record (f.result) {
          skipped = f.result.skipped + skipped;
          healthy_accounts = f.result.healthy_accounts ++ (acc.name ∷ []);
        };
      }

  unfoldable pub fetch : ℤ → ℤ → List (Account W) → Fetched W → W → Fetched W × W
  fetch time_min time_max [] f w = (f, w)
  fetch time_min time_max (acc ∷ accounts) f w =
      let (events, w') = acc.client.list_events acc.calendar_id time_min time_max w in
      fetch time_min time_max accounts (note_account acc f events) w'
