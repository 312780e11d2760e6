-- ===== src/Provider/Google.antt =====
-- `googleProvider` of internal/sync/google_provider.go: a `Provider` on top of a `CalendarClient`.
use calendar_bridge.Base.{
  ℕ, zero, suc, String, ◌<>◌, Bool, ◌||◌, not, Option, none, some, List, [], ◌∷◌, ◌/=◌, string_eq,
  if◌then◌else◌,
}
use calendar_bridge.Base.Int.{ℤ}
use calendar_bridge.Fault.{Fault, message, not_owned, is_ambiguous, is_precondition_failed}
use calendar_bridge.Effect.{Result, ok, err, M, ◌>>=◌, pure, fail, attempt}
use calendar_bridge.Calendar.{GoogleEvent, zero_event, private, is_owned_block}
use calendar_bridge.Client.{CalendarClient}
use calendar_bridge.Provider.Neutral.{TimeSpan, Ownership, valid_for_write, Event, Provider}
use calendar_bridge.Provider.Mapping.{
  span_to_google, ownership_from_google, ownership_tags, event_from_google,
}

-- The loop of `ListEvents`.
unfoldable pub events_from_google : List (Option GoogleEvent) → List Event
events_from_google [] = []
events_from_google (none ∷ raw) = events_from_google raw
events_from_google (some ev ∷ raw) = event_from_google ev ∷ events_from_google raw

-- A block is another's, or not provably ours.
unfoldable pub is_foreign : Ownership → String → String → Bool
unfolding valid_for_write
is_foreign own src_account src_event_id =
    not (valid_for_write own)
    || own.source_account /= src_account
    || own.source_event_id /= src_event_id

-- The event that `InsertBlock` sends.
unfoldable pub new_block : String → TimeSpan → TimeSpan → Ownership → GoogleEvent
new_block title start end own = record zero_event {
  summary = title;
  start = span_to_google start;
  end = span_to_google end;
  transparency = "opaque";
  visibility = "private";
  extended_properties = private (ownership_tags own);
}

-- The event that `UpdateBlock` sends: the re-read block with a new span and title.
unfoldable pub moved_block : GoogleEvent → String → TimeSpan → TimeSpan → GoogleEvent
moved_block full title start end = record full {
  start = span_to_google start;
  end = span_to_google end;
  summary = title;
}

module _ {W : Type 0} (client : CalendarClient W) (calendar_id : String) where
  unfoldable pub list_events : ℤ → ℤ → M W (List Event)
  list_events time_min time_max = do
    raw ← client.list_events calendar_id time_min time_max
    pure (events_from_google raw)

  unfoldable pub checked : String → String → Option GoogleEvent → Option Event
  checked src_account src_event_id none = none
  checked src_account src_event_id (some ev) =
      let e = event_from_google ev in
      if is_foreign e.ownership src_account src_event_id then none else some e

  unfoldable pub find_owned_block : String → String → M W (Option Event)
  find_owned_block src_account src_event_id = do
    ev ← client.find_block_by_source calendar_id src_account src_event_id
    pure (checked src_account src_event_id ev)

  -- After a failed insert that may have reached the server: look for its block.
  unfoldable pub reconcile : Ownership → Fault → Result (Option Event) → M W (Option Event)
  reconcile own e (ok (some existing)) = pure (some existing)
  reconcile own e (ok none) = fail e
  reconcile own e (err find_err) = fail e

  unfoldable pub settle_insert : Ownership → Result (Option GoogleEvent) → M W (Option Event)
  settle_insert own (ok none) = fail (message "insert returned no event")
  settle_insert own (ok (some created)) = pure (some (event_from_google created))
  settle_insert own (err e) =
      if is_ambiguous e
      then (do
        found ← attempt (find_owned_block own.source_account own.source_event_id)
        reconcile own e found)
      else fail e

  unfoldable pub insert_unless :
      String → TimeSpan → TimeSpan → Ownership → Option Event → M W (Option Event)
  insert_unless title start end own (some existing) = pure (some existing)
  insert_unless title start end own none = do
    r ← attempt (client.insert_event calendar_id (some (new_block title start end own)))
    settle_insert own r

  unfoldable pub insert_block : String → TimeSpan → TimeSpan → Ownership → M W (Option Event)
  insert_block title start end own =
      if valid_for_write own
      then (do
        existing ← find_owned_block own.source_account own.source_event_id
        insert_unless title start end own existing)
      else fail not_owned

  -- What a round of `UpdateBlock` does with the outcome of its write; `retry` is the next round.
  unfoldable pub settle_update :
      M W (Option Event) → Result (Option GoogleEvent) → M W (Option Event)
  settle_update retry (ok none) = fail (message "update returned no event")
  settle_update retry (ok (some updated)) = pure (some (event_from_google updated))
  settle_update retry (err e) = if is_precondition_failed e then retry else fail e

  unfoldable pub update_round :
      M W (Option Event)
      → Ownership
      → String
      → TimeSpan
      → TimeSpan
      → Option GoogleEvent
      → M W (Option Event)
  update_round retry own title start end none = pure none
  update_round retry own title start end (some full) =
      if is_foreign (ownership_from_google full) own.source_account own.source_event_id
      then fail not_owned
      else (do
        r ← attempt (
            client.update_event calendar_id full.id (some (moved_block full title start end))
              full.etag)
        settle_update retry r)

  -- The loop of `UpdateBlock`, with the attempts left.
  unfoldable pub update_loop : ℕ → Ownership → String → TimeSpan → TimeSpan → M W (Option Event)
  update_loop zero own title start end = fail (
      message (
        "update of the block for " <> own.source_account <> "/" <> own.source_event_id
        <> " kept failing its ownership precondition (event changing concurrently)"))
  update_loop (suc attempts) own title start end = do
    full ← client.find_block_by_source calendar_id own.source_account own.source_event_id
    update_round (update_loop attempts own title start end) own title start end full

  unfoldable pub update_block : Event → String → TimeSpan → TimeSpan → M W (Option Event)
  update_block block title start end =
      if valid_for_write block.ownership
      then update_loop 2 block.ownership title start end
      else fail not_owned

  unfoldable pub settle_delete : M W (Unit {0}) → Result (Unit {0}) → M W (Unit {0})
  settle_delete retry (ok _) = pure tt
  settle_delete retry (err e) = if is_precondition_failed e then retry else fail e

  unfoldable pub delete_round : M W (Unit {0}) → String → Option GoogleEvent → M W (Unit {0})
  delete_round retry block_id none = pure tt
  delete_round retry block_id (some ev) =
      if is_owned_block ev
      then (do
        r ← attempt (client.delete_event calendar_id block_id ev.etag)
        settle_delete retry r)
      else fail not_owned

  -- The loop of `DeleteBlock`, with the attempts left.
  unfoldable pub delete_loop : ℕ → String → M W (Unit {0})
  delete_loop zero block_id = fail (
      message (
        "delete of block " <> block_id
        <> " kept failing its ownership precondition (event changing concurrently)"))
  delete_loop (suc attempts) block_id = do
    ev ← client.get_event calendar_id block_id
    delete_round (delete_loop attempts block_id) block_id ev

  unfoldable pub delete_block : String → M W (Unit {0})
  delete_block block_id = delete_loop 2 block_id

-- `NewGoogleProvider`
abbrev pub google_provider : {W : Type 0} → CalendarClient W → Provider W
google_provider client = record {
  list_events = list_events client;
  find_owned_block = find_owned_block client;
  insert_block = insert_block client;
  update_block = update_block client;
  delete_block = delete_block client;
}
