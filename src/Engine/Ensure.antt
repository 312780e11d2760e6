-- ===== src/Engine/Ensure.antt =====
-- `ensureBlock` of internal/sync/sync.go. The destination's index is passed in, and handed back as
-- the call leaves it; on an error it is as before.
use calendar_bridge.Base.{
  String, Bool, ◌&&◌, Option, none, some, [], ◌∷◌, ◌==◌, string_eq, if◌then◌else◌,
}
use calendar_bridge.Base.Dict
use calendar_bridge.Base.Dict.{Dict}
use calendar_bridge.Effect.{M, ◌>>=◌, pure}
use calendar_bridge.Calendar.{
  GoogleEvent, zero_event, private, owner_key, owner_value, source_account_key, source_event_key,
  source_calendar_key, index_key, times_equal, copy_span,
}
use calendar_bridge.Engine.Model.{Account, Engine, Outcome, unchanged, created, updated}

-- The times and the title are as they should be.
unfoldable pub is_up_to_date : String → GoogleEvent → GoogleEvent → Bool
is_up_to_date title src_event existing =
    times_equal existing.start src_event.start
    && times_equal existing.end src_event.end
    && existing.summary == title

-- The payload of an update: a copy of the block with the times and the title re-asserted.
unfoldable pub updated_block : String → GoogleEvent → GoogleEvent → GoogleEvent
updated_block title src_event existing = record existing {
  start = copy_span src_event.start;
  end = copy_span src_event.end;
  summary = title;
}

-- The payload of an insert.
unfoldable pub busy_block : {W : Type 0} → String → Account W → GoogleEvent → GoogleEvent
busy_block title src src_event = record zero_event {
  summary = title;
  start = copy_span src_event.start;
  end = copy_span src_event.end;
  transparency = "opaque";
  visibility = "private";
  extended_properties = private (
      (owner_key, owner_value)
      ∷ (source_account_key, src.name)
      ∷ (source_calendar_key, src.calendar_id)
      ∷ (source_event_key, src_event.id)
      ∷ []);
}

-- `result`, or the payload where the client returned nil.
abbrev pub or_payload : GoogleEvent → Option GoogleEvent → GoogleEvent
or_payload payload none = payload
or_payload payload (some result) = result

unfoldable pub remember : String → Option GoogleEvent → Dict GoogleEvent → Dict GoogleEvent
remember key none idx = idx
remember key (some block) idx = Dict.insert key block idx

module _ {W : Type 0} (e : Engine W) (src : Account W) (src_event : GoogleEvent) (dst : Account W)
    (idx : Dict GoogleEvent) where
  -- What the index has, and on a miss the calendar.
  unfoldable pub find_from : Option GoogleEvent → M W (Option GoogleEvent)
  find_from (some existing) = pure (some existing)
  find_from none = dst.client.find_block_by_source dst.calendar_id src.name src_event.id

  unfoldable pub find_existing : M W (Option GoogleEvent)
  find_existing = find_from (Dict.lookup (index_key src.name src_event.id) idx)

  unfoldable pub ensure_from : Option GoogleEvent → M W (Outcome × Dict GoogleEvent)
  ensure_from (some existing) =
      if is_up_to_date e.block_title src_event existing
      then pure (unchanged, idx)
      else if e.dry_run
      then pure (updated, idx)
      else (let payload = updated_block e.block_title src_event existing in
          do
            result ←
                dst.client.update_event dst.calendar_id existing.id (some payload) existing.etag
            pure (
              updated,
              Dict.insert (index_key src.name src_event.id) (or_payload payload result) idx,
            ))
  ensure_from none = if e.dry_run then pure (created, idx) else (do
    result ← dst.client.insert_event dst.calendar_id (some (busy_block e.block_title src src_event))
    pure (created, remember (index_key src.name src_event.id) result idx))

  unfoldable pub ensure_block : M W (Outcome × Dict GoogleEvent)
  ensure_block = do existing ← find_existing; ensure_from existing
