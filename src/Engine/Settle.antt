-- ===== src/Engine/Settle.antt =====
-- A block that `ensureBlock` (internal/sync/sync.go) has written needs no second write.
use calendar_bridge.Base.{
  ◌≡◌, ◌≢◌, refl, String, true, false, Option, none, some, Bool-cases, inl, inr, string_eq, arith,
}
use calendar_bridge.Base.Dict
use calendar_bridge.Base.Dict.{Dict}
use calendar_bridge.Effect.{Result, ok, err, continue, pure}
use calendar_bridge.Calendar.{EventDateTime, GoogleEvent, index_key, times_equal, copy_span}
use calendar_bridge.Engine.Model.{Account, Engine, Outcome, unchanged, created, updated}
use calendar_bridge.Engine.Ensure.{
  is_up_to_date, updated_block, busy_block, or_payload, remember, find_from, find_existing,
  ensure_from, ensure_block,
}

copy_span-times_equal : (t : Option EventDateTime) → times_equal (copy_span t) t ≡ true
unfolding times_equal copy_span
copy_span-times_equal none = refl
copy_span-times_equal (some t) = ground arith

-- The payload of an update has the times and the title that the next pass asks for.
pub updated_block-is_up_to_date :
    (title : String) (ev b : GoogleEvent) → is_up_to_date title ev (updated_block title ev b) ≡ true
unfolding is_up_to_date updated_block
updated_block-is_up_to_date title ev b =
    rw (copy_span-times_equal ev.start, copy_span-times_equal ev.end) (ground arith)

-- And so has the payload of an insert.
pub busy_block-is_up_to_date :
    {W : Type 0} (title : String) (src : Account W) (ev : GoogleEvent)
    → is_up_to_date title ev (busy_block title src ev) ≡ true
unfolding is_up_to_date busy_block
busy_block-is_up_to_date title src ev =
    rw (copy_span-times_equal ev.start, copy_span-times_equal ev.end) (ground arith)

module _ {W : Type 0} (e : Engine W) (src : Account W) (ev : GoogleEvent) (dst : Account W) where
  -- Once the index has an up-to-date block, `ensureBlock` does nothing.
  ensure_block_of_hit :
      (idx : Dict GoogleEvent) (b : GoogleEvent) (w : W)
      → Dict.lookup (index_key src.name ev.id) idx ≡ some b
      → is_up_to_date e.block_title ev b ≡ true
      → ensure_block e src ev dst idx w ≡ (ok (unchanged, idx), w)
  unfolding ensure_block find_existing find_from ensure_from
  ensure_block_of_hit idx b w hit same = rw (hit, same)

  -- What the next call will find, after an outcome that says that a block was written.
  abbrev pub Settled : Result (Outcome × Dict GoogleEvent) × W → Type 0
  Settled (ok (unchanged, idx), w) = Unit
  Settled (ok (created, idx), w) = ensure_block e src ev dst idx w ≡ (ok (unchanged, idx), w)
  Settled (ok (updated, idx), w) = ensure_block e src ev dst idx w ≡ (ok (unchanged, idx), w)
  Settled (err _, w) = Unit

  -- The client answers an insert or an update by the event that it wrote, or nil after an update.
  pub record Echoes : Type 0 where
    pub inserted :
        (w : W) (r : GoogleEvent) (w' : W)
        → dst.client.insert_event dst.calendar_id (some (busy_block e.block_title src ev)) w
          ≡ (ok (some r), w')
        → is_up_to_date e.block_title ev r ≡ true
    pub never_nil :
        (w w' : W)
        → dst.client.insert_event dst.calendar_id (some (busy_block e.block_title src ev)) w
          ≢ (ok none, w')
    pub updated :
        (b : GoogleEvent) (w : W) (r : GoogleEvent) (w' : W)
        → dst.client.update_event dst.calendar_id b.id
            (some (updated_block e.block_title ev b))
            b.etag
            w
          ≡ (ok (some r), w')
        → is_up_to_date e.block_title ev r ≡ true

  updated-Settled :
      (idx : Dict GoogleEvent) (b : GoogleEvent) (r : Result (Option GoogleEvent) × W)
      → ((x : GoogleEvent) (w : W) → r ≡ (ok (some x), w) → is_up_to_date e.block_title ev x ≡ true)
      → Settled (
          continue r λ result. pure (
            updated,
            Dict.insert
                (index_key src.name ev.id)
                (or_payload (updated_block e.block_title ev b) result)
                idx,
          ))
  updated-Settled idx b (err f, w) echo = tt
  updated-Settled idx b (ok none, w) echo =
      ensure_block_of_hit _ _ w (Dict.lookup-insert_self _ _ idx)
        (updated_block-is_up_to_date e.block_title ev b)
  updated-Settled idx b (ok (some x), w) echo =
      ensure_block_of_hit _ x w (Dict.lookup-insert_self _ x idx) (echo x w refl)

  created-Settled :
      (idx : Dict GoogleEvent) (r : Result (Option GoogleEvent) × W)
      → ((x : GoogleEvent) (w : W) → r ≡ (ok (some x), w) → is_up_to_date e.block_title ev x ≡ true)
      → ((w : W) → r ≢ (ok none, w))
      → Settled
          (continue r λ result. pure (created, remember (index_key src.name ev.id) result idx))
  unfolding remember
  created-Settled idx (err f, w) echo some_event = tt
  created-Settled idx (ok none, w) echo some_event = absurd (some_event w refl)
  created-Settled idx (ok (some x), w) echo some_event =
      ensure_block_of_hit _ x w (Dict.lookup-insert_self _ x idx) (echo x w refl)

  ensure_from-Settled :
      (idx : Dict GoogleEvent) (existing : Option GoogleEvent) (w : W)
      → e.dry_run ≡ false
      → Echoes
      → Settled (ensure_from e src ev dst idx existing w)
  unfolding ensure_from
  ensure_from-Settled idx none w wet echo =
      simp wet (created-Settled idx _ (echo.inserted w) (echo.never_nil w))
  ensure_from-Settled idx (some b) w wet echo =
      elim (Bool-cases (is_up_to_date e.block_title ev b)) [
        | inl same ↦ rw same tt
        | inr stale ↦ rw stale (simp wet (updated-Settled idx b _ (echo.updated b w)))
      ]

  found-Settled :
      (idx : Dict GoogleEvent) (r : Result (Option GoogleEvent) × W)
      → e.dry_run ≡ false
      → Echoes
      → Settled (continue r (ensure_from e src ev dst idx))
  found-Settled idx (err f, w) wet echo = tt
  found-Settled idx (ok x, w) wet echo = ensure_from-Settled idx x w wet echo

  -- Outside a dry run, a call that reports that it created or updated a block leaves an index with
  -- which the same call changes nothing and asks the calendar nothing, if the client answers a write
  -- by what it wrote.
  pub ensure_block-Settled :
      (idx : Dict GoogleEvent) (w : W)
      → e.dry_run ≡ false
      → Echoes
      → Settled (ensure_block e src ev dst idx w)
  unfolding ensure_block
  ensure_block-Settled idx w wet echo = found-Settled idx _ wet echo
