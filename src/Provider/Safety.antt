-- ===== src/Provider/Safety.antt =====
-- What `googleProvider` (internal/sync/google_provider.go) writes: only tagged blocks, and what it
-- has just read and found to be its own. Each theorem is about any invariant `Q` of the world that
-- the provider's reads keep, and its allowed writes.
use calendar_bridge.Base.{
  ℕ, zero, suc, ◌≡◌, String, true, false, Option, none, some, Bool-cases, inl, inr,
}
use calendar_bridge.Fault.{Fault, is_ambiguous, is_precondition_failed}
use calendar_bridge.Effect.{Result, ok, err, M, Keeps, continue_keeps}
use calendar_bridge.Calendar.{GoogleEvent, is_owned_block}
use calendar_bridge.Client.{CalendarClient}
use calendar_bridge.Provider.Neutral.{TimeSpan, Ownership, valid_for_write, Event}
use calendar_bridge.Provider.Mapping.{ownership_from_google}
use calendar_bridge.Provider.Google.{
  is_foreign, new_block, moved_block, find_owned_block, reconcile, settle_insert, insert_unless,
  insert_block, settle_update, update_round, update_loop, update_block, settle_delete, delete_round,
  delete_loop, delete_block,
}
use calendar_bridge.Provider.RoundTrip.{ownership_of-tags}

new_block-valid :
    (title : String) (start end : TimeSpan) (own : Ownership)
    → valid_for_write own ≡ true
    → valid_for_write (ownership_from_google (new_block title start end own)) ≡ true
unfolding ownership_from_google new_block
new_block-valid title start end own valid = rw (ownership_of-tags own) valid

module _ {W : Type 0} (client : CalendarClient W) (calendar_id : String) (Q : W → Type 0)
    (find_keeps : (account event : String)
      → Keeps Q (client.find_block_by_source calendar_id account event)) where
  find_owned_block-Keeps :
      (account event : String) → Keeps Q (find_owned_block client calendar_id account event)
  unfolding find_owned_block
  find_owned_block-Keeps account event w q =
      continue_keeps Q _ _ (find_keeps account event w q) (λ a w' call q'. q')

  reconcile-Keeps :
      (own : Ownership) (e : Fault) (r : Result (Option Event))
      → Keeps Q (reconcile client calendar_id own e r)
  unfolding reconcile
  reconcile-Keeps own e (ok (some existing)) w q = q
  reconcile-Keeps own e (ok none) w q = q
  reconcile-Keeps own e (err f) w q = q

  module _
      (insert_keeps : (ev : GoogleEvent)
        → valid_for_write (ownership_from_google ev) ≡ true
        → Keeps Q (client.insert_event calendar_id (some ev))) where
    settle_insert-Keeps :
        (own : Ownership) (r : Result (Option GoogleEvent))
        → Keeps Q (settle_insert client calendar_id own r)
    unfolding settle_insert
    settle_insert-Keeps own (ok none) w q = q
    settle_insert-Keeps own (ok (some created)) w q = q
    settle_insert-Keeps own (err e) w q = elim (Bool-cases (is_ambiguous e)) [
      | inl ambiguous ↦ rw ambiguous (reconcile-Keeps own e _ _ (find_owned_block-Keeps _ _ w q))
      | inr known ↦ rw known q
    ]

    insert_unless-Keeps :
        (title : String) (start end : TimeSpan) (own : Ownership) (existing : Option Event)
        → valid_for_write own ≡ true
        → Keeps Q (insert_unless client calendar_id title start end own existing)
    unfolding insert_unless
    insert_unless-Keeps title start end own (some existing) valid w q = q
    insert_unless-Keeps title start end own none valid w q = settle_insert-Keeps own _ _ (
        insert_keeps (new_block title start end own) (new_block-valid title start end own valid) w
          q)

    -- `InsertBlock` inserts no event but one that carries the owner tag and a complete source
    -- identity, and makes no other write: it keeps any `Q` that its lookups and these inserts keep.
    pub insert_block-Keeps :
        (title : String) (start end : TimeSpan) (own : Ownership)
        → Keeps Q (insert_block client calendar_id title start end own)
    unfolding insert_block
    insert_block-Keeps title start end own w q = elim (Bool-cases (valid_for_write own)) [
      | inl valid ↦ rw valid (
          continue_keeps Q _ _ (find_owned_block-Keeps _ _ w q)
            (λ existing w' call q'. insert_unless-Keeps title start end own existing valid w' q'))
      | inr invalid ↦ rw invalid q
    ]

  module _
      (update_keeps : (own : Ownership) (title : String) (start end : TimeSpan) (full : GoogleEvent)
          (w w' : W)
        → client.find_block_by_source calendar_id own.source_account own.source_event_id w
          ≡ (ok (some full), w')
        → is_foreign (ownership_from_google full) own.source_account own.source_event_id ≡ false
        → Q w'
        → Q
            (client.update_event calendar_id full.id
              (some (moved_block full title start end))
              full.etag
              w').1) where
    settle_update-Keeps :
        (next : M W (Option Event)) (r : Result (Option GoogleEvent))
        → Keeps Q next
        → Keeps Q (settle_update client calendar_id next r)
    unfolding settle_update
    settle_update-Keeps next (ok none) more w q = q
    settle_update-Keeps next (ok (some x)) more w q = q
    settle_update-Keeps next (err e) more w q = elim (Bool-cases (is_precondition_failed e)) [
      | inl changed ↦ rw changed (more w q)
      | inr other ↦ rw other q
    ]

    update_round_keeps :
        (next : M W (Option Event)) (own : Ownership) (title : String) (start end : TimeSpan)
        (r : Option GoogleEvent) (w w' : W)
        → Keeps Q next
        → client.find_block_by_source calendar_id own.source_account own.source_event_id w
          ≡ (ok r, w')
        → Q w'
        → Q (update_round client calendar_id next own title start end r w').1
    unfolding update_round
    update_round_keeps next own title start end none w w' more call q = q
    update_round_keeps next own title start end (some full) w w' more call q =
        elim (Bool-cases
          (is_foreign (ownership_from_google full) own.source_account own.source_event_id)) [
            | inl foreign ↦ rw foreign q
            | inr ours ↦ rw ours (
                settle_update-Keeps next _ more _
                  (update_keeps own title start end full w w' call ours q))
          ]

    update_loop-Keeps :
        (attempts : ℕ) (own : Ownership) (title : String) (start end : TimeSpan)
        → Keeps Q (update_loop client calendar_id attempts own title start end)
    unfolding update_loop
    update_loop-Keeps zero own title start end w q = q
    update_loop-Keeps (suc attempts) own title start end w q =
        continue_keeps Q _ _ (find_keeps _ _ w q) λ r w' call q'.
          update_round_keeps _ own title start end r w w'
            (update_loop-Keeps attempts own title start end) call q'

    -- `UpdateBlock` updates no event but one that its lookup has just returned, tagged and with the
    -- source that was asked for; the update carries that event with a new span and title, and is
    -- conditional on the ETag that was read. That is, it keeps any `Q` that its lookups and these
    -- updates keep.
    pub update_block-Keeps :
        (block : Event) (title : String) (start end : TimeSpan)
        → Keeps Q (update_block client calendar_id block title start end)
    unfolding update_block
    update_block-Keeps block title start end w q =
        elim (Bool-cases (valid_for_write block.ownership)) [
          | inl valid ↦ rw valid (update_loop-Keeps 2 block.ownership title start end w q)
          | inr invalid ↦ rw invalid q
        ]

module _ {W : Type 0} (client : CalendarClient W) (calendar_id block_id : String) (Q : W → Type 0)
    (get_keeps : Keeps Q (client.get_event calendar_id block_id))
    (delete_keeps : (ev : GoogleEvent) (w w' : W)
      → client.get_event calendar_id block_id w ≡ (ok (some ev), w')
      → is_owned_block ev ≡ true
      → Q w'
      → Q (client.delete_event calendar_id block_id ev.etag w').1) where
  settle_delete-Keeps :
      (next : M W (Unit {0})) (r : Result (Unit {0}))
      → Keeps Q next
      → Keeps Q (settle_delete client calendar_id next r)
  unfolding settle_delete
  settle_delete-Keeps next (ok x) more w q = q
  settle_delete-Keeps next (err e) more w q = elim (Bool-cases (is_precondition_failed e)) [
    | inl changed ↦ rw changed (more w q)
    | inr other ↦ rw other q
  ]

  delete_round_keeps :
      (next : M W (Unit {0})) (r : Option GoogleEvent) (w w' : W)
      → Keeps Q next
      → client.get_event calendar_id block_id w ≡ (ok r, w')
      → Q w'
      → Q (delete_round client calendar_id next block_id r w').1
  unfolding delete_round
  delete_round_keeps next none w w' more call q = q
  delete_round_keeps next (some ev) w w' more call q = elim (Bool-cases (is_owned_block ev)) [
    | inl owned ↦ rw owned (settle_delete-Keeps next _ more _ (delete_keeps ev w w' call owned q))
    | inr foreign ↦ rw foreign q
  ]

  delete_loop-Keeps : (attempts : ℕ) → Keeps Q (delete_loop client calendar_id attempts block_id)
  unfolding delete_loop
  delete_loop-Keeps zero w q = q
  delete_loop-Keeps (suc attempts) w q =
      continue_keeps Q _ _ (get_keeps w q)
        λ r w' call q'. delete_round_keeps _ r w w' (delete_loop-Keeps attempts) call q'

  -- `DeleteBlock` deletes no event but one that it has just read under this ID and found to carry
  -- the owner tag, on the condition of the ETag that it read. That is, it keeps any `Q` that its
  -- reads and these deletes keep.
  pub delete_block-Keeps : Keeps Q (delete_block client calendar_id block_id)
  unfolding delete_block
  delete_block-Keeps = delete_loop-Keeps 2
