-- ===== src/Engine/Live.antt =====
-- Garbage collection (internal/sync/sync.go) spares the blocks of live events and of accounts whose
-- fetch failed, and takes all others.
use mathlib.Core.Path.{subst}
use mathlib.Core.List.{Memᴰ}
use calendar_bridge.Base.{
  ◌+◌, All, ◌≡◌, refl, ap, String, true, false, ◌⊎◌, List, [], ◌∷◌, ◌++◌, map, contains, string_eq,
  Bool-cases, inl, inr, arith, ◌<>◌, Bool, if◌then◌else◌,
}
use calendar_bridge.Base.Dict.{Dict}
use calendar_bridge.Fault.{Fault, wrapped}
use calendar_bridge.Effect.{Result, ok, err}
use calendar_bridge.Calendar.{GoogleEvent, source_identity, index_key}
use calendar_bridge.Engine.Model.{Account, Engine, AccountEvents, events_of}
use calendar_bridge.Engine.Propagate.{Progress}
use calendar_bridge.Engine.Collect.{
  account_is_healthy, live_source_ids, note_deletion, collect_block, collect_blocks,
}

contains-append_left :
    (k : String) (xs ys : List String) → contains xs k ≡ true → contains (xs ++ ys) k ≡ true
contains-append_left k [] ys h = cc
contains-append_left k (x ∷ xs) ys h = ground (arith, contains-append_left k xs ys)

contains-append_right :
    (k : String) (xs ys : List String) → contains ys k ≡ true → contains (xs ++ ys) k ≡ true
contains-append_right k [] ys h = h
contains-append_right k (x ∷ xs) ys h = ground (arith, contains-append_right k xs ys)

contains-append_cases :
    (k : String) (xs ys : List String)
    → contains (xs ++ ys) k ≡ true
    → (contains xs k ≡ true) ⊎ (contains ys k ≡ true)
contains-append_cases k [] ys h = inr h
contains-append_cases k (x ∷ xs) ys h = ground (arith, contains-append_cases k xs ys)

contains_self : (k : String) (xs : List String) → contains (k ∷ xs) k ≡ true
contains_self k xs = ground arith

contains-cons :
    (k x : String) (xs : List String) → contains xs k ≡ true → contains (x ∷ xs) k ≡ true
contains-cons k x xs h = ground arith

module _ (f : GoogleEvent → String) where
  contains-map :
      {ev : GoogleEvent} {events : List GoogleEvent}
      → Memᴰ ev events
      → contains (map f events) (f ev) ≡ true
  contains-map (Memᴰ.head p) = rw (ap f p) (contains_self _ _)
  contains-map (Memᴰ.tail m) = contains-cons _ _ _ (contains-map m)

  contains-map_sound :
      (k : String) (events : List GoogleEvent)
      → contains (map f events) k ≡ true
      → (ev : GoogleEvent) × Memᴰ ev events × (k ≡ f ev)
  contains-map_sound k [] h = cc
  contains-map_sound k (ev ∷ events) h = elim (string_eq.dec k (f ev)) [
    | yes same ↦ (ev, Memᴰ.head refl, same)
    | no other ↦
        let (found, m, same) = contains-map_sound k events (ground arith) in
        (found, Memᴰ.tail m, same)
  ]

module _ {W : Type 0} (by_account : Dict AccountEvents) where
  -- A real event of a healthy account with this key.
  abbrev pub LiveKey : List (Account W) → String → Type 0
  LiveKey healthy key =
      (src : Account W) × Memᴰ src healthy
      × (ev : GoogleEvent) × Memᴰ ev (events_of src.name by_account).real
      × (key ≡ index_key src.name ev.id)

  live_source_ids-contains :
      (src : Account W) (ev : GoogleEvent) {healthy : List (Account W)}
      → Memᴰ src healthy
      → Memᴰ ev (events_of src.name by_account).real
      → contains (live_source_ids healthy by_account) (index_key src.name ev.id) ≡ true
  unfolding live_source_ids
  live_source_ids-contains src ev (Memᴰ.head {xs = rest} p) m =
      subst
        (λ (a : Account W).
          contains (live_source_ids (a ∷ rest) by_account) (index_key src.name ev.id) ≡ true)
        p (contains-append_left _ _ _ (contains-map (λ x. index_key src.name x.id) m))
  live_source_ids-contains src ev (Memᴰ.tail n) m =
      contains-append_right _ _ _ (live_source_ids-contains src ev n m)

  live_source_ids_sound :
      (key : String) (healthy : List (Account W))
      → contains (live_source_ids healthy by_account) key ≡ true
      → LiveKey healthy key
  unfolding live_source_ids
  live_source_ids_sound key [] h = cc
  live_source_ids_sound key (acc ∷ healthy) h =
      elim (contains-append_cases key _ (live_source_ids healthy by_account) h) [
        | inl here ↦
            let (ev, m, same) =
              contains-map_sound (λ x. index_key acc.name x.id) key
                (events_of acc.name by_account).real here in
            (acc, Memᴰ.head refl, ev, m, same)
        | inr later ↦
            let (src, n, ev, m, same) = live_source_ids_sound key healthy later in
            (src, Memᴰ.tail n, ev, m, same)
      ]

module _ {W : Type 0} (e : Engine W) (healthy : List (Account W))
    (by_account : Dict AccountEvents) where
  -- The block mirrors a real event that was fetched, or its source account was not fetched, or it
  -- does not say what it mirrors.
  abbrev pub Spared : GoogleEvent → Type 0
  Spared b =
      ((source_identity b).complete ≡ false)
      ⊎ (account_is_healthy healthy (source_identity b).account ≡ false)
      ⊎ ((src : Account W) × Memᴰ src healthy
          × (ev : GoogleEvent) × Memᴰ ev (events_of src.name by_account).real
          × ((source_identity b).account ≡ src.name)
          × ((source_identity b).event_id ≡ ev.id))

  abbrev live : List String
  live = live_source_ids healthy by_account

  collect_block_spares :
      (dst : Account W) (b : GoogleEvent) (s : Progress) (w : W)
      → Spared b
      → collect_block e healthy live dst b s w ≡ (s, w)
  unfolding collect_block
  collect_block_spares dst b s w (inl incomplete) = rw incomplete
  collect_block_spares dst b s w (inr (inl failed)) = ground arith
  collect_block_spares dst b s w (inr (inr (src, n, ev, m, account, event))) =
      let alive : contains live (index_key (source_identity b).account (source_identity b).event_id)
          ≡ true =
        rw (account, event) (live_source_ids-contains by_account src ev n m) in
      ground arith

  -- A block is left alone, and the pass's counts and errors with it, if it mirrors a real event that
  -- this pass fetched, if the account that it mirrors was not fetched, or if its tags are incomplete.
  pub collect_blocks_spare :
      (dst : Account W) (blocks : List GoogleEvent) (s : Progress) (w : W)
      → All Spared blocks
      → collect_blocks e healthy live dst blocks s w ≡ (s, w)
  unfolding collect_blocks
  collect_blocks_spare dst [] s w spared = refl
  collect_blocks_spare dst (b ∷ blocks) s w spared =
      rw (collect_block_spares dst b s w spared.0) (collect_blocks_spare dst blocks s w spared.1)

  -- These counts with one deletion more.
  abbrev pub one_more : Progress → Progress
  one_more s = record s { result = record (s.result) { deleted = s.result.deleted + 1 } }

  -- What becomes of a block whose source is gone: a dry run counts it and calls nothing, and a real one
  -- deletes it by its ID on the condition of its ETag, and counts a success or keeps the error.
  pub data Taken (dst : Account W) (b : GoogleEvent) (s : Progress) (w : W)
      : Progress × W → Type 0 where
    counted : e.dry_run ≡ true → Taken dst b s w (one_more s, w)
    deleted :
        (w' : W)
        → e.dry_run ≡ false
        → dst.client.delete_event dst.calendar_id b.id b.etag w ≡ (ok tt, w')
        → Taken dst b s w (one_more s, w')
    refused :
        (f : Fault) (w' : W)
        → e.dry_run ≡ false
        → dst.client.delete_event dst.calendar_id b.id b.etag w ≡ (err f, w')
        → Taken dst b s w (
          record s {
            errors =
                s.errors
                ++ (wrapped ("deleting stale block " <> b.id <> " on " <> dst.name) f ∷ []);
          },
          w',
        )

  note_deletion-Taken :
      (dst : Account W) (b : GoogleEvent) (s : Progress) (w : W) (r : Result (Unit {0}) × W)
      → e.dry_run ≡ false
      → dst.client.delete_event dst.calendar_id b.id b.etag w ≡ r
      → Taken dst b s w (note_deletion dst b s r.0, r.1)
  unfolding note_deletion
  note_deletion-Taken dst b s w (ok u, w') wet call = deleted w' wet call
  note_deletion-Taken dst b s w (err f, w') wet call = refused f w' wet call

  -- A block with complete tags, whose source account was fetched and has no real event of its key, is
  -- deleted by its ID on the condition of its ETag, and a success is counted and nothing else, or the
  -- error is kept and nothing counted; in a dry run no call is made, and one deletion is counted.
  pub collect_block_takes :
      (dst : Account W) (b : GoogleEvent) (s : Progress) (w : W)
      → (source_identity b).complete ≡ true
      → account_is_healthy healthy (source_identity b).account ≡ true
      → ¬ LiveKey by_account healthy
          (index_key (source_identity b).account (source_identity b).event_id)
      → Taken dst b s w (collect_block e healthy live dst b s w)
  unfolding collect_block
  collect_block_takes dst b s w complete fetched gone =
      elim (Bool-cases
        (contains live (index_key (source_identity b).account (source_identity b).event_id))) [
          | inl alive ↦ absurd (gone (live_source_ids_sound by_account _ healthy alive))
          | inr stale ↦ rw (complete, fetched, stale) (dry_run_takes e.dry_run refl)
        ]
    where
      dry_run_takes :
          (dry : Bool)
          → e.dry_run ≡ dry
          → Taken dst b s w (
              if dry
              then (one_more s, w)
              else (let (r, w') = dst.client.delete_event dst.calendar_id b.id b.etag w in
                  (note_deletion dst b s r, w')))
      dry_run_takes true dry = counted dry
      dry_run_takes false wet = note_deletion-Taken dst b s w _ wet refl
