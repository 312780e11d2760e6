-- ===== src/Tests/Leftovers.antt =====
-- The garbage collection of the engine (internal/sync/sync.go) on the blocks of two accounts.
use mathlib.Core.Path.{subst}
use mathlib.Core.List.{Memᴰ}
use text.Mathlib.TextEquality.{eq_iff}
use calendar_bridge.Base.{
  ◌≡◌, ◌≢◌, refl, sym, ap, ◌∙◌, inl, inr, String, true, false, List, [], ◌∷◌, string_eq, arith,
}
use calendar_bridge.Base.Int.{pos}
use calendar_bridge.Base.Dict
use calendar_bridge.Base.Dict.{Dict}
use calendar_bridge.Calendar.{
  GoogleEvent, zero_event, private, source_identity, identity_of, index_key,
}
use calendar_bridge.Provider.Mapping.{ownership_tags}
use calendar_bridge.Engine.Model.{Account, SyncResult, AccountEvents, events_of}
use calendar_bridge.Engine.Propagate.{Progress}
use calendar_bridge.Engine.Collect.{
  account_is_healthy, live_source_ids, collect_block, collect_blocks,
}
use calendar_bridge.Engine.Live.{Spared, Taken, LiveKey, collect_blocks_spare, collect_block_takes}
use calendar_bridge.Tests.Desk.{Log, meeting, block_of, home, work, desk}

abbrev result : SyncResult
result = record {
  started = pos 100;
  finished = pos 100;
  created = 1;
  updated = 1;
  deleted = 1;
  skipped = 0;
  healthy_accounts = "home" ∷ "work" ∷ "play" ∷ [];
  failed_accounts = [];
}

abbrev fetched : Dict AccountEvents
fetched =
    ("home", record { real = meeting ∷ []; owned = []; index = [] })
    ∷ ("work", record { real = []; owned = block_of "b1" "gone" "Busy" ∷ []; index = [] })
    ∷ []

-- One block mirrors the meeting, and one an event of an account that this pass did not fetch.
abbrev elsewhere : GoogleEvent
elsewhere = record zero_event {
  id = "b3";
  extended_properties = private (
      ownership_tags (record {
        owner = "calendar-bridge";
        source_account = "away";
        source_calendar_id = "primary";
        source_event_id = "e9";
      }));
}

abbrev so_far : Progress
so_far = record { by_account = fetched; errors = []; result = result }

abbrev fetched_accounts : List (Account Log)
fetched_accounts = home ∷ work ∷ []

meeting-block-Spared : Spared (desk false) fetched_accounts fetched (block_of "b2" "e1" "")
unfolding source_identity identity_of Dict.get Dict.lookup string_eq events_of
meeting-block-Spared = inr (inr (home, Memᴰ.head refl, meeting, Memᴰ.head refl, refl, refl))

elsewhere-Spared : Spared (desk false) fetched_accounts fetched elsewhere
unfolding source_identity identity_of account_is_healthy Dict.get Dict.lookup string_eq
elsewhere-Spared = inr (inl refl)

collect_blocks_spare_example :
    collect_blocks
      (desk false)
      fetched_accounts
      (live_source_ids fetched_accounts fetched)
      work
      (block_of "b2" "e1" "" ∷ elsewhere ∷ [])
      so_far
      []
    ≡ (so_far, [])
collect_blocks_spare_example =
    collect_blocks_spare (desk false) fetched_accounts fetched work
      (block_of "b2" "e1" "" ∷ elsewhere ∷ []) so_far []
      (meeting-block-Spared, (elsewhere-Spared, tt))

abbrev NoSource : Account Log → Type 0
NoSource src =
    (ev : GoogleEvent)
    → Memᴰ ev (events_of src.name fetched).real
    → "home|gone" ≡ index_key src.name ev.id
    → ⊥

other_keys : ◌≢◌ {A = String} "home|gone" "home|e1"
other_keys = ground (arith, eq_iff "home|gone" "home|e1")

home-NoSource : NoSource home
unfolding index_key events_of Dict.lookup string_eq
home-NoSource ev (Memᴰ.head p) same =
    other_keys (same ∙ ap (λ (x : GoogleEvent). index_key "home" x.id) p)
home-NoSource ev (Memᴰ.tail m) same = elim m [ ]

work-NoSource : NoSource work
unfolding events_of Dict.lookup string_eq
work-NoSource ev m same = elim m [ ]

no_live_source : LiveKey fetched fetched_accounts "home|gone" → ⊥
no_live_source (src, Memᴰ.head p, ev, m, same) = subst NoSource (sym p) home-NoSource ev m same
no_live_source (src, Memᴰ.tail (Memᴰ.head p), ev, m, same) =
    subst NoSource (sym p) work-NoSource ev m same
no_live_source (src, Memᴰ.tail (Memᴰ.tail n), ev, m, same) = elim n [ ]

-- The block "b1" of the desk.
gone-complete : (source_identity (block_of "b1" "gone" "Busy")).complete ≡ true
unfolding source_identity identity_of Dict.get Dict.lookup string_eq
gone-complete = refl

gone-fetched :
    account_is_healthy fetched_accounts (source_identity (block_of "b1" "gone" "Busy")).account
    ≡ true
unfolding account_is_healthy source_identity identity_of Dict.get Dict.lookup string_eq
gone-fetched = refl

gone-NoSource : ¬ LiveKey fetched fetched_accounts (
    index_key
      (source_identity (block_of "b1" "gone" "Busy")).account
      (source_identity (block_of "b1" "gone" "Busy")).event_id)
unfolding source_identity identity_of index_key Dict.get Dict.lookup string_eq
gone-NoSource = no_live_source

collect_block_takes_example :
    Taken (desk false) fetched_accounts fetched work (block_of "b1" "gone" "Busy") so_far [] (
      collect_block
        (desk false)
        fetched_accounts
        (live_source_ids fetched_accounts fetched)
        work
        (block_of "b1" "gone" "Busy")
        so_far
        [])
collect_block_takes_example =
    collect_block_takes (desk false) fetched_accounts fetched work (block_of "b1" "gone" "Busy")
      so_far [] gone-complete gone-fetched gone-NoSource
