-- ===== src/Tests/Passes.antt =====
-- Passes of the engine (internal/sync/sync.go) over two accounts.
use mathlib.Core.Path.{subst}
use calendar_bridge.Base.{
  ◌≡◌, refl, String, true, false, Option, none, some, List, [], ◌∷◌, All, All-append, string_eq,
}
use calendar_bridge.Base.Int.{ltb_ℤ, wrap_i64, ◌*ℤ◌, ◌+ℤ◌, ◌-ℤ◌, pos}
use calendar_bridge.Base.Dict
use calendar_bridge.Base.Dict.{Dict}
use calendar_bridge.Fault.{Fault}
use calendar_bridge.Calendar.{
  GoogleEvent, is_owned_block, owned_by, is_cancelled, source_identity, identity_of, blocks_time,
  self_response_status, self_response_of, index_key, times_equal, copy_span,
}
use calendar_bridge.Engine.Model.{Account, Engine, SyncResult, events_of}
use calendar_bridge.Engine.Ensure.{
  is_up_to_date, updated_block, busy_block, remember, find_from, find_existing, ensure_from,
  ensure_block,
}
use calendar_bridge.Engine.Fetch.{add_owned, place, classify, note_account, fetch}
use calendar_bridge.Engine.Propagate.{
  set_index, count_outcome, note_outcome, propagate_pair, propagate_event, propagate_source,
  propagate,
}
use calendar_bridge.Engine.Collect.{
  account_is_healthy, live_source_ids, note_deletion, collect_block, collect_blocks, collect,
}
use calendar_bridge.Engine.Pass.{
  time_min, time_max, join, fetch_all, reconcile, finish, after_fetch, sync_once,
}
use calendar_bridge.Engine.Safety.Terms.{IfSome, Terms}
use calendar_bridge.Engine.Safety.Pass.{sync_once_keeps}
use calendar_bridge.Engine.DryRun.{ReadsKeep, sync_once-dry_run}
use calendar_bridge.Engine.Health.{Reports, sync_once-Reports}
use calendar_bridge.Engine.Settle.{
  Settled, Echoes, ensure_block-Settled, busy_block-is_up_to_date, updated_block-is_up_to_date,
}
use calendar_bridge.Tests.Desk.{
  Write, put, change, drop, Log, meeting, block_of, paper, home, play, desk,
}

run : Engine Log → (SyncResult × Option Fault) × Log
unfolding sync_once after_fetch finish reconcile fetch_all fetch note_account classify place
    add_owned propagate propagate_source propagate_event propagate_pair note_outcome count_outcome
    set_index events_of ensure_block find_existing find_from ensure_from is_up_to_date updated_block
    busy_block remember collect collect_blocks collect_block note_deletion live_source_ids
    account_is_healthy join is_owned_block owned_by is_cancelled source_identity identity_of
    blocks_time self_response_status self_response_of index_key times_equal copy_span Dict.get
    Dict.lookup Dict.insert string_eq
run e = sync_once e []

abbrev result : SyncResult
result = record {
  started = pos 100;
  finished = pos 100;
  created = 1;
  updated = 1;
  deleted = 1;
  skipped = 0;
  healthy_accounts = "home" ∷ "work" ∷ "play" ∷ [];
  failed_accounts = [];
}

-- The untitled block is given its title, the third account a block, and the stale block goes.
real_run : run (desk false) ≡ (
  (result, none),
  change "w" "b2" (some (block_of "b2" "e1" "Busy")) "tag"
      ∷ put "p" (some (busy_block "Busy" home meeting))
      ∷ drop "w" "b1" "tag"
      ∷ [],
)
unfolding run
real_run = refl

dry_run : run (desk true) ≡ ((result, none), [])
unfolding run
dry_run = refl

-- What may stand in the log: an insert carries the owner tag and no description, and a delete names
-- an owned block and its ETag.
abbrev Fair : Write → Type 0
Fair (put calendar none) = ⊥
Fair (put calendar (some ev)) = (is_owned_block ev ≡ true) × (ev.description ≡ "")
Fair (change calendar event ev tag) = Unit
Fair (drop calendar event tag) =
    (b : GoogleEvent) × (is_owned_block b ≡ true) × (b.id ≡ event) × (b.etag ≡ tag)

abbrev AllFair : Log → Type 0
AllFair log = All Fair log

abbrev Anything : String → GoogleEvent → Type 0
Anything name ev = Unit

abbrev AnyBlock : String → String → GoogleEvent → Type 0
AnyBlock name key b = Unit

any_listed : (events : List (Option GoogleEvent)) → All (IfSome (Anything "")) events
any_listed [] = tt
any_listed (none ∷ events) = (tt, any_listed events)
any_listed (some ev ∷ events) = (tt, any_listed events)

any_block : (r : Option GoogleEvent) → IfSome (AnyBlock "" "") r
any_block none = tt
any_block (some b) = tt

busy_block-owned :
    (title : String) (src : Account Log) (ev : GoogleEvent)
    → is_owned_block (busy_block title src ev) ≡ true
unfolding busy_block is_owned_block owned_by Dict.get Dict.lookup string_eq
busy_block-owned title src ev = refl

busy_block-description :
    (title : String) (src : Account Log) (ev : GoogleEvent)
    → (busy_block title src ev).description ≡ ""
unfolding busy_block
busy_block-description title src ev = refl

paper-Terms :
    (name calendar : String) (events : List (Option GoogleEvent))
    → Terms
        (desk false)
        Anything
        AnyBlock
        AllFair
        (record { name = name; calendar_id = calendar; client = paper events })
paper-Terms name calendar events = record {
  list_keeps = λ from to log fair. fair;
  list_listed = λ from to log listed log' call. any_listed listed;
  own_mirrors = λ b own complete. tt;
  find_keeps = λ account event log fair. fair;
  find_mirrors = λ account event log r log' call. any_block r;
  insert_keeps = λ src ev wet other real log fair.
      All-append Fair log _ fair
        ((busy_block-owned "Busy" src ev, busy_block-description "Busy" src ev), tt);
  insert_mirrors = λ src ev log r log' call. any_block r;
  update_keeps = λ src ev b wet other real m stale log fair. All-append Fair log _ fair (tt, tt);
  update_mirrors = λ src ev b log r log' m call. any_block r;
  payload_mirrors = λ src ev b m. tt;
  delete_keeps =
      λ b wet own complete log fair. All-append Fair log _ fair ((b, own.owned, refl, refl), tt);
}

sync_once_keeps_example : AllFair (sync_once (desk false) []).1
sync_once_keeps_example =
    sync_once_keeps (desk false) Anything AnyBlock AllFair
      (paper-Terms "home" "h" _, (paper-Terms "work" "w" _, (paper-Terms "play" "p" _, tt))) [] tt

paper-ReadsKeep :
    (name calendar : String) (events : List (Option GoogleEvent))
    → ReadsKeep
        (λ (log : Log). log ≡ [])
        (record { name = name; calendar_id = calendar; client = paper events })
paper-ReadsKeep name calendar events = record {
  list_keeps = λ from to log clear. clear;
  find_keeps = λ account event log clear. clear;
}

sync_once-dry_run_example : (sync_once (desk true) []).1 ≡ []
sync_once-dry_run_example =
    sync_once-dry_run (desk true) (λ log. log ≡ []) refl
      (
        paper-ReadsKeep "home" "h" _,
        (paper-ReadsKeep "work" "w" _, (paper-ReadsKeep "play" "p" _, tt)),
      )
      [] refl

sync_once-Reports_example : Reports 3 (sync_once (desk false) []).0
sync_once-Reports_example = sync_once-Reports (desk false) []

carry_up_to_date :
    (a b : GoogleEvent)
    → a ≡ b
    → is_up_to_date "Busy" meeting a ≡ true
    → is_up_to_date "Busy" meeting b ≡ true
carry_up_to_date a b p same =
    subst (λ (x : GoogleEvent). is_up_to_date "Busy" meeting x ≡ true) p same

paper-Echoes : Echoes (desk false) home meeting play
paper-Echoes = record {
  inserted = λ log r log' call.
      carry_up_to_date (busy_block "Busy" home meeting) r (cc)
        (busy_block-is_up_to_date "Busy" home meeting);
  never_nil = λ log log' call. cc;
  updated = λ b log r log' call.
      carry_up_to_date (updated_block "Busy" meeting b) r (cc)
        (updated_block-is_up_to_date "Busy" meeting b);
}

ensure_block-Settled_example :
    Settled (desk false) home meeting play (ensure_block (desk false) home meeting play [] [])
ensure_block-Settled_example =
    ensure_block-Settled (desk false) home meeting play [] [] refl paper-Echoes

-- 106,752 days wrap to a negative duration, and the window ends before it starts.
lookahead_run : ltb_ℤ (time_max (pos 0) (pos 106_752)) (time_min (pos 0)) ≡ true
unfolding time_max time_min wrap_i64 ◌*ℤ◌ ◌+ℤ◌ ◌-ℤ◌
lookahead_run = refl
