-- ===== src/Engine/Safety/Terms.antt =====
-- What the clients of a pass (internal/sync/sync.go) are asked to keep, and under which conditions:
-- an invariant `Q` of the world that reads keep, and that each kind of write keeps when it is made
-- on these terms. A pass that keeps `Q` makes no write on other terms.
use calendar_bridge.Base.{◌≡◌, ◌≢◌, String, true, false, Option, none, some, List, All}
use calendar_bridge.Base.Int.{ℤ}
use calendar_bridge.Base.Dict
use calendar_bridge.Base.Dict.{Dict}
use calendar_bridge.Effect.{ok, Keeps}
use calendar_bridge.Calendar.{
  GoogleEvent, is_cancelled, is_owned_block, source_identity, blocks_time, index_key,
}
use calendar_bridge.Engine.Model.{Account, Engine, AccountEvents, events_of}
use calendar_bridge.Engine.Ensure.{is_up_to_date, updated_block, busy_block}

abbrev pub IfSome {ℓ κ} : {A : Type ℓ} → (A → Type κ) → Option A → Type κ
IfSome P none = Unit
IfSome P (some a) = P a

-- `Listed name ev`: the account lists `ev`. `Mirrors name key b`: `b` is the block on the account
-- that mirrors the source event with this index key.
module _ {W : Type 0} (e : Engine W) (Listed : String → GoogleEvent → Type 0)
    (Mirrors : String → String → GoogleEvent → Type 0) (Q : W → Type 0) where
  -- A real event that takes time.
  pub record IsReal (name : String) (ev : GoogleEvent) : Type 0 where
    pub listed : Listed name ev
    pub not_cancelled : is_cancelled ev ≡ false
    pub not_owned : is_owned_block ev ≡ false
    pub takes_time : blocks_time ev ≡ true

  -- An owned block.
  pub record IsOwn (name : String) (b : GoogleEvent) : Type 0 where
    pub listed : Listed name b
    pub not_cancelled : is_cancelled b ≡ false
    pub owned : is_owned_block b ≡ true

  -- The terms for the calls on one account.
  pub record Terms (acc : Account W) : Type 0 where
    pub list_keeps : (from to : ℤ) → Keeps Q (acc.client.list_events acc.calendar_id from to)
    pub list_listed :
        (from to : ℤ) (w : W) (events : List (Option GoogleEvent)) (w' : W)
        → acc.client.list_events acc.calendar_id from to w ≡ (ok events, w')
        → All (IfSome (Listed acc.name)) events
    pub own_mirrors :
        (b : GoogleEvent)
        → IsOwn acc.name b
        → (source_identity b).complete ≡ true
        → Mirrors acc.name (index_key (source_identity b).account (source_identity b).event_id) b
    pub find_keeps :
        (account event : String)
        → Keeps Q (acc.client.find_block_by_source acc.calendar_id account event)
    pub find_mirrors :
        (account event : String) (w : W) (r : Option GoogleEvent) (w' : W)
        → acc.client.find_block_by_source acc.calendar_id account event w ≡ (ok r, w')
        → IfSome (Mirrors acc.name (index_key account event)) r
    -- Only a real event of another account is given a block.
    pub insert_keeps :
        (src : Account W) (ev : GoogleEvent)
        → e.dry_run ≡ false
        → acc.name ≢ src.name
        → IsReal src.name ev
        → Keeps Q (acc.client.insert_event acc.calendar_id (some (busy_block e.block_title src ev)))
    pub insert_mirrors :
        (src : Account W) (ev : GoogleEvent) (w : W) (r : Option GoogleEvent) (w' : W)
        → acc.client.insert_event acc.calendar_id (some (busy_block e.block_title src ev)) w
          ≡ (ok r, w')
        → IfSome (Mirrors acc.name (index_key src.name ev.id)) r
    -- Only the block that mirrors the source event is updated, only if it has other times or another
    -- title, and on the condition of its ETag.
    pub update_keeps :
        (src : Account W) (ev b : GoogleEvent)
        → e.dry_run ≡ false
        → acc.name ≢ src.name
        → IsReal src.name ev
        → Mirrors acc.name (index_key src.name ev.id) b
        → is_up_to_date e.block_title ev b ≡ false
        → Keeps Q (
            acc.client.update_event acc.calendar_id b.id
              (some (updated_block e.block_title ev b))
              b.etag)
    pub update_mirrors :
        (src : Account W) (ev b : GoogleEvent) (w : W) (r : Option GoogleEvent) (w' : W)
        → Mirrors acc.name (index_key src.name ev.id) b
        → acc.client.update_event acc.calendar_id b.id
            (some (updated_block e.block_title ev b))
            b.etag
            w
          ≡ (ok r, w')
        → IfSome (Mirrors acc.name (index_key src.name ev.id)) r
    -- The payload of an update mirrors what the block did.
    pub payload_mirrors :
        (src : Account W) (ev b : GoogleEvent)
        → Mirrors acc.name (index_key src.name ev.id) b
        → Mirrors acc.name (index_key src.name ev.id) (updated_block e.block_title ev b)
    -- Only an owned block of the account with a complete source identity is deleted, on the
    -- condition of its ETag.
    pub delete_keeps :
        (b : GoogleEvent)
        → e.dry_run ≡ false
        → IsOwn acc.name b
        → (source_identity b).complete ≡ true
        → Keeps Q (acc.client.delete_event acc.calendar_id b.id b.etag)

  abbrev pub GoodIndex : String → Dict GoogleEvent → Type 0
  GoodIndex name idx =
      (key : String) (b : GoogleEvent) → Dict.lookup key idx ≡ some b → Mirrors name key b

  pub record GoodEvents (name : String) (ae : AccountEvents) : Type 0 where
    pub real : All (IsReal name) ae.real
    pub owned : All (IsOwn name) ae.owned
    pub index : GoodIndex name ae.index

  abbrev pub Good : Dict AccountEvents → Type 0
  Good by_account = (name : String) → GoodEvents name (events_of name by_account)
