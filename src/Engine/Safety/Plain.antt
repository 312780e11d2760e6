-- ===== src/Engine/Safety/Plain.antt =====
-- The terms of a pass (internal/sync/sync.go), where it does not matter which event a call is about.
use calendar_bridge.Base.{◌≡◌, String, false, Option, none, some, List, [], ◌∷◌, All}
use calendar_bridge.Base.Int.{ℤ}
use calendar_bridge.Effect.{Keeps}
use calendar_bridge.Calendar.{GoogleEvent}
use calendar_bridge.Engine.Model.{Account, Engine}
use calendar_bridge.Engine.Safety.Terms.{IfSome, Terms}

module _ {W : Type 0} (e : Engine W) (Q : W → Type 0) where
  -- The calls of a pass on an account keep `Q`, the writes outside a dry run.
  pub record CallsKeep (acc : Account W) : Type 0 where
    pub list_keeps : (from to : ℤ) → Keeps Q (acc.client.list_events acc.calendar_id from to)
    pub find_keeps :
        (account event : String)
        → Keeps Q (acc.client.find_block_by_source acc.calendar_id account event)
    pub insert_keeps :
        (ev : Option GoogleEvent)
        → e.dry_run ≡ false
        → Keeps Q (acc.client.insert_event acc.calendar_id ev)
    pub update_keeps :
        (event tag : String) (ev : Option GoogleEvent)
        → e.dry_run ≡ false
        → Keeps Q (acc.client.update_event acc.calendar_id event ev tag)
    pub delete_keeps :
        (event tag : String)
        → e.dry_run ≡ false
        → Keeps Q (acc.client.delete_event acc.calendar_id event tag)

  any_listed : (events : List (Option GoogleEvent)) → All (IfSome (λ _. Unit {0})) events
  any_listed [] = tt
  any_listed (none ∷ events) = (tt, any_listed events)
  any_listed (some ev ∷ events) = (tt, any_listed events)

  any_block : (r : Option GoogleEvent) → IfSome (λ _. Unit {0}) r
  any_block none = tt
  any_block (some b) = tt

  plain-Terms :
      (acc : Account W) → CallsKeep acc → Terms e (λ _ _. Unit {0}) (λ _ _ _. Unit {0}) Q acc
  plain-Terms acc calls = record {
    list_keeps = calls.list_keeps;
    list_listed = λ from to w events w' call. any_listed events;
    own_mirrors = λ b own complete. tt;
    find_keeps = calls.find_keeps;
    find_mirrors = λ account event w r w' call. any_block r;
    insert_keeps = λ src ev wet other real. calls.insert_keeps _ wet;
    insert_mirrors = λ src ev w r w' call. any_block r;
    update_keeps = λ src ev b wet other real m stale. calls.update_keeps _ _ _ wet;
    update_mirrors = λ src ev b w r w' m call. any_block r;
    payload_mirrors = λ src ev b m. tt;
    delete_keeps = λ b wet own complete. calls.delete_keeps _ _ wet;
  }

  pub All-plain-Terms :
      (accounts : List (Account W))
      → All CallsKeep accounts
      → All (Terms e (λ _ _. Unit {0}) (λ _ _ _. Unit {0}) Q) accounts
  All-plain-Terms [] calls = tt
  All-plain-Terms (acc ∷ accounts) calls =
      (plain-Terms acc calls.0, All-plain-Terms accounts calls.1)
