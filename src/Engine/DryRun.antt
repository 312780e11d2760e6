-- ===== src/Engine/DryRun.antt =====
-- A dry run (`Engine.DryRun`, internal/sync/sync.go) only reads.
use calendar_bridge.Base.{◌≡◌, String, true, List, [], ◌∷◌, All}
use calendar_bridge.Base.Int.{ℤ}
use calendar_bridge.Effect.{Keeps}
use calendar_bridge.Engine.Model.{Account, Engine}
use calendar_bridge.Engine.Pass.{sync_once}
use calendar_bridge.Engine.Safety.Plain.{CallsKeep, All-plain-Terms}
use calendar_bridge.Engine.Safety.Pass.{sync_once_keeps}

-- The two kinds of read keep `Q`.
pub record ReadsKeep {W : Type 0} (Q : W → Type 0) (acc : Account W) : Type 0 where
  pub list_keeps : (from to : ℤ) → Keeps Q (acc.client.list_events acc.calendar_id from to)
  pub find_keeps :
      (account event : String)
      → Keeps Q (acc.client.find_block_by_source acc.calendar_id account event)

module _ {W : Type 0} (e : Engine W) (Q : W → Type 0) (dry : e.dry_run ≡ true) where
  dry-CallsKeep : (acc : Account W) → ReadsKeep Q acc → CallsKeep e Q acc
  dry-CallsKeep acc reads = record {
    list_keeps = reads.list_keeps;
    find_keeps = reads.find_keeps;
    insert_keeps = λ ev wet. cc (wet, dry);
    update_keeps = λ event tag ev wet. cc (wet, dry);
    delete_keeps = λ event tag wet. cc (wet, dry);
  }

  All-dry-CallsKeep :
      (accounts : List (Account W)) → All (ReadsKeep Q) accounts → All (CallsKeep e Q) accounts
  All-dry-CallsKeep [] reads = tt
  All-dry-CallsKeep (acc ∷ accounts) reads =
      (dry-CallsKeep acc reads.0, All-dry-CallsKeep accounts reads.1)

  -- A dry run keeps whatever the reads of its accounts keep, so it makes no other call: in
  -- particular no insert, update or delete.
  pub sync_once-dry_run : All (ReadsKeep Q) e.accounts → (w : W) → Q w → Q (sync_once e w).1
  sync_once-dry_run reads w q =
      sync_once_keeps e _ _ Q (All-plain-Terms e Q e.accounts (All-dry-CallsKeep e.accounts reads))
        w q
