-- ===== src/Engine/Safety/Collect.antt =====
-- Step 3 of `SyncOnce` (internal/sync/sync.go) deletes on the terms.
use calendar_bridge.Base.{String, List, [], ◌∷◌, All, contains, string_eq, Bool-cases, inl, inr}
use calendar_bridge.Effect.{Result, ok, err}
use calendar_bridge.Calendar.{GoogleEvent, source_identity, index_key}
use calendar_bridge.Engine.Model.{Account, Engine, events_of}
use calendar_bridge.Engine.Propagate.{Progress}
use calendar_bridge.Engine.Collect.{
  account_is_healthy, note_deletion, collect_block, collect_blocks, collect,
}
use calendar_bridge.Engine.Safety.Terms.{IsOwn, Terms, Good}
use calendar_bridge.Engine.Safety.Propagate.{Fine}

module _ {W : Type 0} (e : Engine W) (Listed : String → GoogleEvent → Type 0)
    (Mirrors : String → String → GoogleEvent → Type 0) (Q : W → Type 0) (healthy : List (Account W))
    (live : List String) where
  note_deletion-Fine :
      (dst : Account W) (b : GoogleEvent) (s : Progress) (r : Result (Unit {0})) (w : W)
      → Good e Listed Mirrors Q s.by_account
      → Q w
      → Fine e Listed Mirrors Q (note_deletion dst b s r, w)
  unfolding note_deletion
  note_deletion-Fine dst b s (ok _) w good q = (good, q)
  note_deletion-Fine dst b s (err f) w good q = (good, q)

  collect_block-Fine :
      (dst : Account W) (b : GoogleEvent) (s : Progress) (w : W)
      → Terms e Listed Mirrors Q dst
      → IsOwn e Listed Mirrors Q dst.name b
      → Fine e Listed Mirrors Q (s, w)
      → Fine e Listed Mirrors Q (collect_block e healthy live dst b s w)
  unfolding collect_block
  collect_block-Fine dst b s w terms own (good, q) =
      elim (Bool-cases (source_identity b).complete) [
        | inr incomplete ↦ rw incomplete (good, q)
        | inl complete ↦
            rw complete
              (elim (Bool-cases (account_is_healthy healthy (source_identity b).account)) [
                | inr failed ↦ rw failed (good, q)
                | inl fetched ↦
                    rw fetched
                      (elim (Bool-cases (
                        contains live
                          (index_key (source_identity b).account (source_identity b).event_id))) [
                            | inl alive ↦ rw alive (good, q)
                            | inr stale ↦ rw stale (elim (Bool-cases e.dry_run) [
                              | inl dry ↦ simp dry (good, q)
                              | inr wet ↦ simp wet (
                                  note_deletion-Fine dst b s _ _ good
                                    (terms.delete_keeps b wet own complete w q))
                            ])
                          ])
              ])
      ]

  collect_blocks-Fine :
      (dst : Account W) (blocks : List GoogleEvent) (s : Progress) (w : W)
      → Terms e Listed Mirrors Q dst
      → All (IsOwn e Listed Mirrors Q dst.name) blocks
      → Fine e Listed Mirrors Q (s, w)
      → Fine e Listed Mirrors Q (collect_blocks e healthy live dst blocks s w)
  unfolding collect_blocks
  collect_blocks-Fine dst [] s w terms own fine = fine
  collect_blocks-Fine dst (b ∷ blocks) s w terms own fine =
      collect_blocks-Fine dst blocks (collect_block e healthy live dst b s w).0
        (collect_block e healthy live dst b s w).1 terms own.1
        (collect_block-Fine dst b s w terms own.0 fine)

  pub collect-Fine :
      (targets : List (Account W)) (s : Progress) (w : W)
      → All (Terms e Listed Mirrors Q) targets
      → Fine e Listed Mirrors Q (s, w)
      → Fine e Listed Mirrors Q (collect e healthy live targets s w)
  unfolding collect
  collect-Fine [] s w terms fine = fine
  collect-Fine (dst ∷ targets) s w terms fine =
      let (s', w') =
        collect_blocks e healthy live dst (events_of dst.name s.by_account).owned s w in
      collect-Fine targets s' w' terms.1
        (collect_blocks-Fine dst _ s w terms.0 (fine.0 dst.name).owned fine)
