-- ===== src/Engine/Safety/Ensure.antt =====
-- `ensureBlock` (internal/sync/sync.go) writes on the terms, and keeps the index truthful.
use calendar_bridge.Base.{
  ◌≡◌, ◌≢◌, refl, String, Option, none, some, Bool-cases, inl, inr, string_eq,
}
use calendar_bridge.Base.Dict
use calendar_bridge.Base.Dict.{Dict}
use calendar_bridge.Effect.{Result, ok, err, continue, pure}
use calendar_bridge.Calendar.{GoogleEvent, index_key}
use calendar_bridge.Engine.Model.{Account, Engine, Outcome, created, updated}
use calendar_bridge.Engine.Ensure.{
  is_up_to_date, updated_block, remember, or_payload, find_from, find_existing, ensure_from,
  ensure_block,
}
use calendar_bridge.Engine.Safety.Terms.{IfSome, IsReal, Terms, GoodIndex}

module _ {W : Type 0} (e : Engine W) (Listed : String → GoogleEvent → Type 0)
    (Mirrors : String → String → GoogleEvent → Type 0) (Q : W → Type 0) where
  -- What a call of `ensureBlock` on an account leaves.
  abbrev pub Ensured : String → Result (Outcome × Dict GoogleEvent) × W → Type 0
  Ensured name (ok (outcome, idx), w) = Q w × GoodIndex e Listed Mirrors Q name idx
  Ensured name (err _, w) = Q w × Unit {0}

  GoodIndex-insert :
      (name key : String) (b : GoogleEvent) (idx : Dict GoogleEvent)
      → Mirrors name key b
      → GoodIndex e Listed Mirrors Q name idx
      → GoodIndex e Listed Mirrors Q name (Dict.insert key b idx)
  GoodIndex-insert name key b idx m good = Dict.insert_entries (Mirrors name) key b idx m good

  GoodIndex-remember :
      (name key : String) (r : Option GoogleEvent) (idx : Dict GoogleEvent)
      → IfSome (Mirrors name key) r
      → GoodIndex e Listed Mirrors Q name idx
      → GoodIndex e Listed Mirrors Q name (remember key r idx)
  unfolding remember
  GoodIndex-remember name key none idx m good = good
  GoodIndex-remember name key (some b) idx m good = GoodIndex-insert name key b idx m good

  module _ (src : Account W) (ev : GoogleEvent) (dst : Account W) (idx : Dict GoogleEvent)
      (terms : Terms e Listed Mirrors Q dst) (other : dst.name ≢ src.name)
      (real : IsReal e Listed Mirrors Q src.name ev)
      (good : GoodIndex e Listed Mirrors Q dst.name idx) where
    updated-Ensured :
        (b : GoogleEvent) (r : Result (Option GoogleEvent) × W)
        → Mirrors dst.name (index_key src.name ev.id) b
        → Q r.1
        → ((x : Option GoogleEvent) (w : W)
            → r ≡ (ok x, w)
            → IfSome (Mirrors dst.name (index_key src.name ev.id)) x)
        → Ensured dst.name (
            continue r λ result. pure (
              updated,
              Dict.insert
                  (index_key src.name ev.id)
                  (or_payload (updated_block e.block_title ev b) result)
                  idx,
            ))
    updated-Ensured b (err f, w) m q returned = (q, tt)
    updated-Ensured b (ok none, w) m q returned =
        (q, GoodIndex-insert dst.name _ _ idx (terms.payload_mirrors src ev b m) good)
    updated-Ensured b (ok (some x), w) m q returned =
        (q, GoodIndex-insert dst.name _ x idx (returned (some x) w refl) good)

    created-Ensured :
        (r : Result (Option GoogleEvent) × W)
        → Q r.1
        → ((x : Option GoogleEvent) (w : W)
            → r ≡ (ok x, w)
            → IfSome (Mirrors dst.name (index_key src.name ev.id)) x)
        → Ensured dst.name
            (continue r λ result. pure (created, remember (index_key src.name ev.id) result idx))
    created-Ensured (err f, w) q returned = (q, tt)
    created-Ensured (ok x, w) q returned =
        (q, GoodIndex-remember dst.name _ x idx (returned x w refl) good)

    ensure_from-Ensured :
        (existing : Option GoogleEvent) (w : W)
        → IfSome (Mirrors dst.name (index_key src.name ev.id)) existing
        → Q w
        → Ensured dst.name (ensure_from e src ev dst idx existing w)
    unfolding ensure_from
    ensure_from-Ensured none w m q = elim (Bool-cases e.dry_run) [
      | inl dry ↦ rw dry (q, good)
      | inr wet ↦ rw wet (
          created-Ensured _ (terms.insert_keeps src ev wet other real w q)
            (terms.insert_mirrors src ev w))
    ]
    ensure_from-Ensured (some b) w m q = elim (Bool-cases (is_up_to_date e.block_title ev b)) [
      | inl same ↦ rw same (q, good)
      | inr stale ↦ rw stale (elim (Bool-cases e.dry_run) [
        | inl dry ↦ rw dry (q, good)
        | inr wet ↦ rw wet (
            updated-Ensured b _ m (terms.update_keeps src ev b wet other real m stale w q)
              (λ x w' call. terms.update_mirrors src ev b w x w' m call))
      ])
    ]

    found-Ensured :
        (r : Result (Option GoogleEvent) × W)
        → Q r.1
        → ((x : Option GoogleEvent) (w : W)
            → r ≡ (ok x, w)
            → IfSome (Mirrors dst.name (index_key src.name ev.id)) x)
        → Ensured dst.name (continue r (ensure_from e src ev dst idx))
    found-Ensured (err f, w) q mirrors = (q, tt)
    found-Ensured (ok x, w) q mirrors = ensure_from-Ensured x w (mirrors x w refl) q

    pub ensure_block-Ensured : (w : W) → Q w → Ensured dst.name (ensure_block e src ev dst idx w)
    unfolding ensure_block find_existing find_from
    ensure_block-Ensured w q = go (Dict.lookup (index_key src.name ev.id) idx) refl
      where
        go :
            (b : Option GoogleEvent)
            → Dict.lookup (index_key src.name ev.id) idx ≡ b
            → Ensured dst.name (ensure_block e src ev dst idx w)
        go none miss = rw miss (
            found-Ensured _ (terms.find_keeps src.name ev.id w q)
              (terms.find_mirrors src.name ev.id w))
        go (some b) hit = rw hit (ensure_from-Ensured (some b) w (good _ b hit) q)
