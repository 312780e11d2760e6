-- ===== src/Engine/Safety/Propagate.antt =====
-- Step 2 of `SyncOnce` (internal/sync/sync.go) writes on the terms, and leaves the lists of real and
-- owned events alone.
use mathlib.Core.Logic.{if_pos, if_neg}
use calendar_bridge.Base.{String, List, [], ◌∷◌, All, string_eq}
use calendar_bridge.Base.Dict.{Dict}
use calendar_bridge.Effect.{Result, ok, err}
use calendar_bridge.Calendar.{GoogleEvent}
use calendar_bridge.Engine.Model.{Account, Engine, Outcome, events_of}
use calendar_bridge.Engine.Propagate.{
  Progress, set_index, note_outcome, propagate_pair, propagate_event, propagate_source, propagate,
}
use calendar_bridge.Engine.Safety.Terms.{IsReal, Terms, GoodEvents, Good}
use calendar_bridge.Engine.Safety.Ensure.{Ensured, ensure_block-Ensured}
use calendar_bridge.Engine.Safety.Fetch.{events_of-insert}

module _ {W : Type 0} (e : Engine W) (Listed : String → GoogleEvent → Type 0)
    (Mirrors : String → String → GoogleEvent → Type 0) (Q : W → Type 0) where
  -- Between two calls.
  abbrev pub Fine : Progress × W → Type 0
  Fine r = Good e Listed Mirrors Q r.0.by_account × Q r.1

  note_outcome-Fine :
      (src : Account W) (ev : GoogleEvent) (dst : Account W) (s : Progress)
      (r : Result (Outcome × Dict GoogleEvent) × W)
      → Good e Listed Mirrors Q s.by_account
      → Ensured e Listed Mirrors Q dst.name r
      → Fine (note_outcome src ev dst s r.0, r.1)
  unfolding note_outcome set_index
  note_outcome-Fine src ev dst s (err f, w) good done = (good, done.0)
  note_outcome-Fine src ev dst s (ok (outcome, idx), w) good done = (
    events_of-insert (GoodEvents e Listed Mirrors Q) dst.name _ s.by_account
        (record { real = (good dst.name).real; owned = (good dst.name).owned; index = done.1 })
        good,
    done.0,
  )

  propagate_pair-Fine :
      (src : Account W) (ev : GoogleEvent) (dst : Account W) (s : Progress) (w : W)
      → Terms e Listed Mirrors Q dst
      → IsReal e Listed Mirrors Q src.name ev
      → Fine (s, w)
      → Fine (propagate_pair e src ev dst s w)
  unfolding propagate_pair
  propagate_pair-Fine src ev dst s w terms real (good, q) = elim (string_eq.dec dst.name src.name) [
    | yes same ↦ rw (if_pos _ same) (good, q)
    | no other ↦ rw (if_neg _ other) (
        note_outcome-Fine src ev dst s _ good (
          ensure_block-Ensured e Listed Mirrors Q src ev dst _ terms other real
            (good dst.name).index w q))
  ]

  propagate_event-Fine :
      (src : Account W) (ev : GoogleEvent) (targets : List (Account W)) (s : Progress) (w : W)
      → All (Terms e Listed Mirrors Q) targets
      → IsReal e Listed Mirrors Q src.name ev
      → Fine (s, w)
      → Fine (propagate_event e src ev targets s w)
  unfolding propagate_event
  propagate_event-Fine src ev [] s w terms real fine = fine
  propagate_event-Fine src ev (dst ∷ targets) s w terms real fine =
      propagate_event-Fine src ev targets (propagate_pair e src ev dst s w).0
        (propagate_pair e src ev dst s w).1 terms.1 real
        (propagate_pair-Fine src ev dst s w terms.0 real fine)

  propagate_source-Fine :
      (healthy : List (Account W)) (src : Account W) (events : List GoogleEvent) (s : Progress)
      (w : W)
      → All (Terms e Listed Mirrors Q) healthy
      → All (IsReal e Listed Mirrors Q src.name) events
      → Fine (s, w)
      → Fine (propagate_source e healthy src events s w)
  unfolding propagate_source
  propagate_source-Fine healthy src [] s w terms real fine = fine
  propagate_source-Fine healthy src (ev ∷ events) s w terms real fine =
      propagate_source-Fine healthy src events (propagate_event e src ev healthy s w).0
        (propagate_event e src ev healthy s w).1 terms real.1
        (propagate_event-Fine src ev healthy s w terms real.0 fine)

  pub propagate-Fine :
      (healthy sources : List (Account W)) (s : Progress) (w : W)
      → All (Terms e Listed Mirrors Q) healthy
      → Fine (s, w)
      → Fine (propagate e healthy sources s w)
  unfolding propagate
  propagate-Fine healthy [] s w terms fine = fine
  propagate-Fine healthy (src ∷ sources) s w terms fine =
      let (s', w') = propagate_source e healthy src (events_of src.name s.by_account).real s w in
      propagate-Fine healthy sources s' w' terms
        (propagate_source-Fine healthy src _ s w terms (fine.0 src.name).real fine)
