-- ===== src/Webhook/Balance.antt =====
-- No channel of internal/webhook/manager.go is left open: what `Run` registers it also stops.
use mathlib.Core.List.{Memᴰ}
use mathlib.Core.Path.{subst}
use calendar_bridge.Base.{
  ◌+◌, ◌≡◌, ◌≢◌, refl, sym, ◌∙◌, String, Bool, Option, none, some, List, [], ◌∷◌, map, Bool-cases,
  inl, inr, string_eq, arith,
}
use calendar_bridge.Base.Int.{ℤ}
use calendar_bridge.Base.Dict
use calendar_bridge.Base.Dict.{Dict}
use calendar_bridge.Effect.{Result, ok, err}
use calendar_bridge.Webhook.Manager.{
  Channel, Target, ChannelWatcher, Manager, new_manager, key, note_channel, register, register_all,
  stop_old, after_register, needs_renew, renew_target, renew_expiring, stop_channels, stop_all,
  renew_at, run,
}
use calendar_bridge.Webhook.Ledger.{
  Ledger, later, note_opened, counting, held, held-insert_at, lookup-nil, target_key, Distinct,
  IsClosed, empty_ledger,
}

-- What was registered and is not to be stopped yet are the channels that the manager has.
abbrev Balanced : {W : Type 0} → (Channel → Bool) → Dict Channel → Ledger W → Type 0
Balanced test d l = l.opened ≡ l.stopped + held test d

module _ {W : Type 0} (test : Channel → Bool) (watcher : ChannelWatcher W)
    (callback_url token : String) (ttl : ℤ) where
  abbrev managed : Dict Channel → Manager (Ledger W)
  managed d = record (new_manager (counting test watcher) callback_url token ttl) { channels = d }

  abbrev IsBalanced : Manager (Ledger W) × Ledger W → Type 0
  IsBalanced (m, l) = (d : Dict Channel) × (m ≡ managed d) × Balanced test d l

  renewed :
      (t : Target) (d : Dict Channel) (l : Ledger W) (r : Result Channel × W) (old : Option Channel)
      → old ≡ Dict.lookup (key t.account t.calendar_id) d
      → Balanced test d l
      → IsBalanced (
          after_register old (
            note_channel (managed d) t r.0,
            record l { opened = note_opened test r.0 l.opened; world = r.1 },
          ))
  unfolding after_register note_channel stop_old counting new_manager
  renewed t d l (err e, w) old at_key balanced = (d, refl, balanced)
  renewed t d l (ok ch, w) none at_key balanced =
      let k = key t.account t.calendar_id in
      let inserted = held-insert_at test k ch d none at_key in
      (Dict.insert k ch d, refl, omega arith)
  renewed t d l (ok ch, w) (some c) at_key balanced =
      let k = key t.account t.calendar_id in
      let inserted = held-insert_at test k ch d (some c) at_key in
      (Dict.insert k ch d, refl, omega arith)

  renew_target-IsBalanced :
      (now : ℤ) (t : Target) (d : Dict Channel) (l : Ledger W)
      → Balanced test d l
      → IsBalanced (renew_target now t (managed d) l)
  unfolding renew_target register counting new_manager
  renew_target-IsBalanced now t d l balanced =
      elim (Bool-cases
        (needs_renew now (managed d) (Dict.lookup (key t.account t.calendar_id) d))) [
          | inl due ↦ rw due (
              renewed t d l (watcher.watch t.account t.calendar_id callback_url token ttl l.world) _
                refl balanced)
          | inr fresh ↦ rw fresh (d, refl, balanced)
        ]

  -- A step from a manager like this to the rest of a run.
  then-IsBalanced :
      (m : Manager (Ledger W)) (l : Ledger W)
      (f : Manager (Ledger W) → Ledger W → Manager (Ledger W) × Ledger W)
      → IsBalanced (m, l)
      → ((d : Dict Channel) (l : Ledger W) → Balanced test d l → IsBalanced (f (managed d) l))
      → IsBalanced (f m l)
  then-IsBalanced m l f (d, same, balanced) rest = rw same (rest d l balanced)

  renew_expiring-IsBalanced :
      (now : ℤ) (targets : List Target) (d : Dict Channel) (l : Ledger W)
      → Balanced test d l
      → IsBalanced (renew_expiring now targets (managed d) l)
  unfolding renew_expiring
  renew_expiring-IsBalanced now [] d l balanced = (d, refl, balanced)
  renew_expiring-IsBalanced now (t ∷ targets) d l balanced =
      then-IsBalanced _ _ (renew_expiring now targets) (renew_target-IsBalanced now t d l balanced)
        (renew_expiring-IsBalanced now targets)

  renew_at-IsBalanced :
      (time_of : W → ℤ) (targets : List Target) (ticks : List (W → W)) (d : Dict Channel)
      (l : Ledger W)
      → Balanced test d l
      → IsBalanced (renew_at (λ l. time_of l.world) targets (map later ticks) (managed d) l)
  unfolding renew_at
  renew_at-IsBalanced time_of targets [] d l balanced = (d, refl, balanced)
  renew_at-IsBalanced time_of targets (tick ∷ ticks) d l balanced =
      then-IsBalanced _ _ (renew_at (λ l. time_of l.world) targets (map later ticks))
        (renew_expiring-IsBalanced _ targets d (later tick l) balanced)
        (renew_at-IsBalanced time_of targets ticks)

  -- Stopping these channels stops each of them once.
  stop_channels-stopped :
      (d : Dict Channel) (l : Ledger W)
      → ((stop_channels (counting test watcher) (map (λ entry. entry.1) d) l).stopped
          ≡ l.stopped + held test d)
        × ((stop_channels (counting test watcher) (map (λ entry. entry.1) d) l).opened ≡ l.opened)
  unfolding stop_channels counting
  stop_channels-stopped [] l = (omega arith, refl)
  stop_channels-stopped ((k, ch) ∷ d) l =
      let (stopped, opened) = stop_channels-stopped d _ in (stopped ∙ omega arith, opened)

  stop_all-IsClosed :
      (r : Manager (Ledger W) × Ledger W)
      → IsBalanced r
      → (stop_all r.0 r.1).1.opened ≡ (stop_all r.0 r.1).1.stopped
  unfolding stop_all new_manager
  stop_all-IsClosed (m, l) (d, same, balanced) =
      let (stopped, opened) = stop_channels-stopped d l in rw same (opened ∙ balanced ∙ sym stopped)

  registered :
      (t : Target) (d : Dict Channel) (l : Ledger W) (r : Result Channel × W)
      → Dict.lookup (target_key t) d ≡ none
      → Balanced test d l
      → (after : Dict Channel) × ((note_channel (managed d) t r.0).1 ≡ managed after)
        × Balanced test after (record l { opened = note_opened test r.0 l.opened; world = r.1 })
        × ((u : String) → target_key t ≢ u → Dict.lookup u after ≡ Dict.lookup u d)
  unfolding note_channel new_manager counting
  registered t d l (err e, w) absent balanced = (d, refl, balanced, λ u other. refl)
  registered t d l (ok ch, w) absent balanced =
      let k = target_key t in
      let inserted = held-insert_at test k ch d none (sym absent) in
      (Dict.insert k ch d, refl, omega arith, λ u other. Dict.lookup-insert_ne k u ch d other)

  register_all-IsBalanced :
      (targets : List Target) (d : Dict Channel) (l : Ledger W)
      → Distinct targets
      → ((u : Target) → Memᴰ u targets → Dict.lookup (target_key u) d ≡ none)
      → Balanced test d l
      → IsBalanced (register_all targets (managed d) l)
  unfolding register_all register counting new_manager
  register_all-IsBalanced [] d l distinct absent balanced = (d, refl, balanced)
  register_all-IsBalanced (t ∷ targets) d l (others, distinct) absent balanced =
      let r = watcher.watch t.account t.calendar_id callback_url token ttl l.world in
      let (after, same, still, rest) = registered t d l r (absent t (Memᴰ.head refl)) balanced in
      subst
        (λ m. IsBalanced (
          register_all targets m
            (record l { opened = note_opened test r.0 l.opened; world = r.1 })))
        (sym same)
        (register_all-IsBalanced targets after _ distinct
          (λ u here. rest (target_key u) (others u here) ∙ absent u (Memᴰ.tail here)) still)

  -- `Run` on targets with different keys stops each channel that it has registered, at a renewal or at
  -- its end, whatever the calls of the watcher answer and however often the channels are renewed.
  pub run-IsClosed :
      (time_of : W → ℤ) (targets : List Target) (ticks : List (W → W)) (w : W)
      → Distinct targets
      → IsClosed
          (run
            (λ l. time_of l.world)
            targets
            (map later ticks)
            (new_manager (counting test watcher) callback_url token ttl)
            (empty_ledger w)).1
  unfolding run new_manager
  run-IsClosed time_of targets ticks w distinct = stop_all-IsClosed _ (
      then-IsBalanced _ _ (renew_at (λ l. time_of l.world) targets (map later ticks))
        (register_all-IsBalanced targets [] (empty_ledger w) distinct (λ u here. absent u) refl)
        (renew_at-IsBalanced time_of targets ticks))
    where
      absent : (u : Target) → ◌≡◌ {A = Option Channel} (Dict.lookup (target_key u) []) none
      absent u = lookup-nil (target_key u)
