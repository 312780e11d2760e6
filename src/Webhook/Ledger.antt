-- ===== src/Webhook/Ledger.antt =====
-- A ledger of the channels that the manager of internal/webhook/manager.go registers and stops.
use mathlib.Core.List.{Memᴰ}
use calendar_bridge.Base.{
  ℕ, ◌+◌, ◌≡◌, ◌≢◌, refl, String, Bool, true, false, Option, none, some, List, [], ◌∷◌, string_eq,
  arith,
}
use calendar_bridge.Base.Dict
use calendar_bridge.Base.Dict.{Dict}
use calendar_bridge.Effect.{Result, ok, err}
use calendar_bridge.Webhook.Manager.{Channel, Target, ChannelWatcher, key}

abbrev pub one_if : Bool → ℕ
one_if true = 1
one_if false = 0

-- A world with the numbers of the channels that were registered and that were to be stopped, of those
-- for which the test holds.
pub record Ledger (W : Type 0) : Type 0 where
  pub opened : ℕ
  pub stopped : ℕ
  pub world : W

pub lookup-nil : (k : String) → ◌≡◌ {A = Option Channel} (Dict.lookup k []) none
unfolding Dict.lookup
lookup-nil k = refl

-- What happens between two ticks does not touch the ledger.
abbrev pub later : {W : Type 0} → (W → W) → Ledger W → Ledger W
later tick l = record l { world = tick l.world }

module _ (test : Channel → Bool) where
  abbrev pub note_opened : Result Channel → ℕ → ℕ
  note_opened (ok ch) n = n + one_if (test ch)
  note_opened (err e) n = n

  abbrev pub held : Dict Channel → ℕ
  held [] = 0
  held ((k, ch) ∷ d) = one_if (test ch) + held d

  abbrev pub one_if_some : Option Channel → ℕ
  one_if_some none = 0
  one_if_some (some ch) = one_if (test ch)

  held-insert :
      (k : String) (ch : Channel) (d : Dict Channel)
      → held (Dict.insert k ch d) + one_if_some (Dict.lookup k d) ≡ held d + one_if (test ch)
  unfolding Dict.insert Dict.lookup
  held-insert k ch [] = omega arith
  held-insert k ch ((j, c) ∷ d) = ground (arith, held-insert k ch d)

  pub held-insert_at :
      (k : String) (ch : Channel) (d : Dict Channel) (old : Option Channel)
      → old ≡ Dict.lookup k d
      → held (Dict.insert k ch d) + one_if_some old ≡ held d + one_if (test ch)
  held-insert_at k ch d old at_key = rw at_key (held-insert k ch d)

module _ {W : Type 0} (test : Channel → Bool) where
  -- The watcher, with its calls in the ledger.
  unfoldable pub counting : ChannelWatcher W → ChannelWatcher (Ledger W)
  counting watcher = record {
    watch = λ account calendar_id callback_url token ttl l.
        let (r, w) = watcher.watch account calendar_id callback_url token ttl l.world in
        (r, record l { opened = note_opened test r l.opened; world = w });
    stop = λ ch l.
        let (r, w) = watcher.stop ch l.world in
        (r, record l { stopped = l.stopped + one_if (test ch); world = w });
  }

abbrev pub target_key : Target → String
target_key t = key t.account t.calendar_id

-- No two of the targets have the same key.
abbrev pub Distinct : List Target → Type 0
Distinct [] = Unit
Distinct (t ∷ targets) =
    ((u : Target) → Memᴰ u targets → target_key t ≢ target_key u) × Distinct targets

-- As many channels were to be stopped as were registered, of those for which the test holds.
abbrev pub IsClosed : {W : Type 0} → Ledger W → Type 0
IsClosed l = l.opened ≡ l.stopped

abbrev pub empty_ledger : {W : Type 0} → W → Ledger W
empty_ledger w = record { opened = 0; stopped = 0; world = w }
