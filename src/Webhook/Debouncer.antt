-- ===== src/Webhook/Debouncer.antt =====
-- `Debouncer` of internal/webhook/receiver.go: a burst of notifications becomes one trigger. The
-- mutex makes each call one step; the generation is a uint64.
use calendar_bridge.Base.{ℕ, ◌+◌, ◌%◌, Bool, true, false, Option, none, some, eqb, if◌then◌else◌}
use calendar_bridge.Base.Int.{ℤ, pos, pos_part, leb_ℤ, word_mod}

pub record Debouncer : Type 0 where
  pub interval : ℕ
  -- The generation of the callback that the timer was armed with.
  pub timer : Option ℕ
  pub gen : ℕ
  -- Whether the channel, which holds one trigger, is full.
  pub queued : Bool

unfoldable pub new_debouncer : ℤ → Debouncer
new_debouncer interval = record {
  interval = if leb_ℤ interval (pos 0) then 5_000_000_000 else pos_part interval;
  timer = none;
  gen = 0;
  queued = false;
}

unfoldable pub next_gen : ℕ → ℕ
next_gen gen = (gen + 1) % word_mod

-- The old timer, if there is one, is stopped, and a new one is armed with the new generation.
unfoldable pub notify : Debouncer → Debouncer
notify d = record d { gen = next_gen d.gen; timer = some (next_gen d.gen) }

unfoldable pub fire : ℕ → Debouncer → Debouncer
fire gen d = if eqb gen d.gen then record d { queued = true } else d

-- The run loop takes the trigger from the channel.
unfoldable pub receive : Debouncer → Debouncer
receive d = record d { queued = false }
