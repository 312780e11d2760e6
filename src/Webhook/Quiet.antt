-- ===== src/Webhook/Quiet.antt =====
-- The debouncer of internal/webhook/receiver.go among its timers: callbacks run late, more than once,
-- or although their timer was stopped, and in any order; but none runs before its time.
use mathlib.Core.List.{Memᴰ}
use mathlib.Core.Path.{subst}
use calendar_bridge.Base.{
  ℕ, ◌+◌, ◌%◌, ◌≤◌, ◌<◌, ◌≡◌, refl, sym, ap, ◌∙◌, true, ◌⊎◌, inl, inr, List, [], ◌∷◌, All, arith,
}
use calendar_bridge.Base.Int.{ℤ, word_mod}
use calendar_bridge.Webhook.Debouncer.{Debouncer, new_debouncer, next_gen, notify, fire, receive}

-- A callback that `time.AfterFunc` was given, and the number of the notification that gave it.
pub record Callback : Type 0 where
  pub gen : ℕ
  pub due : ℕ
  pub number : ℕ

-- The debouncer, the callbacks so far, the clock, and the number and the time of the last
-- notification.
pub record Moment : Type 0 where
  pub debouncer : Debouncer
  pub callbacks : List Callback
  pub now : ℕ
  pub count : ℕ
  pub last : ℕ

abbrev pub begin : ℤ → Moment
begin interval = record {
  debouncer = new_debouncer interval;
  callbacks = [];
  now = 0;
  count = 0;
  last = 0;
}

-- The callback that `Notify` hands to the timer.
abbrev pub armed : Moment → Callback
armed m = record {
  gen = next_gen m.debouncer.gen;
  due = m.now + m.debouncer.interval;
  number = m.count + 1;
}

abbrev pub notified : Moment → Moment
notified m = record m {
  debouncer = notify m.debouncer;
  callbacks = armed m ∷ m.callbacks;
  count = m.count + 1;
  last = m.now;
}

abbrev pub waited : ℕ → Moment → Moment
waited d m = record m { now = m.now + d }

abbrev pub ran : Callback → Moment → Moment
ran c m = record m { debouncer = fire c.gen m.debouncer }

abbrev pub received : Moment → Moment
received m = record m { debouncer = receive m.debouncer }

pub data Reachable (interval : ℤ) : Moment → Type 0 where
  start : Reachable interval (begin interval)
  notifies : {m : Moment} → Reachable interval m → Reachable interval (notified m)
  waits : {m : Moment} (d : ℕ) → Reachable interval m → Reachable interval (waited d m)
  runs :
      {m : Moment} {c : Callback}
      → Memᴰ c m.callbacks
      → c.due ≤ m.now
      → Reachable interval m
      → Reachable interval (ran c m)
  receives : {m : Moment} → Reachable interval m → Reachable interval (received m)

-- What is known of a callback.
pub record Known (m : Moment) (c : Callback) : Type 0 where
  pub gen : c.gen ≡ c.number % word_mod
  pub number : c.number ≤ m.count
  pub due : (c.number < m.count) ⊎ (c.due ≡ m.last + m.debouncer.interval)

pub record Invariant (m : Moment) : Type 0 where
  pub gen : m.debouncer.gen ≡ m.count % word_mod
  pub callbacks : All (Known m) m.callbacks

fire-fields :
    (g : ℕ) (d : Debouncer) → ((fire g d).gen ≡ d.gen) × ((fire g d).interval ≡ d.interval)
unfolding fire
fire-fields g d = ground arith

notify-fields :
    (d : Debouncer) → ((notify d).gen ≡ next_gen d.gen) × ((notify d).interval ≡ d.interval)
unfolding notify
notify-fields d = (refl, refl)

receive-fields : (d : Debouncer) → ((receive d).gen ≡ d.gen) × ((receive d).interval ≡ d.interval)
unfolding receive
receive-fields d = (refl, refl)

next_gen-mod : (n : ℕ) → next_gen (n % word_mod) ≡ (n + 1) % word_mod
unfolding next_gen
next_gen-mod n = omega arith

-- A step that changes neither the counts nor the debouncer's generation and interval.
carried :
    (m : Moment) (now : ℕ) (d : Debouncer)
    → d.gen ≡ m.debouncer.gen
    → d.interval ≡ m.debouncer.interval
    → Invariant m
    → Invariant (record m { now = now; debouncer = d })
carried m now d gen interval inv = record {
  gen = gen ∙ inv.gen;
  callbacks = carry m.callbacks inv.callbacks;
}
  where
    same_due :
        (c : Callback)
        → (c.number < m.count) ⊎ (c.due ≡ m.last + m.debouncer.interval)
        → (c.number < m.count) ⊎ (c.due ≡ m.last + d.interval)
    same_due c (inl older) = inl older
    same_due c (inr same) = inr (omega (arith, same, interval))

    carry :
        (cs : List Callback)
        → All (Known m) cs
        → All (Known (record m { now = now; debouncer = d })) cs
    carry [] known = tt
    carry (c ∷ cs) known = (
      record { gen = known.0.gen; number = known.0.number; due = same_due c known.0.due },
      carry cs known.1,
    )

outdated : (m : Moment) (cs : List Callback) → All (Known m) cs → All (Known (notified m)) cs
outdated m [] known = tt
outdated m (c ∷ cs) known = (
  record {
    gen = known.0.gen;
    number = omega (arith, known.0.number);
    due = inl (omega (arith, known.0.number));
  },
  outdated m cs known.1,
)

Reachable-Invariant : (interval : ℤ) (m : Moment) → Reachable interval m → Invariant m
unfolding new_debouncer
Reachable-Invariant interval m start = record { gen = refl; callbacks = tt }
Reachable-Invariant interval m (notifies {m = before} r) =
    let inv = Reachable-Invariant interval before r in
    record {
      gen = (notify-fields before.debouncer).0 ∙ (ap next_gen inv.gen ∙ next_gen-mod before.count);
      callbacks = (
        record {
          gen = ap next_gen inv.gen ∙ next_gen-mod before.count;
          number = omega arith;
          due = inr (ap (λ x. before.now + x) (sym (notify-fields before.debouncer).1));
        },
        outdated before before.callbacks inv.callbacks,
      );
    }
Reachable-Invariant interval m (waits {m = before} d r) =
    carried before (before.now + d) before.debouncer refl refl
      (Reachable-Invariant interval before r)
Reachable-Invariant interval m (runs {m = before} {c} here due r) =
    carried before before.now (fire c.gen before.debouncer) (fire-fields c.gen before.debouncer).0
      (fire-fields c.gen before.debouncer).1 (Reachable-Invariant interval before r)
Reachable-Invariant interval m (receives {m = before} r) =
    carried before before.now (receive before.debouncer) (receive-fields before.debouncer).0
      (receive-fields before.debouncer).1 (Reachable-Invariant interval before r)

Known-of :
    {m : Moment} {c : Callback} {cs : List Callback} → Memᴰ c cs → All (Known m) cs → Known m c
Known-of {m} (Memᴰ.head p) known = subst (Known m) (sym p) known.0
Known-of (Memᴰ.tail here) known = Known-of here known.1

fire-cases : (g : ℕ) (d : Debouncer) → (fire g d ≡ d) ⊎ (g ≡ d.gen)
unfolding fire
fire-cases g d = ground arith

-- However the timers behave, a callback that runs at its time or later leaves the debouncer as it is,
-- or a whole interval has passed since the last notification; if there were fewer than 2^64
-- notifications, after which the generations repeat.
pub fire-quiet :
    (interval : ℤ) (m : Moment) (c : Callback)
    → Reachable interval m
    → Memᴰ c m.callbacks
    → c.due ≤ m.now
    → m.count < word_mod
    → (fire c.gen m.debouncer ≡ m.debouncer) ⊎ (m.last + m.debouncer.interval ≤ m.now)
fire-quiet interval m c r here due few = elim (fire-cases c.gen m.debouncer) [
  | inl same ↦ inl same
  | inr latest ↦ inr (omega (arith, known.gen, known.number, known.due, inv.gen))
]
  where
    inv : Invariant m
    inv = Reachable-Invariant interval m r

    known : Known m c
    known = Known-of here inv.callbacks

-- What may follow a notification before the next one.
pub data Follows (m : Moment) : Moment → Type 0 where
  at_once : Follows m m
  waits : {t : Moment} (d : ℕ) → Follows m t → Follows m (waited d t)
  runs :
      {t : Moment} {c : Callback}
      → Memᴰ c t.callbacks
      → c.due ≤ t.now
      → Follows m t
      → Follows m (ran c t)
  receives : {t : Moment} → Follows m t → Follows m (received t)

Follows-fields :
    (m t : Moment) → Follows m t → (t.callbacks ≡ m.callbacks) × (t.debouncer.gen ≡ m.debouncer.gen)
Follows-fields m t at_once = (refl, refl)
Follows-fields m t (waits {t = before} d f) = Follows-fields m before f
Follows-fields m t (runs {t = before} {c} here due f) = (
  (Follows-fields m before f).0,
  (fire-fields c.gen before.debouncer).0 ∙ (Follows-fields m before f).1,
)
Follows-fields m t (receives {t = before} f) = (
  (Follows-fields m before f).0,
  (receive-fields before.debouncer).0 ∙ (Follows-fields m before f).1,
)

fire-queued : (g : ℕ) (d : Debouncer) → g ≡ d.gen → (fire g d).queued ≡ true
unfolding fire
fire-queued g d same = ground arith

-- No notification is lost: until the next one, whatever runs and whatever the run loop takes, the
-- callback of this one is with the timers, and its run leaves a trigger in the channel.
pub armed-Follows :
    (m t : Moment)
    → Follows (notified m) t
    → Memᴰ (armed m) t.callbacks × ((fire (armed m).gen t.debouncer).queued ≡ true)
armed-Follows m t f =
    let (callbacks, gen) = Follows-fields (notified m) t f in
    (
      subst (Memᴰ (armed m)) (sym callbacks) (Memᴰ.head refl),
      fire-queued _ t.debouncer (sym (gen ∙ (notify-fields m.debouncer).0)),
    )
