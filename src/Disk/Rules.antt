-- ===== src/Disk/Rules.antt =====
-- Rules for the calls of Disk: what a computation makes sure of when it succeeds, and what holds of
-- the disk wherever else it may end.
use calendar_bridge.Base.{String, List, [], ◌∷◌, ◌≡◌, refl}
use calendar_bridge.Fault.{Fault}
use calendar_bridge.Effect.{Result, ok, err}
use calendar_bridge.Disk.{
  Disk, Event, works, breaks, dies, Machine, Outcome, returned, died, Io, answer, after, explained,
  last_of, finally, become, next_call, system,
}

module _ (S : Disk → Type 0) where
  -- A success ends with `P`, and everything else, a crash included, with `S`.
  abbrev pub Ends : {A : Type 0} → (A → Disk → Type 0) → Outcome A × Machine → Type 0
  Ends P (returned (ok a), m) = P a m.disk
  Ends P (returned (err e), m) = S m.disk
  Ends P (died, m) = S m.disk

  Ends-same : (r : Outcome (Unit {0}) × Machine) → Ends (λ _ d. S d) r → S r.1.disk
  Ends-same (returned (ok a), m) h = h
  Ends-same (returned (err e), m) h = h
  Ends-same (died, m) h = h

  pub Ends-after :
      {A B : Type 0} (P : A → Disk → Type 0) (Q : B → Disk → Type 0) (r : Outcome A × Machine)
      (f : A → Io B)
      → Ends P r
      → ((a : A) (m : Machine) → P a m.disk → Ends Q (f a m))
      → Ends Q (after r f)
  Ends-after P Q (returned (ok a), m) f h next = next a m h
  Ends-after P Q (returned (err e), m) f h next = h
  Ends-after P Q (died, m) f h next = h

  pub Ends-explained :
      {A : Type 0} (P : A → Disk → Type 0) (text : Fault → Fault) (r : Outcome A × Machine)
      → Ends P r
      → Ends P (explained text r)
  Ends-explained P text (returned (ok a), m) h = h
  Ends-explained P text (returned (err e), m) h = h
  Ends-explained P text (died, m) h = h

  Ends-last_of :
      {A : Type 0} (P : A → Disk → Type 0) (r : Result A) (cleaned : Outcome (Unit {0}) × Machine)
      → ((a : A) (d : Disk) → P a d → S d)
      → Ends P (returned r, cleaned.1)
      → Ends P (last_of r cleaned)
  Ends-last_of P r (returned x, m) weaken h = h
  Ends-last_of P (ok a) (died, m) weaken h = weaken a m.disk h
  Ends-last_of P (err e) (died, m) weaken h = h

  -- What follows a failure and keeps it.
  pub Ends-last_of_err :
      {A : Type 0} (P : A → Disk → Type 0) (e : Fault) (cleaned : Outcome (Unit {0}) × Machine)
      → S cleaned.1.disk
      → Ends P (last_of (err e) cleaned)
  Ends-last_of_err P e (returned x, m) h = h
  Ends-last_of_err P e (died, m) h = h

  -- A deferred call may keep what there is.
  pub Ends-finally :
      {A : Type 0} (P : A → Disk → Type 0) (cleanup : Io (Unit {0})) (r : Outcome A × Machine)
      → ((a : A) (d : Disk) → P a d → S d)
      → ((a : A) (m : Machine) → P a m.disk → P a (cleanup m).1.disk)
      → ((m : Machine) → S m.disk → S (cleanup m).1.disk)
      → Ends P r
      → Ends P (finally cleanup r)
  Ends-finally P cleanup (returned (ok a), m) weaken keep also h =
      Ends-last_of P (ok a) (cleanup m) weaken (keep a m h)
  Ends-finally P cleanup (returned (err e), m) weaken keep also h =
      Ends-last_of P (err e) (cleanup m) weaken (also m h)
  Ends-finally P cleanup (died, m) weaken keep also h = h

  module _ (place : Fault → Fault) (cut : String → Disk → Disk) (effect : Disk → Disk) where
    Ends-become :
        (P : Disk → Type 0) (e : Event) (m : Machine)
        → P (effect m.disk)
        → ((text : String) → S (cut text m.disk))
        → Ends (λ _ d. P d) (become place cut effect e m)
    unfolding become
    Ends-become P works m h k = h
    Ends-become P (breaks reason text) m h k = k text
    Ends-become P (dies text) m h k = k text

    Ends-next_call :
        (P : Disk → Type 0) (events : List Event) (m : Machine)
        → P (effect m.disk)
        → ((text : String) → S (cut text m.disk))
        → Ends (λ _ d. P d) (next_call place cut effect events m)
    unfolding next_call
    Ends-next_call P [] m h k = Ends-become P works m h k
    Ends-next_call P (e ∷ events) m h k = Ends-become P e (record m { events = events }) h k

    -- A call of the system does what it does, or is cut short.
    pub Ends-system :
        (P : Disk → Type 0) (m : Machine)
        → P (effect m.disk)
        → ((text : String) → S (cut text m.disk))
        → Ends (λ _ d. P d) (system place cut effect m)
    unfolding system
    Ends-system P m h k = Ends-next_call P m.events m h k

-- A call that keeps a property of the disk whether it works or not.
module _ (place : Fault → Fault) (cut : String → Disk → Disk) (effect : Disk → Disk) where
  pub system_keeps :
      (S : Disk → Type 0) (m : Machine)
      → S (effect m.disk)
      → ((text : String) → S (cut text m.disk))
      → S (system place cut effect m).1.disk
  system_keeps S m h k =
      Ends-same S (system place cut effect m) (Ends-system S place cut effect S m h k)

-- What changes the answer leaves the machine.
pub explained-machine :
    {A : Type 0} (text : Fault → Fault) (r : Outcome A × Machine) → (explained text r).1 ≡ r.1
explained-machine text (returned (ok b), m) = refl
explained-machine text (returned (err e), m) = refl
explained-machine text (died, m) = refl

pub after-answer :
    {A B : Type 0} (r : Outcome A × Machine) (f : A → Result B)
    → (after r (λ a. answer (f a))).1 ≡ r.1
after-answer (returned (ok a), m) f = refl
after-answer (returned (err e), m) f = refl
after-answer (died, m) f = refl
