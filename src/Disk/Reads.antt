-- ===== src/Disk/Reads.antt =====
-- What opening and reading a file can come to, and that they change no file.
use mathlib.Core.List.{Memᴰ}
use calendar_bridge.Base.{◌≡◌, refl, ◌∙◌, String, Option, none, some, List, [], ◌∷◌}
use calendar_bridge.Base.Dict
use calendar_bridge.Fault.{message, not_exist, path_error}
use calendar_bridge.Effect.{ok, err}
use calendar_bridge.Disk.{
  File, Event, works, breaks, dies, Machine, Outcome, returned, died, answer, after, nothing,
  become, next_call, system, touch, opened, open_file, contents_of, read_file,
}

-- One of the next calls on this machine fails for this reason.
abbrev pub Fails : String → Machine → Type 0
Fails reason m = (text : String) × Memᴰ (breaks reason text) m.events

-- The machine `n` is what `m` has become by calls that changed no file.
pub record Later (m n : Machine) : Type 0 where
  pub same_disk : n.disk ≡ m.disk
  pub later_fails : (reason : String) → Fails reason n → Fails reason m

pub Later-refl : (m : Machine) → Later m m
Later-refl m = record { same_disk = refl; later_fails = λ reason fails. fails }

pub Later-trans : {l m n : Machine} → Later l m → Later m n → Later l n
Later-trans first second = record {
  same_disk = second.same_disk ∙ first.same_disk;
  later_fails = λ reason fails. first.later_fails reason (second.later_fails reason fails);
}

-- The outcome of a call that changes nothing.
pub data Touched (path : String) (m : Machine) : Outcome (Unit {0}) × Machine → Type 0 where
  whole : (n : Machine) → Later m n → Touched path m (returned (ok tt), n)
  cut :
      (reason : String) (n : Machine)
      → Later m n
      → Fails reason m
      → Touched path m (returned (err (path_error path (message reason))), n)
  halted : (n : Machine) → Later m n → Touched path m (died, n)

dropped :
    (m : Machine) (e : Event) (events : List Event)
    → m.events ≡ e ∷ events
    → Later m (record m { events = events })
dropped m e events same = record {
  same_disk = refl;
  later_fails = λ reason (text, here). (text, rw same (Memᴰ.tail here));
}

next_call-Touched :
    (path : String) (m : Machine) (events : List Event)
    → m.events ≡ events
    → Touched path m (next_call (path_error path) nothing (λ d. d) events m)
unfolding next_call become
next_call-Touched path m [] same = whole m (Later-refl m)
next_call-Touched path m (works ∷ events) same = whole _ (dropped m works events same)
next_call-Touched path m (breaks reason text ∷ events) same =
    cut reason _ (dropped m (breaks reason text) events same) (text, rw same (Memᴰ.head refl))
next_call-Touched path m (dies text ∷ events) same = halted _ (dropped m (dies text) events same)

pub touch-Touched : (path : String) (m : Machine) → Touched path m (touch path m)
unfolding touch system
touch-Touched path m = next_call-Touched path m m.events refl

-- The outcome of reading a file from this machine, and the machine after it.
pub data Reads (path : String) (m : Machine) : Outcome String × Machine → Type 0 where
  missing :
      (n : Machine)
      → Later m n
      → Dict.lookup path m.disk.live ≡ none
      → Reads path m (returned (err (path_error path not_exist)), n)
  found :
      (f : File) (n : Machine)
      → Later m n
      → Dict.lookup path m.disk.live ≡ some f
      → Reads path m (returned (ok f.contents), n)
  broken :
      (f : File) (reason : String) (n : Machine)
      → Later m n
      → Dict.lookup path m.disk.live ≡ some f
      → Fails reason m
      → Reads path m (returned (err (path_error path (message reason))), n)
  crashed : (n : Machine) → Later m n → Reads path m (died, n)

Touched-Reads :
    (path : String) (m : Machine) (f : File) (r : Outcome (Unit {0}) × Machine)
    → Dict.lookup path m.disk.live ≡ some f
    → Touched path m r
    → Reads path m (after r (λ _. answer (ok f.contents)))
Touched-Reads path m f _ there (whole n later) = found f n later there
Touched-Reads path m f _ there (cut reason n later fails) = broken f reason n later there fails
Touched-Reads path m f _ there (halted n later) = crashed n later

contents_of-Reads :
    (path : String) (entry : Option File) (m : Machine)
    → Dict.lookup path m.disk.live ≡ entry
    → Reads path m (contents_of path entry m)
unfolding contents_of
contents_of-Reads path none m there = missing m (Later-refl m) there
contents_of-Reads path (some f) m there =
    Touched-Reads path m f (touch path m) there (touch-Touched path m)

pub read_file-Reads : (path : String) (m : Machine) → Reads path m (read_file path m)
unfolding read_file
read_file-Reads path m = contents_of-Reads path _ m refl

Reads-disk :
    (path : String) (m : Machine) {r : Outcome String × Machine}
    → Reads path m r
    → r.1.disk ≡ m.disk
Reads-disk path m (missing n later there) = later.same_disk
Reads-disk path m (found f n later there) = later.same_disk
Reads-disk path m (broken f reason n later there fails) = later.same_disk
Reads-disk path m (crashed n later) = later.same_disk

pub read_file-disk : (path : String) (m : Machine) → (read_file path m).1.disk ≡ m.disk
read_file-disk path m = Reads-disk path m (read_file-Reads path m)

-- The outcome of opening a file on this machine, and the machine after it.
pub data Opens (path : String) (m : Machine) : Outcome File × Machine → Type 0 where
  absent :
      Dict.lookup path m.disk.live ≡ none
      → Opens path m (returned (err (path_error path not_exist)), m)
  given :
      (f : File) (n : Machine)
      → Later m n
      → Dict.lookup path m.disk.live ≡ some f
      → Opens path m (returned (ok f), n)
  denied :
      (f : File) (reason : String) (n : Machine)
      → Dict.lookup path m.disk.live ≡ some f
      → Fails reason m
      → Opens path m (returned (err (path_error path (message reason))), n)
  ended : (n : Machine) → Opens path m (died, n)

Touched-Opens :
    (path : String) (m : Machine) (f : File) (r : Outcome (Unit {0}) × Machine)
    → Dict.lookup path m.disk.live ≡ some f
    → Touched path m r
    → Opens path m (after r (λ _. answer (ok f)))
Touched-Opens path m f _ there (whole n later) = given f n later there
Touched-Opens path m f _ there (cut reason n later fails) = denied f reason n there fails
Touched-Opens path m f _ there (halted n later) = ended n

opened-Opens :
    (path : String) (entry : Option File) (m : Machine)
    → Dict.lookup path m.disk.live ≡ entry
    → Opens path m (opened path entry m)
unfolding opened
opened-Opens path none m there = absent there
opened-Opens path (some f) m there =
    Touched-Opens path m f (touch path m) there (touch-Touched path m)

pub open_file-Opens : (path : String) (m : Machine) → Opens path m (open_file path m)
unfolding open_file
open_file-Opens path m = opened-Opens path _ m refl
