-- ===== src/Disk.antt =====
-- What internal/atomicfile, internal/config and internal/googleauth use of Go's package os: files by
-- their path, and the calls on them, each of which may fail or be the last one before a crash.
pub mod Rules
pub mod Reads
use calendar_bridge.Base.{
  ℕ, String, ◌<>◌, Bool, true, false, Option, none, some, List, [], ◌∷◌, ◌≡◌,
}
use calendar_bridge.Base.Dict
use calendar_bridge.Base.Dict.{Dict}
use calendar_bridge.Fault.{Fault, message, not_exist, path_error, link_error}
use calendar_bridge.Effect.{Result, ok, err}

pub record File : Type 0 where
  pub contents : String
  pub mode : ℕ
  -- The contents are on the platter.
  pub synced : Bool

pub record Disk : Type 0 where
  -- The directory entries as calls see them.
  pub live : Dict File
  -- The directory entries as they were synced last.
  pub stored : Dict File

-- What becomes of a call: it fails with a reason, or the machine crashes in it. A write has then got
-- as far as this text.
pub data Event : Type 0 where
  works : Event
  breaks : String → String → Event
  dies : String → Event

pub record Machine : Type 0 where
  pub disk : Disk
  -- What becomes of the next calls; the later ones work.
  pub events : List Event
  -- The random parts of the names of the next temporary files.
  pub suffixes : List String

pub data Outcome (A : Type 0) : Type 0 where
  returned : Result A → Outcome A
  died : Outcome A

abbrev pub Io : Type 0 → Type 0
Io A = Machine → Outcome A × Machine

abbrev pub after : {A B : Type 0} → Outcome A × Machine → (A → Io B) → Outcome B × Machine
after (returned (ok a), m) f = f a m
after (returned (err e), m) f = (returned (err e), m)
after (died, m) f = (died, m)

infixl 5 ◌>>=◌ ◌>>◌
abbrev pub ◌>>=◌ : {A B : Type 0} → Io A → (A → Io B) → Io B
io >>= f = λ m. after (io m) f

abbrev pub ◌>>◌ : {A B : Type 0} → Io A → Io B → Io B
io >> k = io >>= λ _. k

abbrev pub answer : {A : Type 0} → Result A → Io A
answer r = λ m. (returned r, m)

-- The caller's text around an error.
abbrev pub explained : {A : Type 0} → (Fault → Fault) → Outcome A × Machine → Outcome A × Machine
explained text (returned (err e), m) = (returned (err (text e)), m)
explained text (returned (ok a), m) = (returned (ok a), m)
explained text (died, m) = (died, m)

-- A deferred call, whose error is ignored.
abbrev pub last_of : {A : Type 0} → Result A → Outcome (Unit {0}) × Machine → Outcome A × Machine
last_of r (returned _, m) = (returned r, m)
last_of r (died, m) = (died, m)

abbrev pub finally : {A : Type 0} → Io (Unit {0}) → Outcome A × Machine → Outcome A × Machine
finally cleanup (returned r, m) = last_of r (cleanup m)
finally cleanup (died, m) = (died, m)

-- One call of the system: `place` makes an error of the reason, `cut` is what a broken call has
-- done, and `effect` what a whole one does.
module _ (place : Fault → Fault) (cut : String → Disk → Disk) (effect : Disk → Disk) where
  unfoldable pub become : Event → Machine → Outcome (Unit {0}) × Machine
  become works m = (returned (ok tt), record m { disk = effect m.disk })
  become (breaks reason text) m =
      (returned (err (place (message reason))), record m { disk = cut text m.disk })
  become (dies text) m = (died, record m { disk = cut text m.disk })

  unfoldable pub next_call : List Event → Machine → Outcome (Unit {0}) × Machine
  unfolding become
  next_call [] m = become works m
  next_call (e ∷ events) m = become e (record m { events = events })

  unfoldable pub system : Io (Unit {0})
  system m = next_call m.events m

abbrev pub nothing : String → Disk → Disk
nothing text d = d

abbrev pub on_live : (Dict File → Dict File) → Disk → Disk
on_live f d = record d { live = f d.live }

abbrev pub change : String → (File → File) → Disk → Disk
change name f d = on_live (Dict.update name f) d

-- `os.O_CREATE`, with the mode 0600 of a temporary file.
abbrev pub new_file : File
new_file = record { contents = ""; mode = 0o600; synced = false }

unfoldable pub create : String → Io (Unit {0})
create name = system (path_error name) nothing (on_live (Dict.insert name new_file))

unfoldable pub chmod : String → ℕ → Io (Unit {0})
chmod name mode = system (path_error name) nothing (change name (λ f. record f { mode = mode }))

-- Writing at the end of an open file.
abbrev pub appended : String → File → File
appended text f = record f { contents = f.contents <> text; synced = false }

unfoldable pub write_file : String → String → Io (Unit {0})
write_file name text =
    system (path_error name) (λ part. change name (appended part)) (change name (appended text))

unfoldable pub sync_file : String → Io (Unit {0})
sync_file name = system (path_error name) nothing (change name (λ f. record f { synced = true }))

-- A call that changes nothing: opening a directory, and closing.
unfoldable pub touch : String → Io (Unit {0})
touch name = system (path_error name) nothing (λ d. d)

-- `os.CreateTemp`: the first of the next names that no file has.
module _ (temp_path : String → String) where
  unfoldable pub free_name : List String → Dict File → Option (String × List String)
  free_name [] files = none
  free_name (suffix ∷ suffixes) files = elim (Dict.lookup (temp_path suffix) files) [
    | none ↦ some (temp_path suffix, suffixes)
    | some f ↦ free_name suffixes files
  ]

  unfoldable pub make_temp : Option (String × List String) → Io String
  make_temp none m = (returned (err (path_error (temp_path "*") (message "file exists"))), m)
  make_temp (some (name, suffixes)) m =
      (create name >>= λ _. answer (ok name)) (record m { suffixes = suffixes })

  unfoldable pub create_temp : Io String
  create_temp m = make_temp (free_name m.suffixes m.disk.live) m

-- `os.Rename`
unfoldable pub moved : String → String → Option File → Dict File → Dict File
moved old new none files = files
moved old new (some f) files = Dict.remove old (Dict.insert new f files)

abbrev pub move : String → String → Dict File → Dict File
move old new files = moved old new (Dict.lookup old files) files

unfoldable pub rename : String → String → Io (Unit {0})
rename old new = system (link_error old new) nothing (on_live (move old new))

unfoldable pub remove_file : String → Io (Unit {0})
remove_file name = system (path_error name) nothing (on_live (Dict.remove name))

-- `Sync` of a directory.
unfoldable pub sync_entries : String → Io (Unit {0})
sync_entries name = system (path_error name) nothing (λ d. record d { stored = d.live })

-- `os.Open`, which gives the file of the name.
unfoldable pub opened : String → Option File → Io File
opened name none = answer (err (path_error name not_exist))
opened name (some f) = do touch name; answer (ok f)

unfoldable pub open_file : String → Io File
open_file name m = opened name (Dict.lookup name m.disk.live) m

-- Reading a file that was opened under this name.
unfoldable pub read_open : String → File → Io String
read_open name f = do touch name; answer (ok f.contents)

-- `os.ReadFile`: opening and reading a file fail in one way.
unfoldable pub contents_of : String → Option File → Io String
contents_of name none = answer (err (path_error name not_exist))
contents_of name (some f) = do touch name; answer (ok f.contents)

unfoldable pub read_file : String → Io String
read_file name m = contents_of name (Dict.lookup name m.disk.live) m

-- What a name may hold after a crash: an entry as it was last or as it was synced last, and of a file
-- that was not synced anything.
pub data AfterCrash : Option File → Option String → Type 0 where
  gone : AfterCrash none none
  kept : (f : File) → AfterCrash (some f) (some f.contents)
  torn : (f : File) (text : String) → f.synced ≡ false → AfterCrash (some f) (some text)

pub data Survives (d : Disk) (name : String) : Option String → Type 0 where
  in_live : (c : Option String) → AfterCrash (Dict.lookup name d.live) c → Survives d name c
  in_stored : (c : Option String) → AfterCrash (Dict.lookup name d.stored) c → Survives d name c
