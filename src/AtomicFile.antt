-- ===== src/AtomicFile.antt =====
-- internal/atomicfile/atomicfile.go, patherr.go and syncdir_unix.go: a file is replaced as a whole.
pub mod Steps
pub mod Crash
use calendar_bridge.Base.{ℕ, String, ◌<>◌, Option, none, some}
use calendar_bridge.Fault.{Fault, net, wrapped, joined, path_error, link_error}
use calendar_bridge.Effect.{Result, ok, err}
use calendar_bridge.Disk.{
  Machine, Outcome, Io, ◌>>=◌, ◌>>◌, explained, last_of, returned, died, finally, create_temp,
  chmod, write_file, sync_file, touch, rename, remove_file, sync_entries,
}

abbrev pub owner_only : ℕ
owner_only = 0o600

abbrev first : Option Fault → Option Fault → Option Fault
first (some e) o = some e
first none o = o

-- `errors.As(err, &pe)` and `errors.As(err, &le)`, and the cause.
unfoldable pub as_path_error : Fault → Option Fault
as_path_error (path_error path e) = some e
as_path_error (link_error old new e) = as_path_error e
as_path_error (net timeout e) = as_path_error e
as_path_error (wrapped text e) = as_path_error e
as_path_error (joined e f) = first (as_path_error e) (as_path_error f)
as_path_error _ = none

unfoldable pub as_link_error : Fault → Option Fault
as_link_error (link_error old new e) = some e
as_link_error (path_error path e) = as_link_error e
as_link_error (net timeout e) = as_link_error e
as_link_error (wrapped text e) = as_link_error e
as_link_error (joined e f) = first (as_link_error e) (as_link_error f)
as_link_error _ = none

-- `pathFree`
abbrev cause : Fault → Option Fault → Option Fault → Fault
cause e (some inner) o = inner
cause e none (some inner) = inner
cause e none none = e

unfoldable pub path_free : Fault → Fault
unfolding as_path_error as_link_error
path_free e = cause e (as_path_error e) (as_link_error e)

-- `fmt.Errorf("…: %w", pathFree(err))`
abbrev pub told : String → Fault → Fault
told text e = wrapped text (path_free e)

-- A failed call on an open file or directory: it is closed, and the error stays.
abbrev pub closing : Io (Unit {0}) → Outcome (Unit {0}) × Machine → Outcome (Unit {0}) × Machine
closing close (returned (ok _), m) = (returned (ok tt), m)
closing close (returned (err e), m) = last_of (err e) (close m)
closing close (died, m) = (died, m)

unfoldable pub or_close : String → Io (Unit {0}) → Io (Unit {0})
or_close name io m = closing (touch name) (io m)

-- `syncDir`: open, sync and close the directory.
unfoldable pub sync_dir : String → Io (Unit {0})
sync_dir dir = do touch dir; or_close dir (sync_entries dir); touch dir

-- `filepath.Dir`, `filepath.Base` and the way in which `os.CreateTemp` joins a directory and a name.
pub record Paths : Type 0 where
  pub dir : String → String
  pub base : String → String
  pub join : String → String → String

module _ (paths : Paths) where
  unfoldable pub temp_path : String → String → String
  temp_path path suffix = paths.join (paths.dir path) ("." <> paths.base path <> ".tmp-" <> suffix)

  -- A step of `Write` on the temporary file, with its error.
  abbrev pub step : String → String → Io (Unit {0}) → Io (Unit {0})
  step tmp text io = λ m. explained (told text) (or_close tmp io m)

  -- `Write` once the temporary file is there, without the deferred removal.
  unfoldable pub replace : String → String → String → ℕ → Io (Unit {0})
  replace path tmp text perm = do
    step tmp "chmod temp file" (chmod tmp perm)
    step tmp "writing temp file" (write_file tmp text)
    step tmp "syncing temp file" (sync_file tmp)
    λ m. explained (told "closing temp file") (touch tmp m)
    λ m. explained (told ("atomically replacing " <> paths.base path)) (rename tmp path m)
    λ m.
        explained (told ("syncing directory after replacing " <> paths.base path))
          (sync_dir (paths.dir path) m)

  unfoldable pub with_temp : String → String → ℕ → String → Io (Unit {0})
  with_temp path text perm tmp m = finally (remove_file tmp) (replace path tmp text perm m)

  -- `Write`
  unfoldable pub write : String → String → ℕ → Io (Unit {0})
  write path text perm = do
    tmp ← λ m.
        explained (told ("creating temp file in " <> paths.base (paths.dir path)))
          (create_temp (temp_path path) m)
    with_temp path text perm tmp
