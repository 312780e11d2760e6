-- ===== src/Config/Reload.antt =====
-- A configuration that `Save` of internal/config/config.go has written is the one that `Load` reads.
use calendar_bridge.Base.{
  ℕ, ◌≤◌, String, true, false, ◌≡◌, ◌≢◌, refl, ap, ◌∙◌, Option, none, some, List, [], ◌∷◌, ltb,
  arith,
}
use calendar_bridge.Base.Dict
use calendar_bridge.Fault.{Fault}
use calendar_bridge.Effect.{Result, ok, err}
use calendar_bridge.Disk.{
  File, Disk, Event, Machine, Outcome, returned, died, explained, system, next_call, become, touch,
  contents_of, read_file,
}
use calendar_bridge.Disk.Rules.{explained-machine}
use calendar_bridge.AtomicFile.{Paths, temp_path, owner_only, write}
use calendar_bridge.AtomicFile.Crash.{write_complete}
use calendar_bridge.Config.{Config}
use calendar_bridge.Config.Defaults.{Durations, apply_defaults}
use calendar_bridge.Config.Validate.{Url, Problem, validate}
use calendar_bridge.Config.Files.{
  Yaml, max_config_bytes, max_config_keys, count_colons, accept, check_parsed, load_bytes,
  load_text, load, save_text, save_checked, save,
}
use Prim.Native.String

explained-ok :
    {A : Type 0} (text : Fault → Fault) (r : Outcome A × Machine) (a : A)
    → (explained text r).0 ≡ returned (ok a)
    → r.0 ≡ returned (ok a)
explained-ok text (returned (ok b), m) a h = h
explained-ok text (returned (err e), m) a h = cc
explained-ok text (died, m) a h = cc

next_call-quiet :
    (place : Fault → Fault) (cut : String → Disk → Disk) (effect : Disk → Disk)
    (events : List Event) (m : Machine)
    → events ≡ []
    → next_call place cut effect events m ≡ (returned (ok tt), record m { disk = effect m.disk })
unfolding next_call become
next_call-quiet place cut effect [] m quiet = refl
next_call-quiet place cut effect (e ∷ events) m quiet = cc

touch-quiet : (name : String) (m : Machine) → m.events ≡ [] → touch name m ≡ (returned (ok tt), m)
unfolding touch system
touch-quiet name m quiet = next_call-quiet _ _ _ m.events m quiet

read_file-quiet :
    (path : String) (m : Machine) (f : File)
    → m.events ≡ []
    → Dict.lookup path m.disk.live ≡ some f
    → read_file path m ≡ (returned (ok f.contents), m)
unfolding read_file contents_of
read_file-quiet path m f quiet found = rw (found, contents_of) (rw (touch-quiet path m quiet) refl)

not_over : (n k : ℕ) → n ≤ k → ltb k n ≡ false
not_over n k h = ground arith

module _ (durations : Durations) (parse_url : String → Result Url) (explain : Problem → Fault)
    (yaml : Yaml) where
  pub load_text-eq :
      (text : String) (c : Config)
      → String.len text ≤ max_config_bytes
      → count_colons text ≤ max_config_keys
      → yaml.unmarshal text ≡ ok c
      → validate durations parse_url c ≡ none
      → load_text durations parse_url explain yaml text ≡ ok (apply_defaults durations c)
  unfolding load_text load_bytes check_parsed accept
  load_text-eq text c short few parsed valid =
      rw (not_over _ _ short, not_over _ _ few, parsed, check_parsed, valid) refl

  load-quiet :
      (path text : String) (mode : ℕ) (m : Machine)
      → m.events ≡ []
      → Dict.lookup path m.disk.live ≡ some (record { contents = text; mode = mode; synced = true })
      → load durations parse_url explain yaml path m
        ≡ (returned (load_text durations parse_url explain yaml text), m)
  unfolding load
  load-quiet path text mode m quiet found = rw (read_file-quiet path m _ quiet found) refl

  module _ (paths : Paths) (path text : String)
      (other : (suffix : String) → temp_path paths path suffix ≢ path) (c : Config)
      (marshaled : yaml.marshal c ≡ ok text) where
    -- Where `Save` has succeeded.
    record IsSaved (m : Machine) : Type 0 where
      valid : validate durations parse_url c ≡ none
      live :
          Dict.lookup path m.disk.live
          ≡ some (record { contents = text; mode = owner_only; synced = true })

    written-live :
        (m : Machine) (explanation : Fault → Fault)
        → (explained explanation (write paths path text owner_only m)).0 ≡ returned (ok tt)
        → Dict.lookup path (explained explanation (write paths path text owner_only m)).1.disk.live
          ≡ some (record { contents = text; mode = owner_only; synced = true })
    written-live m explanation done =
        rw (explained-machine explanation (write paths path text owner_only m)) (
          write_complete paths path text owner_only m other
            (explained-ok explanation (write paths path text owner_only m) tt done))

    save_checked-IsSaved :
        (problem : Option Problem) (m : Machine)
        → validate durations parse_url c ≡ problem
        → (save_checked durations parse_url explain yaml paths path c problem m).0
          ≡ returned (ok tt)
        → IsSaved (save_checked durations parse_url explain yaml paths path c problem m).1
    unfolding save_checked save_text
    save_checked-IsSaved (some p) m same done = cc
    save_checked-IsSaved none m same done = record {
      valid = same;
      live = rw (marshaled, save_text) (written-live m _ (rw (marshaled, save_text) at done));
    }

    save-IsSaved :
        (m : Machine)
        → (save durations parse_url explain yaml paths path c m).0 ≡ returned (ok tt)
        → IsSaved (save durations parse_url explain yaml paths path c m).1
    unfolding save
    save-IsSaved m done = save_checked-IsSaved (validate durations parse_url c) m refl done

-- What `Save` reports to have saved is in a file that only its owner can read, and `Load` gives it
-- back with its defaults filled in; if the YAML library reads what it wrote, the text is within the
-- limits of `Load`, the calls of `Load` work, and no temporary file has the path for its name.
pub load-save :
    (durations : Durations) (parse_url : String → Result Url) (explain : Problem → Fault)
    (yaml : Yaml) (paths : Paths) (path text : String) (c : Config) (m : Machine)
    → ((suffix : String) → temp_path paths path suffix ≢ path)
    → yaml.marshal c ≡ ok text
    → yaml.unmarshal text ≡ ok c
    → String.len text ≤ max_config_bytes
    → count_colons text ≤ max_config_keys
    → (save durations parse_url explain yaml paths path c m).0 ≡ returned (ok tt)
    → (save durations parse_url explain yaml paths path c m).1.events ≡ []
    → (Dict.lookup path (save durations parse_url explain yaml paths path c m).1.disk.live
        ≡ some (record { contents = text; mode = owner_only; synced = true }))
      × (load durations parse_url explain yaml path
            (save durations parse_url explain yaml paths path c m).1
          ≡ (
            returned (ok (apply_defaults durations c)),
            (save durations parse_url explain yaml paths path c m).1,
          ))
load-save durations parse_url explain yaml paths path text c m other marshaled parsed short few done
      quiet =
    let saved =
      save-IsSaved durations parse_url explain yaml paths path text other c marshaled m done in
    (
      saved.live,
      load-quiet durations parse_url explain yaml path text owner_only _ quiet saved.live
          ∙ ap
              (λ (r : Result Config).
                (returned r, (save durations parse_url explain yaml paths path c m).1))
              (load_text-eq durations parse_url explain yaml text c short few parsed saved.valid),
    )
