-- ===== src/AtomicFile/Crash.antt =====
-- `Write` of internal/atomicfile/atomicfile.go replaces the file at a path as a whole, wherever it
-- fails and whenever the machine crashes.
use mathlib.Core.Path.{subst}
use calendar_bridge.Base.{
  ℕ, String, true, ◌≡◌, ◌≢◌, refl, ap, ◌∙◌, ◌⊎◌, inl, inr, Option, none, some, List, [], ◌∷◌, arith,
}
use mathlib.Core.Option
use calendar_bridge.Base.Dict
use calendar_bridge.Base.Dict.{
  Dict, lookup-insert_self, lookup-insert_ne, lookup-update_self, lookup-update_ne,
  lookup-remove_ne,
}
use calendar_bridge.Effect.{ok, err}
use calendar_bridge.Disk.{
  File, Disk, Machine, Outcome, returned, died, new_file, create, remove_file, create_temp,
  free_name, make_temp, AfterCrash, gone, kept, torn, Survives, in_live, in_stored,
}
use calendar_bridge.Disk.Rules.{Ends, Ends-after, Ends-explained, Ends-finally, Ends-system}
use calendar_bridge.AtomicFile.{Paths, temp_path, with_temp, write}
use calendar_bridge.AtomicFile.Steps.{
  IsSafe, IsOld, IsDurable, Holds, IsOld-IsSafe, IsDurable-IsSafe, remove_file_keeps, remove-IsSafe,
  remove-IsDurable, replace-Ends, complete, IsOldOrNew,
}

-- What a crash leaves of a synced file is its contents.
AfterCrash-synced :
    {entry : Option File} (c : Option String) (f : File)
    → f.synced ≡ true
    → AfterCrash entry c
    → entry ≡ some f
    → c ≡ some f.contents
AfterCrash-synced _ f synced gone same = cc
AfterCrash-synced _ f synced (kept g) same = ap (Option.map (λ (x : File). x.contents)) same
AfterCrash-synced _ f synced (torn g text unsynced) same = cc

module _ (path text : String) (mode : ℕ) (d₀ : Disk) where
  abbrev Safe : Disk → Type 0
  Safe d = IsSafe path text mode d₀ d

  abbrev Durable : Disk → Type 0
  Durable d = IsDurable path text mode d₀ d

  record IsTemp (name : String) (d : Disk) : Type 0 where
    other : name ≢ path
    holds : Holds path text mode d₀ name new_file d

  module _ (temp : String → String) (temp-ne-path : (suffix : String) → temp suffix ≢ path) where
    create-Ends :
        (name : String) (m : Machine)
        → name ≢ path
        → IsOld path text mode d₀ m.disk
        → Ends Safe (λ _ d. IsTemp name d) (create name m)
    unfolding create
    create-Ends name m other h =
        Ends-system Safe _ _ _ (IsTemp name) m
          (record {
            other = other;
            holds = record {
              old = record {
                live = lookup-insert_ne name path new_file m.disk.live other ∙ h.live;
                stored = h.stored;
              };
              temp = lookup-insert_self name new_file m.disk.live;
            };
          })
          (λ part. IsOld-IsSafe path text mode d₀ m.disk h)

    make_temp-Ends :
        (found : Option (String × List String)) (m : Machine)
        → ((name : String) (rest : List String) → found ≡ some (name, rest) → name ≢ path)
        → IsOld path text mode d₀ m.disk
        → Ends Safe IsTemp (make_temp temp found m)
    unfolding make_temp
    make_temp-Ends none m new h = IsOld-IsSafe path text mode d₀ m.disk h
    make_temp-Ends (some (name, rest)) m new h =
        Ends-after Safe (λ _ d. IsTemp name d) IsTemp _ _
          (create-Ends name (record m { suffixes = rest }) (new name rest refl) h) (λ _ m' k. k)

    free_name-other :
        (suffixes : List String) (files : Dict File) (name : String) (rest : List String)
        → free_name temp suffixes files ≡ some (name, rest)
        → name ≢ path
    unfolding free_name
    free_name-other [] files name rest found same = cc
    free_name-other (suffix ∷ suffixes) files name rest found same =
        ground (arith, temp-ne-path suffix, free_name-other suffixes files name rest)

    create_temp-Ends :
        (m : Machine) → IsOld path text mode d₀ m.disk → Ends Safe IsTemp (create_temp temp m)
    unfolding create_temp
    create_temp-Ends m h = make_temp-Ends _ m (free_name-other m.suffixes m.disk.live) h

  module _ (paths : Paths)
      (temp_path-ne-path : (suffix : String) → temp_path paths path suffix ≢ path) where
    with_temp-Ends :
        (tmp : String) (m : Machine)
        → IsTemp tmp m.disk
        → Ends Safe (λ _ d. Durable d) (with_temp paths path text mode tmp m)
    unfolding with_temp
    with_temp-Ends tmp m h =
        Ends-finally Safe (λ _ d. Durable d) (remove_file tmp) _
          (λ _ d k. IsDurable-IsSafe path text mode d₀ d k)
          (λ _ m' k.
            remove_file_keeps path text mode d₀ tmp h.other Durable m'
              (remove-IsDurable path text mode d₀ tmp h.other m'.disk) k)
          (λ m' k.
            remove_file_keeps path text mode d₀ tmp h.other Safe m'
              (remove-IsSafe path text mode d₀ tmp h.other m'.disk) k)
          (replace-Ends path text mode d₀ paths tmp h.other m h.holds)

    write-Ends :
        (m : Machine)
        → IsOld path text mode d₀ m.disk
        → Ends Safe (λ _ d. Durable d) (write paths path text mode m)
    unfolding write
    write-Ends m h =
        Ends-after Safe IsTemp (λ _ d. Durable d) _ _
          (Ends-explained Safe IsTemp _ _
            (create_temp-Ends (temp_path paths path) temp_path-ne-path m h))
          with_temp-Ends

  AfterCrash-IsOldOrNew :
      (before entry : Option File) (c : Option String)
      → IsOldOrNew path text mode d₀ before entry
      → AfterCrash entry c
      → AfterCrash before c ⊎ (c ≡ some text)
  AfterCrash-IsOldOrNew before entry c (inl old) h =
      inl (subst (λ (o : Option File). AfterCrash o c) old h)
  AfterCrash-IsOldOrNew before entry c (inr new) h = inr (
      AfterCrash-synced c (complete path text mode d₀) refl
        (subst (λ (o : Option File). AfterCrash o c) new h) refl)

  pub Survives-IsSafe :
      (d : Disk) (c : Option String)
      → Safe d
      → Survives d path c
      → Survives d₀ path c ⊎ (c ≡ some text)
  Survives-IsSafe d _ safe (in_live c h) = elim (AfterCrash-IsOldOrNew _ _ c safe.live h) [
    | inl old ↦ inl (in_live c old)
    | inr new ↦ inr new
  ]
  Survives-IsSafe d _ safe (in_stored c h) = elim (AfterCrash-IsOldOrNew _ _ c safe.stored h) [
    | inl old ↦ inl (in_stored c old)
    | inr new ↦ inr new
  ]

  Survives-IsDurable :
      (d : Disk) (c : Option String) → Durable d → Survives d path c → c ≡ some text
  Survives-IsDurable d _ h (in_live c k) =
      AfterCrash-synced c (complete path text mode d₀) refl k h.live
  Survives-IsDurable d _ h (in_stored c k) =
      AfterCrash-synced c (complete path text mode d₀) refl k h.stored

  -- Where the path may be read as before, `Write` has not reported success.
  Ends-Survives :
      (c : Option String) (r : Outcome (Unit {0}) × Machine)
      → Ends Safe (λ _ d. Durable d) r
      → Survives r.1.disk path c
      → (c ≡ some text) ⊎ (Survives d₀ path c × (r.0 ≢ returned (ok tt)))
  Ends-Survives c (returned (ok a), m) h left = inl (Survives-IsDurable m.disk c h left)
  Ends-Survives c (returned (err e), m) h left = elim (Survives-IsSafe m.disk c h left) [
    | inl old ↦ inr (old, λ same. cc)
    | inr new ↦ inl new
  ]
  Ends-Survives c (died, m) h left = elim (Survives-IsSafe m.disk c h left) [
    | inl old ↦ inr (old, λ same. cc)
    | inr new ↦ inl new
  ]

  Ends-Durable :
      (r : Outcome (Unit {0}) × Machine)
      → Ends Safe (λ _ d. Durable d) r
      → r.0 ≡ returned (ok tt)
      → Durable r.1.disk
  Ends-Durable (returned (ok a), m) h done = h
  Ends-Durable (returned (err e), m) h done = cc
  Ends-Durable (died, m) h done = cc

-- Wherever a call of `Write` fails and whenever the machine crashes, what can be read from the path
-- after a crash is the whole new text, or it could be read there before and `Write` has not
-- reported success; if no temporary file has the path for its name.
pub write-Survives :
    (paths : Paths) (path text : String) (mode : ℕ) (m : Machine) (c : Option String)
    → ((suffix : String) → temp_path paths path suffix ≢ path)
    → Survives (write paths path text mode m).1.disk path c
    → (c ≡ some text)
      ⊎ (Survives m.disk path c × ((write paths path text mode m).0 ≢ returned (ok tt)))
write-Survives paths path text mode m c other left =
    Ends-Survives path text mode m.disk c (write paths path text mode m)
      (write-Ends path text mode m.disk paths other m (record { live = refl; stored = refl })) left

-- After a success the path names the complete file.
pub write_complete :
    (paths : Paths) (path text : String) (mode : ℕ) (m : Machine)
    → ((suffix : String) → temp_path paths path suffix ≢ path)
    → (write paths path text mode m).0 ≡ returned (ok tt)
    → Dict.lookup path (write paths path text mode m).1.disk.live
      ≡ some (record { contents = text; mode = mode; synced = true })
write_complete paths path text mode m other done =
    (Ends-Durable path text mode m.disk (write paths path text mode m)
      (write-Ends path text mode m.disk paths other m (record { live = refl; stored = refl }))
      done).live
