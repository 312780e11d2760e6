-- ===== src/AtomicFile/Steps.antt =====
-- The lines of `Write` of internal/atomicfile/atomicfile.go: what each makes of the path that is replaced
-- and of the temporary file, wherever it fails and whenever the machine crashes.
use mathlib.Core.Path.{subst}
use text.Mathlib.TextLemmas.{nil-append}
use calendar_bridge.Base.{ℕ, String, true, false, ◌≡◌, ◌≢◌, ◌∙◌, ◌⊎◌, inl, inr, Option, some}
use calendar_bridge.Base.Dict
use calendar_bridge.Base.Dict.{
  Dict, lookup-insert_self, lookup-insert_ne, lookup-update_self, lookup-update_ne,
  lookup-remove_ne,
}
use calendar_bridge.Effect.{ok, err}
use calendar_bridge.Fault.{Fault}
use calendar_bridge.Disk.{
  File, Disk, Machine, Outcome, returned, died, Io, on_live, change, new_file, appended, after,
  explained, chmod, write_file, sync_file, touch, moved, move, rename, remove_file, sync_entries,
}
use calendar_bridge.Disk.Rules.{
  Ends, Ends-after, Ends-last_of_err, Ends-explained, Ends-system, system_keeps,
}
use calendar_bridge.AtomicFile.{Paths, closing, or_close, sync_dir, replace}

module _ (path text : String) (mode : ℕ) (d₀ : Disk) where
  abbrev pub complete : File
  complete = record { contents = text; mode = mode; synced = true }

  abbrev pub IsOldOrNew : Option File → Option File → Type 0
  IsOldOrNew before entry = (entry ≡ before) ⊎ (entry ≡ some complete)

  -- Both entries of the path, the one that calls see and the one that was synced last, are as
  -- before, or name the complete file.
  pub record IsSafe (d : Disk) : Type 0 where
    pub live : IsOldOrNew (Dict.lookup path d₀.live) (Dict.lookup path d.live)
    pub stored : IsOldOrNew (Dict.lookup path d₀.stored) (Dict.lookup path d.stored)

  -- Nothing has become of the path.
  pub record IsOld (d : Disk) : Type 0 where
    pub live : Dict.lookup path d.live ≡ Dict.lookup path d₀.live
    pub stored : Dict.lookup path d.stored ≡ Dict.lookup path d₀.stored

  record IsReplaced (d : Disk) : Type 0 where
    live : Dict.lookup path d.live ≡ some complete
    stored : Dict.lookup path d.stored ≡ Dict.lookup path d₀.stored

  pub record IsDurable (d : Disk) : Type 0 where
    pub live : Dict.lookup path d.live ≡ some complete
    pub stored : Dict.lookup path d.stored ≡ some complete

  pub IsOld-IsSafe : (d : Disk) → IsOld d → IsSafe d
  IsOld-IsSafe d h = record { live = inl h.live; stored = inl h.stored }

  IsReplaced-IsSafe : (d : Disk) → IsReplaced d → IsSafe d
  IsReplaced-IsSafe d h = record { live = inr h.live; stored = inl h.stored }

  pub IsDurable-IsSafe : (d : Disk) → IsDurable d → IsSafe d
  IsDurable-IsSafe d h = record { live = inr h.live; stored = inr h.stored }

  -- While the temporary file is this.
  pub record Holds (tmp : String) (f : File) (d : Disk) : Type 0 where
    pub old : IsOld d
    pub temp : Dict.lookup tmp d.live ≡ some f

  module _ (tmp : String) (other : tmp ≢ path) where
    Holds-IsSafe : (f : File) (d : Disk) → Holds tmp f d → IsSafe d
    Holds-IsSafe f d h = IsOld-IsSafe d h.old

    change-IsOld : (g : File → File) (d : Disk) → IsOld d → IsOld (change tmp g d)
    change-IsOld g d h = record {
      live = lookup-update_ne tmp path g d.live other ∙ h.live;
      stored = h.stored;
    }

    change-Holds :
        (f : File) (g : File → File) (d : Disk) → Holds tmp f d → Holds tmp (g f) (change tmp g d)
    change-Holds f g d h = record {
      old = change-IsOld g d h.old;
      temp = lookup-update_self tmp g d.live f h.temp;
    }

    chmod-Ends :
        (f : File) (m : Machine)
        → Holds tmp f m.disk
        → Ends IsSafe (λ _ d. Holds tmp (record f { mode = mode }) d) (chmod tmp mode m)
    unfolding chmod
    chmod-Ends f m h =
        Ends-system IsSafe _ _ _ (Holds tmp (record f { mode = mode })) m
          (change-Holds f _ m.disk h) (λ part. Holds-IsSafe f m.disk h)

    write_file-Ends :
        (m : Machine)
        → Holds tmp (record new_file { mode = mode }) m.disk
        → Ends IsSafe
            (λ _ d. Holds tmp (record complete { synced = false }) d)
            (write_file tmp text m)
    unfolding write_file
    write_file-Ends m h =
        Ends-system IsSafe _ _ _ (Holds tmp (record complete { synced = false })) m
          (subst
            (λ (t : String).
              Holds tmp (record { contents = t; mode = mode; synced = false })
                (change tmp (appended text) m.disk))
            (nil-append text) (change-Holds _ (appended text) m.disk h))
          (λ part. IsOld-IsSafe _ (change-IsOld (appended part) m.disk h.old))

    sync_file-Ends :
        (m : Machine)
        → Holds tmp (record complete { synced = false }) m.disk
        → Ends IsSafe (λ _ d. Holds tmp complete d) (sync_file tmp m)
    unfolding sync_file
    sync_file-Ends m h =
        Ends-system IsSafe _ _ _ (Holds tmp complete) m (change-Holds _ _ m.disk h)
          (λ part. Holds-IsSafe _ m.disk h)

    lookup-move :
        (files : Dict File)
        → Dict.lookup tmp files ≡ some complete
        → Dict.lookup path (move tmp path files) ≡ some complete
    unfolding moved
    lookup-move files found =
        rw found (lookup-remove_ne tmp path _ other ∙ lookup-insert_self path complete files)

    rename-Ends :
        (m : Machine)
        → Holds tmp complete m.disk
        → Ends IsSafe (λ _ d. IsReplaced d) (rename tmp path m)
    unfolding rename
    rename-Ends m h =
        Ends-system IsSafe _ _ _ IsReplaced m
          (record { live = lookup-move m.disk.live h.temp; stored = h.old.stored })
          (λ part. Holds-IsSafe _ m.disk h)

    pub remove_file_keeps :
        (S : Disk → Type 0) (m : Machine)
        → (S m.disk → S (on_live (Dict.remove tmp) m.disk))
        → S m.disk
        → S (remove_file tmp m).1.disk
    unfolding remove_file
    remove_file_keeps S m keep h = system_keeps _ _ _ S m (keep h) (λ part. h)

    pub remove-IsSafe : (d : Disk) → IsSafe d → IsSafe (on_live (Dict.remove tmp) d)
    remove-IsSafe d h = record {
      live = rw (lookup-remove_ne tmp path d.live other) h.live;
      stored = h.stored;
    }

    pub remove-IsDurable : (d : Disk) → IsDurable d → IsDurable (on_live (Dict.remove tmp) d)
    remove-IsDurable d h = record {
      live = lookup-remove_ne tmp path d.live other ∙ h.live;
      stored = h.stored;
    }

  touch_keeps :
      (name : String) (S : Disk → Type 0) (m : Machine) → S m.disk → S (touch name m).1.disk
  unfolding touch
  touch_keeps name S m h = system_keeps _ _ _ S m h (λ part. h)

  touch-Ends :
      (name : String) (P : Disk → Type 0) (m : Machine)
      → ((d : Disk) → P d → IsSafe d)
      → P m.disk
      → Ends IsSafe (λ _ d. P d) (touch name m)
  unfolding touch
  touch-Ends name P m weaken h = Ends-system IsSafe _ _ _ P m h (λ part. weaken m.disk h)

  closing-Ends :
      (name : String) (P : Disk → Type 0) (r : Outcome (Unit {0}) × Machine)
      → Ends IsSafe (λ _ d. P d) r
      → Ends IsSafe (λ _ d. P d) (closing (touch name) r)
  closing-Ends name P (returned (ok a), m) h = h
  closing-Ends name P (returned (err e), m) h =
      Ends-last_of_err IsSafe (λ _ d. P d) e (touch name m) (touch_keeps name IsSafe m h)
  closing-Ends name P (died, m) h = h

  or_close-Ends :
      (name : String) (P : Disk → Type 0) (io : Io (Unit {0})) (m : Machine)
      → Ends IsSafe (λ _ d. P d) (io m)
      → Ends IsSafe (λ _ d. P d) (or_close name io m)
  unfolding or_close
  or_close-Ends name P io m h = closing-Ends name P (io m) h

  sync_entries-Ends :
      (name : String) (m : Machine)
      → IsReplaced m.disk
      → Ends IsSafe (λ _ d. IsDurable d) (sync_entries name m)
  unfolding sync_entries
  sync_entries-Ends name m h =
      Ends-system IsSafe _ _ _ IsDurable m (record { live = h.live; stored = h.live })
        (λ part. IsReplaced-IsSafe m.disk h)

  sync_dir-Ends :
      (dir : String) (m : Machine)
      → IsReplaced m.disk
      → Ends IsSafe (λ _ d. IsDurable d) (sync_dir dir m)
  unfolding sync_dir
  sync_dir-Ends dir m h =
      Ends-after IsSafe (λ _ d. IsReplaced d) (λ _ d. IsDurable d) (touch dir m) _
        (touch-Ends dir IsReplaced m IsReplaced-IsSafe h)
        (λ _ m₁ h₁.
          Ends-after IsSafe (λ _ d. IsDurable d) (λ _ d. IsDurable d) _ _
            (or_close-Ends dir IsDurable (sync_entries dir) m₁ (sync_entries-Ends dir m₁ h₁))
            (λ _ m₂ h₂. touch-Ends dir IsDurable m₂ IsDurable-IsSafe h₂))

  module _ (paths : Paths) (tmp : String) (other : tmp ≢ path) where
    -- One line of `Write` after another.
    then_Ends :
        (P Q : Disk → Type 0) (r : Outcome (Unit {0}) × Machine) (rest : Io (Unit {0}))
        (explain : Fault → Fault)
        → Ends IsSafe (λ _ d. P d) r
        → ((m : Machine) → P m.disk → Ends IsSafe (λ _ d. Q d) (rest m))
        → Ends IsSafe (λ _ d. Q d) (after (explained explain r) (λ _. rest))
    then_Ends P Q r rest explain h next =
        Ends-after IsSafe (λ _ d. P d) (λ _ d. Q d) (explained explain r) (λ _. rest)
          (Ends-explained IsSafe (λ _ d. P d) explain r h) (λ _ m k. next m k)

    pub replace-Ends :
        (m : Machine)
        → Holds tmp new_file m.disk
        → Ends IsSafe (λ _ d. IsDurable d) (replace paths path tmp text mode m)
    unfolding replace
    replace-Ends m h =
        then_Ends (Holds tmp (record new_file { mode = mode })) IsDurable _ _ _
          (or_close-Ends tmp _ (chmod tmp mode) m (chmod-Ends tmp other new_file m h))
          λ m₁ h₁.
            then_Ends (Holds tmp (record complete { synced = false })) IsDurable _ _ _
              (or_close-Ends tmp _ (write_file tmp text) m₁ (write_file-Ends tmp other m₁ h₁))
              λ m₂ h₂.
                then_Ends (Holds tmp complete) IsDurable _ _ _
                  (or_close-Ends tmp _ (sync_file tmp) m₂ (sync_file-Ends tmp other m₂ h₂))
                  λ m₃ h₃.
                    then_Ends (Holds tmp complete) IsDurable _ _ _
                      (touch-Ends tmp (Holds tmp complete) m₃ (Holds-IsSafe tmp other complete) h₃)
                      λ m₄ h₄.
                        then_Ends IsReplaced IsDurable _ _ _ (rename-Ends tmp other m₄ h₄) λ m₅ h₅.
                          Ends-explained IsSafe (λ _ d. IsDurable d) _ _
                            (sync_dir-Ends (paths.dir path) m₅ h₅)
