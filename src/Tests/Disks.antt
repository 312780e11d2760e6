-- ===== src/Tests/Disks.antt =====
-- Writes of configurations and tokens to a disk that fails or crashes.
use Prim.Native.Char.{code}
use Prim.Native.String.{◌∷◌ as ◌:>◌}
use text.Mathlib.TextLemmas.{head-eq_of_cons-eq}
use calendar_bridge.Base.{
  ◌≡◌, ◌≢◌, refl, ap, String, true, ◌⊎◌, Option, some, [], ◌∷◌, string_eq, arith,
}
use calendar_bridge.Base.Dict
use calendar_bridge.Effect.{ok}
use calendar_bridge.Disk.{
  File, Disk, works, dies, Machine, returned, died, system, next_call, become, create, chmod,
  write_file, sync_file, touch, rename, free_name, make_temp, create_temp, Survives, in_stored,
  kept,
}
use calendar_bridge.AtomicFile.{Paths, temp_path, owner_only, or_close, replace, with_temp, write}
use calendar_bridge.AtomicFile.Crash.{write-Survives}

abbrev pub here : Paths
here = record { dir = λ path. "."; base = λ path. path; join = λ dir name. "." :> ("/" :> name) }

pub dotted : (suffix : String) → temp_path here "c.yaml" suffix ≢ "c.yaml"
unfolding temp_path
dotted suffix same =
    absurd (omega (arith, ap code (head-eq_of_cons-eq {x = "."} {y = "c"} {ys = ".yaml"} same)))

abbrev pub saved_file : String → File
saved_file text = record { contents = text; mode = 0o600; synced = true }

abbrev pub disk_of : String → Disk
disk_of text = record {
  live = ("c.yaml", saved_file text) ∷ [];
  stored = ("c.yaml", saved_file text) ∷ [];
}

-- The machine crashes in the rename.
abbrev crashing : Machine
crashing = record {
  disk = disk_of "old";
  events = works ∷ works ∷ works ∷ works ∷ works ∷ dies "" ∷ [];
  suffixes = "1" ∷ [];
}

write_run : (write here "c.yaml" "new" owner_only crashing).0 ≡ died
unfolding write with_temp replace create_temp make_temp free_name create system next_call become
    chmod write_file sync_file touch rename or_close Dict.lookup string_eq temp_path
write_run = refl

-- The entry that was synced last is still there.
old_left : Survives (write here "c.yaml" "new" owner_only crashing).1.disk "c.yaml" (some "old")
unfolding write with_temp replace create_temp make_temp free_name create system next_call become
    chmod write_file sync_file touch rename or_close Dict.lookup string_eq temp_path
old_left = in_stored (some "old") (kept (saved_file "old"))

write-Survives_example :
    (◌≡◌ {A = Option String} (some "old") (some "new"))
    ⊎ (Survives crashing.disk "c.yaml" (some "old")
        × ((write here "c.yaml" "new" owner_only crashing).0 ≢ returned (ok tt)))
write-Survives_example =
    write-Survives here "c.yaml" "new" owner_only crashing (some "old") dotted old_left
