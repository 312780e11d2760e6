-- ===== src/Tests/Pages.antt =====
-- Requests to the configuration UI, and the files behind it.
use calendar_bridge.Base.{
  ◌≤◌, ◌≡◌, refl, ap, ◌∙◌, true, Option, none, some, [], ◌∷◌, string_eq, arith,
}
use calendar_bridge.Base.Dict
use calendar_bridge.Fault.{Fault, message}
use calendar_bridge.Effect.{ok}
use calendar_bridge.Disk.{
  Machine, Outcome, returned, system, next_call, become, create, chmod, write_file, sync_file,
  touch, moved, rename, remove_file, sync_entries, free_name, make_temp, create_temp,
}
use calendar_bridge.AtomicFile.{
  temp_path, owner_only, or_close, sync_dir, replace, with_temp, write,
}
use calendar_bridge.Config.Validate.{Problem}
use calendar_bridge.Config.Defaults.{apply_defaults}
use calendar_bridge.Config.Files.{
  Yaml, max_config_keys, count_colons, load, save_text, save_checked, save,
}
use calendar_bridge.Config.Reload.{load-save}
use calendar_bridge.Tests.Disks.{here, dotted, disk_of}
use calendar_bridge.Tests.Settings.{tally, parse_url, pair_config, pair_is_clear}

abbrev pub explain : Problem → Fault
explain p = message "invalid"

-- One configuration has a text.
abbrev pub yaml : Yaml
yaml = record { unmarshal = λ text. ok pair_config; marshal = λ c. ok "two: accounts" }

abbrev pub machine : Machine
machine = record { disk = disk_of "old"; events = []; suffixes = "1" ∷ [] }

-- The directory after a save of the pair, in its newest state and as it was synced.
abbrev after_save : Machine
after_save = record { disk = disk_of "two: accounts"; events = []; suffixes = [] }

checked_run :
    save_checked tally parse_url explain yaml here "c.yaml" pair_config none machine
    ≡ (returned (ok tt), after_save)
unfolding save_checked save_text write with_temp replace create_temp make_temp free_name create
    system next_call become chmod write_file sync_file touch moved rename or_close sync_dir
    sync_entries remove_file Dict.lookup Dict.insert Dict.update Dict.remove string_eq temp_path
checked_run = refl

saved_run :
    save tally parse_url explain yaml here "c.yaml" pair_config machine
    ≡ (returned (ok tt), after_save)
unfolding save
saved_run =
    ap
      (λ (problem : Option Problem).
        save_checked tally parse_url explain yaml here "c.yaml" pair_config problem machine)
      pair_is_clear
    ∙ checked_run

few_colons : count_colons "two: accounts" ≤ max_config_keys
unfolding count_colons
few_colons = omega arith

load-save_example :
    (Dict.lookup "c.yaml"
        (save tally parse_url explain yaml here "c.yaml" pair_config machine).1.disk.live
      ≡ some (record { contents = "two: accounts"; mode = owner_only; synced = true }))
    × (load tally parse_url explain yaml "c.yaml"
          (save tally parse_url explain yaml here "c.yaml" pair_config machine).1
        ≡ (
          returned (ok (apply_defaults tally pair_config)),
          (save tally parse_url explain yaml here "c.yaml" pair_config machine).1,
        ))
load-save_example =
    load-save tally parse_url explain yaml here "c.yaml" "two: accounts" pair_config machine dotted
      refl refl (omega arith) few_colons (ap (λ (r : Outcome (Unit {0}) × Machine). r.0) saved_run)
      (ap (λ (r : Outcome (Unit {0}) × Machine). r.1.events) saved_run)
