-- ===== src/Daemon/Version.antt =====
-- `buildInfo` and `versionString` of cmd/calendar-bridge/version.go.
use calendar_bridge.Base.Text.{has_suffix}
use calendar_bridge.Base.{
  String, ◌<>◌, Option, none, some, List, [], ◌∷◌, not, ◌&&◌, ◌==◌, ◌/=◌, string_eq, if◌then◌else◌,
}

-- The variables that the linker may set.
pub record Build : Type 0 where
  pub version : String
  pub commit : String
  pub date : String

-- What is read of `debug.BuildInfo`: the main module's version, and the settings.
pub record DebugInfo : Type 0 where
  pub main_version : String
  pub settings : List (String × String)

unfoldable pub with_version : String → Build → Build
with_version main_version b =
    if b.version == "dev" && main_version /= "" && main_version /= "(devel)"
    then record b { version = main_version }
    else b

unfoldable pub note_setting : String → String → Build → Build
note_setting key value b =
    if key == "vcs.revision"
    then (if b.commit == "" then record b { commit = value } else b)
    else if key == "vcs.time"
    then (if b.date == "" then record b { date = value } else b)
    else if key == "vcs.modified"
    then (if value == "true" && not (has_suffix b.version "+dirty")
        then record b { version = b.version <> "+dirty" }
        else b)
    else b

unfoldable pub note_settings : List (String × String) → Build → Build
note_settings [] b = b
note_settings ((key, value) ∷ settings) b = note_settings settings (note_setting key value b)

-- `buildInfo`
unfoldable pub build_info : Option DebugInfo → Build → Build
build_info none b = b
build_info (some info) b = note_settings info.settings (with_version info.main_version b)

-- `versionString`
unfoldable pub version_string : Option DebugInfo → Build → String
version_string info b = (build_info info b).version
