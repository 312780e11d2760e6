-- ===== src/Daemon/Command.antt =====
-- `main` and `parseFlags` of cmd/calendar-bridge/main.go: which command runs, with which flags. What is
-- printed on the way to an exit is left out.
use calendar_bridge.Base.{String, ◌||◌, List, [], ◌∷◌, ◌==◌, string_eq, if◌then◌else◌}
use calendar_bridge.Daemon.Exit.{exit_ok, exit_usage}
use calendar_bridge.Daemon.Setup.{Started, going, exits}

-- What `fs.Parse` of package flag comes to: the flags with the arguments after them, a request for help,
-- or another error.
pub data Parsed (F : Type 0) : Type 0 where
  parsed : F → List String → Parsed F
  help_asked malformed : Parsed F

-- `parseFlags`
unfoldable pub parse_flags : {F : Type 0} → Parsed F → Started F
parse_flags (parsed flags []) = going flags
parse_flags (parsed flags (arg ∷ args)) = exits exit_usage
parse_flags help_asked = exits exit_ok
parse_flags malformed = exits exit_usage

pub data Command : Type 0 where
  auth run sync_once ui print_version print_usage : Command

unfoldable pub command_named : String → Started Command
command_named name =
    if name == "auth"
    then going auth
    else if name == "run"
    then going run
    else if name == "sync-once"
    then going sync_once
    else if name == "ui"
    then going ui
    else if name == "version" || name == "-version" || name == "--version"
    then going print_version
    else if name == "-h" || name == "--help" || name == "help"
    then going print_usage
    else exits exit_usage

-- The switch of `main`, on the arguments after the name of the program.
unfoldable pub command_of : List String → Started Command
command_of [] = exits exit_usage
command_of (name ∷ args) = command_named name
