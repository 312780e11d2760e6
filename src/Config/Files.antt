-- ===== src/Config/Files.antt =====
-- `Load`, `loadBytes`, `Save` and `IsLoopbackAddr` of internal/config/config.go.
use Prim.Native.Char.{code}
use Prim.Native.String
use calendar_bridge.Base.{
  ℕ, ◌+◌, String, ◌<>◌, Bool, true, false, Option, none, some, ltb, eqb, ◌==◌, string_eq,
  if◌then◌else◌,
}
use calendar_bridge.Fault.{Fault, message, wrapped}
use calendar_bridge.Effect.{Result, ok, err}
use calendar_bridge.Disk.{Io, ◌>>=◌, answer, explained, read_file}
use calendar_bridge.AtomicFile.{Paths, as_path_error, owner_only, write}
use calendar_bridge.Config.{Config}
use calendar_bridge.Config.Defaults.{Durations, apply_defaults}
use calendar_bridge.Config.Validate.{Url, Problem, validate}

-- `pathFree`
abbrev cause : Fault → Option Fault → Fault
cause e (some inner) = inner
cause e none = e

unfoldable pub path_free : Fault → Fault
path_free e = cause e (as_path_error e)

abbrev pub max_config_bytes : ℕ
max_config_bytes = 1_048_576

abbrev pub max_config_keys : ℕ
max_config_keys = 2000

-- `bytes.Count(data, []byte{':'})`
unfoldable pub count_colons : String → ℕ
count_colons String.[] = 0
count_colons (String.◌∷◌ c s) = (if eqb (code c) b':' then 1 else 0) + count_colons s

-- `gopkg.in/yaml.v3` on configurations.
pub record Yaml : Type 0 where
  pub unmarshal : String → Result Config
  pub marshal : Config → Result String

-- `explain` makes the error of a problem, and `parse_url` is `url.Parse`.
module _ (durations : Durations) (parse_url : String → Result Url) (explain : Problem → Fault)
    (yaml : Yaml) where
  unfoldable pub accept : Config → Option Problem → Result Config
  accept cfg (some p) = err (wrapped "invalid config" (explain p))
  accept cfg none = ok (apply_defaults durations cfg)

  unfoldable pub check_parsed : Result Config → Result Config
  check_parsed (err e) = err (wrapped "parsing config file" e)
  check_parsed (ok cfg) = accept cfg (validate durations parse_url cfg)

  unfoldable pub load_bytes : String → Result Config
  load_bytes text =
      if ltb max_config_keys (count_colons text)
      then err (message "config file has too many keys")
      else check_parsed (yaml.unmarshal text)

  -- The test for the length, of which `Load` reads one byte more than is allowed at most.
  unfoldable pub load_text : String → Result Config
  load_text text =
      if ltb max_config_bytes (String.len text)
      then err (message "config file exceeds the limit")
      else load_bytes text

  -- `Load`
  unfoldable pub load : String → Io Config
  load path = do
    text ← λ m. explained (λ e. wrapped "reading config file" (path_free e)) (read_file path m)
    answer (load_text text)

  module _ (paths : Paths) where
    -- `Save` once the configuration has been found valid and written as YAML.
    unfoldable pub save_text : String → Result String → Io (Unit {0})
    save_text path (err e) = answer (err (wrapped "marshaling config" e))
    save_text path (ok text) =
        λ m. explained (wrapped ("saving config to " <> path)) (write paths path text owner_only m)

    unfoldable pub save_checked : String → Config → Option Problem → Io (Unit {0})
    save_checked path cfg (some p) =
        answer (err (wrapped "refusing to save invalid config" (explain p)))
    save_checked path cfg none = save_text path (yaml.marshal cfg)

    -- `Save`
    unfoldable pub save : String → Config → Io (Unit {0})
    save path cfg = save_checked path cfg (validate durations parse_url cfg)

-- What `IsLoopbackAddr` asks package net: the host of an address with a port, and of an IP address
-- whether it is a loopback address.
pub record Net : Type 0 where
  pub split_host_port : String → Option String
  pub parse_ip : String → Option Bool

abbrev is_loopback_ip : Option Bool → Bool
is_loopback_ip none = false
is_loopback_ip (some loopback) = loopback

module _ (net : Net) where
  -- The end of `IsLoopbackAddr`, of a host.
  unfoldable pub is_loopback_host : String → Bool
  is_loopback_host host = if host == "localhost" then true else is_loopback_ip (net.parse_ip host)

  unfoldable pub loopback_part : Option String → Bool
  loopback_part none = false
  loopback_part (some host) = if host == "" then false else is_loopback_host host

  unfoldable pub is_loopback_addr : String → Bool
  is_loopback_addr addr = loopback_part (net.split_host_port addr)
