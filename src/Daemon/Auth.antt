-- ===== src/Daemon/Auth.antt =====
-- `runAuth` of cmd/calendar-bridge/main.go, once the flags are read. The result is the exit code; what is
-- written to stderr is left out.
use calendar_bridge.Base.{
  ℕ, String, Option, none, some, List, [], ◌∷◌, ◌==◌, string_eq, if◌then◌else◌,
}
use calendar_bridge.Effect.{ok, err}
use calendar_bridge.Disk.{Machine, Outcome, returned, died, Io, answer}
use calendar_bridge.Config.{AccountConfig, Config}
use calendar_bridge.Daemon.Exit.{exit_ok, exit_usage, exit_config, exit_auth}

-- The loop over the accounts, which ends at the first of this name.
unfoldable pub find_account : String → List AccountConfig → Option AccountConfig
find_account name [] = none
find_account name (a ∷ accounts) = if a.name == name then some a else find_account name accounts

unfoldable pub end_auth : Outcome (Unit {0}) × Machine → Outcome ℕ × Machine
end_auth (returned (ok u), m) = (returned (ok exit_ok), m)
end_auth (returned (err e), m) = (returned (ok exit_auth), m)
end_auth (died, m) = (died, m)

-- `load` is `config.Load`, and `authorize_account` is `googleauth.Authorize` on the credentials file and
-- the token file.
module _ (load : String → Io Config) (authorize_account : String → String → Io (Unit {0})) where
  unfoldable pub auth_found : Option AccountConfig → Io ℕ
  auth_found none = answer (ok exit_usage)
  auth_found (some a) = λ m. end_auth (authorize_account a.credentials_file a.token_file m)

  unfoldable pub auth_loaded : String → Outcome Config × Machine → Outcome ℕ × Machine
  auth_loaded name (returned (ok cfg), m) = auth_found (find_account name cfg.accounts) m
  auth_loaded name (returned (err e), m) = (returned (ok exit_config), m)
  auth_loaded name (died, m) = (died, m)

  -- `runAuth`, with the flags -config and -account.
  unfoldable pub run_auth : String → String → Io ℕ
  run_auth config_path name =
      if name == "" then answer (ok exit_usage) else λ m. auth_loaded name (load config_path m)
