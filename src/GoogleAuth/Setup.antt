-- ===== src/GoogleAuth/Setup.antt =====
-- What the failures of `Client` (internal/googleauth/googleauth.go) say of the files of an account, and
-- the exit codes that `reportSetupError` (cmd/calendar-bridge/main.go) gives them.
use calendar_bridge.Base.{ℕ, ◌≡◌, String, ◌<>◌, false, none, some, string_eq}
use calendar_bridge.Base.Dict
use calendar_bridge.Fault.{
  Fault, message, wrapped, joined, needs_auth, token_unreadable, token_inaccessible, errors_is,
  is_needs_auth, is_token_unreadable, is_token_inaccessible,
}
use calendar_bridge.Effect.{ok, err}
use calendar_bridge.Disk.{File, Disk, Machine, Outcome, returned, died}
use calendar_bridge.Disk.Reads.{Fails, Reads}
use calendar_bridge.GoogleAuth.Tokens.{Token, TokenCodec, usable}
use calendar_bridge.GoogleAuth.Client.{OauthLibrary}
use calendar_bridge.Daemon.Exit.{exit_auth, exit_runtime, report_setup_error}

-- `buildEngine` names the account of an error.
abbrev pub exit_code : String → Fault → ℕ
exit_code name e = report_setup_error (wrapped ("account " <> name) e)

-- An error of the libraries, which is none of googleauth's.
abbrev pub IsForeign : Fault → Type 0
IsForeign e =
    (errors_is is_needs_auth e ≡ false)
    × (errors_is is_token_inaccessible e ≡ false)
    × (errors_is is_token_unreadable e ≡ false)

module _ (codec : TokenCodec) (lib : OauthLibrary) (name token_file : String)
    (start : Machine) where
  open lib use {OauthConfig, Service, config_from_json, new_service}

  -- What `Client` returns for an account on this machine.
  pub data Setup : Outcome Service → Type 0 where
    connected : (s : Service) → Setup (returned (ok s))
    stopped : Setup died
    -- The exit code tells that this is no matter of authorization.
    no_service : (e : Fault) → exit_code name e ≡ exit_runtime → Setup (returned (err e))
    -- The token file is missing.
    not_authorized :
        (e : Fault)
        → e ≡ needs_auth
        → Dict.lookup token_file start.disk.live ≡ none
        → exit_code name e ≡ exit_auth
        → Setup (returned (err e))
    -- The token file is no token.
    corrupt :
        (e : Fault) (f : File)
        → e ≡ token_unreadable
        → Dict.lookup token_file start.disk.live ≡ some f
        → usable codec (codec.decode f.contents) ≡ err token_unreadable
        → exit_code name e ≡ exit_auth
        → Setup (returned (err e))
    -- The token file is there and was opened, and reading it failed.
    cut_short :
        (e : Fault) (f : File) (reason : String)
        → e ≡ token_unreadable
        → Dict.lookup token_file start.disk.live ≡ some f
        → Fails reason start
        → exit_code name e ≡ exit_auth
        → Setup (returned (err e))
    -- The token file is there and opening it failed, for this reason.
    inaccessible :
        (e : Fault) (f : File) (reason : String)
        → e ≡ joined token_inaccessible (message reason)
        → Fails reason start
        → Dict.lookup token_file start.disk.live ≡ some f
        → exit_code name e ≡ exit_auth
        → Setup (returned (err e))

  -- The libraries' own errors are none of googleauth's.
  pub record ForeignErrors : Type 0 where
    pub parsing : (text : String) (e : Fault) → config_from_json text ≡ err e → IsForeign e
    pub service : (c : OauthConfig) (t : Token) (e : Fault) → new_service c t ≡ err e → IsForeign e
