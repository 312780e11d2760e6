-- ===== src/GoogleAuth/Interactive.antt =====
-- `Authorize` of internal/googleauth/googleauth.go as a whole: what it reads before the pasted line.
use calendar_bridge.Base.{String, Option, none, some, ◌==◌, string_eq, if◌then◌else◌}
use calendar_bridge.Fault.{Fault, wrapped}
use calendar_bridge.Effect.{Result, ok, err}
use calendar_bridge.Disk.{Io, ◌>>=◌, answer}
use calendar_bridge.AtomicFile.{Paths}
use calendar_bridge.GoogleAuth.Tokens.{Token, TokenCodec}
use calendar_bridge.GoogleAuth.Client.{OauthLibrary, explained_result, load_oauth_config}
use calendar_bridge.GoogleAuth.Authorize.{Query, authorize}

-- What comes from outside: the random state, and the line that is read from stdin with its error.
pub record Prompt : Type 0 where
  pub state : Result String
  pub line : String
  pub line_error : Option Fault

-- A last line without a newline is read with an error.
unfoldable pub read_line : String → Option Fault → Result String
read_line line none = ok line
read_line line (some e) =
    if line == "" then err (wrapped "reading authorization code" e) else ok line

module _ (parse_query : String → Result Query) (codec : TokenCodec) (paths : Paths)
    (lib : OauthLibrary) (exchange : lib.OauthConfig → String → Result Token)
    (prompt : Prompt) where
  unfoldable pub ask : String → lib.OauthConfig → Io (Unit {0})
  ask token_file config = do
    state ← answer (explained_result "generating OAuth state" prompt.state)
    line ← answer (read_line prompt.line prompt.line_error)
    authorize parse_query (exchange config) codec paths token_file state line

  -- `Authorize`
  unfoldable pub authorize_account : String → String → Io (Unit {0})
  authorize_account credentials_file token_file = do
    config ← load_oauth_config codec lib credentials_file
    ask token_file config
