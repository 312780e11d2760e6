-- ===== src/GoogleAuth/Client.antt =====
-- `Client` and `loadOAuthConfig` of internal/googleauth/googleauth.go. Warnings are left out.
use calendar_bridge.Base.{String, if◌then◌else◌}
use calendar_bridge.Fault.{
  Fault, wrapped, joined, needs_auth, token_unreadable, token_inaccessible, errors_is, is_not_exist,
  is_token_unreadable,
}
use calendar_bridge.Effect.{Result, ok, err}
use calendar_bridge.Disk.{Io, ◌>>=◌, answer, explained, read_file}
use calendar_bridge.GoogleAuth.Tokens.{Token, TokenCodec, path_free_err, token_from_file}

-- The packages oauth2 and calendar: `google.ConfigFromJSON`, and a service with a token source.
pub record OauthLibrary : Type 1 where
  pub OauthConfig : Type 0
  pub Service : Type 0
  pub config_from_json : String → Result OauthConfig
  pub new_service : OauthConfig → Token → Result Service

unfoldable pub explained_result : {A : Type 0} → String → Result A → Result A
explained_result text (ok a) = ok a
explained_result text (err e) = err (wrapped text e)

-- What `Client` makes of an error of `tokenFromFile`.
unfoldable pub token_error : Fault → Fault
token_error e =
    if errors_is is_not_exist e
    then needs_auth
    else if errors_is is_token_unreadable e
    then token_unreadable
    else joined token_inaccessible (path_free_err e)

module _ (codec : TokenCodec) (lib : OauthLibrary) where
  open lib use {OauthConfig, Service, config_from_json, new_service}

  -- `loadOAuthConfig`
  unfoldable pub load_oauth_config : String → Io OauthConfig
  load_oauth_config path = do
    text ← λ m.
        explained (λ e. wrapped "reading credentials file" (path_free_err e)) (read_file path m)
    answer (explained_result "parsing credentials file" (config_from_json text))

  unfoldable pub connect : String → OauthConfig → Io Service
  connect token_file config = do
    tok ← λ m. explained token_error (token_from_file codec token_file m)
    answer (explained_result "creating calendar service" (new_service config tok))

  -- `Client`
  unfoldable pub client : String → String → Io Service
  client credentials_file token_file = do
    config ← load_oauth_config credentials_file
    connect token_file config
