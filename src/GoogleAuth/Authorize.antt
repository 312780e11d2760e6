-- ===== src/GoogleAuth/Authorize.antt =====
-- `Authorize` and `extractAuthCode` of internal/googleauth/googleauth.go, once the operator has pasted
-- a line.
use calendar_bridge.Base.{String, ◌==◌, ◌/=◌, string_eq, if◌then◌else◌}
use calendar_bridge.Base.Text.{trim_space, contains_text}
use calendar_bridge.Fault.{message, wrapped}
use calendar_bridge.Effect.{Result, ok, err}
use calendar_bridge.Disk.{Io, answer, explained}
use calendar_bridge.AtomicFile.{Paths}
use calendar_bridge.GoogleAuth.Tokens.{Token, TokenCodec, save_token}

-- The query of a URL: `url.Parse`, `Query` and `Get`.
pub record Query : Type 0 where
  pub get : String → String

unfoldable pub code_of : String → Result Query → Result String
code_of want_state (err e) = err (wrapped "parsing as URL" e)
code_of want_state (ok q) =
    if q.get "error" /= ""
    then err (message "the authorization was refused")
    else if q.get "code" == ""
    then err (message "URL has no ?code= parameter")
    else if q.get "state" /= want_state
    then err (message "the redirect URL's state parameter is missing or does not match")
    else ok (q.get "code")

module _ (parse_query : String → Result Query) where
  -- `extractAuthCode`, of the trimmed input.
  unfoldable pub code_in : String → String → Result String
  code_in trimmed want_state =
      if trimmed == ""
      then err (message "empty input")
      else if contains_text "://" trimmed
      then code_of want_state (parse_query trimmed)
      else ok trimmed

  unfoldable pub extract_auth_code : String → String → Result String
  extract_auth_code input want_state = code_in (trim_space input) want_state

  -- `exchange` is `config.Exchange` with the verifier.
  module _ (exchange : String → Result Token) (codec : TokenCodec) (paths : Paths) where
    unfoldable pub save_exchanged : String → Result Token → Io (Unit {0})
    save_exchanged token_file (err e) = answer (err (wrapped "exchanging authorization code" e))
    save_exchanged token_file (ok tok) =
        if tok.refresh_token == ""
        then answer (err (message "no refresh token was returned"))
        else λ m. explained (wrapped "saving token") (save_token codec paths token_file tok m)

    unfoldable pub exchange_code : String → Result String → Io (Unit {0})
    exchange_code token_file (err e) =
        answer (err (wrapped "could not find a usable authorization code in the pasted input" e))
    exchange_code token_file (ok code) = save_exchanged token_file (exchange code)

    -- `Authorize` from the line and the state on.
    unfoldable pub authorize : String → String → String → Io (Unit {0})
    authorize token_file state line = exchange_code token_file (extract_auth_code line state)
