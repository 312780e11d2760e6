-- ===== src/GoogleAuth/Source.antt =====
-- `persistingTokenSource` of internal/googleauth/googleauth.go, over the answers of the source in it.
-- The warning where a token cannot be saved is left out.
use calendar_bridge.Base.{
  String, not, ◌&&◌, Option, none, some, List, [], ◌∷◌, ◌==◌, ◌/=◌, string_eq, if◌then◌else◌,
}
use calendar_bridge.Effect.{Result, ok, err}
use calendar_bridge.Disk.{Machine, Outcome, returned, died}
use calendar_bridge.AtomicFile.{Paths}
use calendar_bridge.GoogleAuth.Tokens.{Token, token_changed, TokenCodec, save_token}

-- The field `last`, and the machine with the token file.
pub record Cache : Type 0 where
  pub last : Option Token
  pub machine : Machine

-- The refresh token that was there is kept, if the new token has none.
unfoldable pub to_save : Option Token → Token → Token
to_save none tok = tok
to_save (some last) tok =
    if tok.refresh_token == "" && last.refresh_token /= ""
    then record tok { refresh_token = last.refresh_token }
    else tok

module _ (codec : TokenCodec) (paths : Paths) (path : String) where
  -- What `Token` answers once the token was saved, or could not be.
  unfoldable pub note_saved :
      Token → Token → Option Token → Outcome (Unit {0}) × Machine → Outcome Token × Cache
  note_saved tok saved last (returned (ok _), m) =
      (returned (ok tok), record { last = some saved; machine = m })
  note_saved tok saved last (returned (err e), m) =
      (returned (ok tok), record { last = last; machine = m })
  note_saved tok saved last (died, m) = (died, record { last = last; machine = m })

  -- `Token`, of the answer of `s.inner.Token()`.
  unfoldable pub token : Result Token → Cache → Outcome Token × Cache
  token (err e) c = (returned (err e), c)
  token (ok tok) c =
      if not (token_changed c.last tok)
      then (returned (ok tok), c)
      else note_saved tok (to_save c.last tok) c.last
          (save_token codec paths path (to_save c.last tok) c.machine)

-- The rest of the calls, if the machine has not crashed.
unfoldable pub next_tokens : (Cache → Cache) → Outcome Token × Cache → Cache
next_tokens rest (returned r, c) = rest c
next_tokens rest (died, c) = c

-- One call of `Token` after another, as long as the machine does not crash.
unfoldable pub tokens : TokenCodec → Paths → String → List (Result Token) → Cache → Cache
tokens codec paths path [] c = c
tokens codec paths path (r ∷ answers) c =
    next_tokens (tokens codec paths path answers) (token codec paths path r c)
