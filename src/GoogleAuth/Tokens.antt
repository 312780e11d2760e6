-- ===== src/GoogleAuth/Tokens.antt =====
-- `tokenFromFile`, `saveToken`, `tokenChanged` and `pathFreeErr` of internal/googleauth/googleauth.go.
use calendar_bridge.Base.{
  String, ◌<>◌, Bool, true, false, not, ◌&&◌, ◌||◌, Option, none, some, ◌==◌, ◌/=◌, eqb, string_eq,
  if◌then◌else◌,
}
use calendar_bridge.Base.Int.{ℤ, pos, negsuc}
use calendar_bridge.Fault.{Fault, wrapped, token_unreadable}
use calendar_bridge.Effect.{Result, ok, err}
use calendar_bridge.Disk.{File, Io, ◌>>=◌, answer, explained, open_file, read_open}
use calendar_bridge.AtomicFile.{Paths, as_path_error, owner_only, write}

-- What is read of `*oauth2.Token`.
pub record Token : Type 0 where
  pub access_token : String
  pub refresh_token : String
  pub expiry : ℤ

-- `time.Time.Equal`
abbrev pub same_time : ℤ → ℤ → Bool
same_time (pos a) (pos b) = eqb a b
same_time (negsuc a) (negsuc b) = eqb a b
same_time (pos a) (negsuc b) = false
same_time (negsuc a) (pos b) = false

-- `tokenChanged`
unfoldable pub token_changed : Option Token → Token → Bool
token_changed none new = true
token_changed (some old) new =
    if old.access_token /= new.access_token || not (same_time old.expiry new.expiry)
    then true
    else new.refresh_token /= "" && new.refresh_token /= old.refresh_token

-- `pathFreeErr`
abbrev cause : Fault → Option Fault → Fault
cause e (some inner) = inner
cause e none = e

unfoldable pub path_free_err : Fault → Fault
path_free_err e = cause e (as_path_error e)

-- Tokens as JSON, with package json.
pub record TokenCodec : Type 0 where
  pub decode : String → Option Token
  pub encode : Token → Result String

module _ (codec : TokenCodec) where
  -- A token file without tokens is as good as one that cannot be read.
  unfoldable pub usable : Option Token → Result Token
  usable none = err token_unreadable
  usable (some tok) =
      if tok.access_token == "" && tok.refresh_token == "" then err token_unreadable else ok tok

  -- Decoding the JSON of an open file: a failed read is not told from a text that is no token.
  unfoldable pub decode_open : String → File → Io Token
  decode_open path f = do
    text ← λ m. explained (λ e. token_unreadable) (read_open path f m)
    answer (usable (codec.decode text))

  -- `tokenFromFile`
  unfoldable pub token_from_file : String → Io Token
  token_from_file path = do f ← open_file path; decode_open path f

  unfoldable pub save_encoded : Paths → String → Result String → Io (Unit {0})
  save_encoded paths path (err e) = answer (err (wrapped "marshaling token" e))
  save_encoded paths path (ok text) = write paths path (text <> "\n") owner_only

  -- `saveToken`
  unfoldable pub save_token : Paths → String → Token → Io (Unit {0})
  save_token paths path tok = save_encoded paths path (codec.encode tok)
