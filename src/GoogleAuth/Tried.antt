-- ===== src/GoogleAuth/Tried.antt =====
-- What `Authorize` of internal/googleauth/googleauth.go can do to the files.
use calendar_bridge.Base.{
  ◌≡◌, ◌≢◌, refl, ◌∙◌, inl, inr, String, Option, none, some, ◌==◌, string_eq, Bool-cases,
}
use calendar_bridge.Fault.{Fault, wrapped}
use calendar_bridge.Effect.{Result, ok, err}
use calendar_bridge.Disk.{Machine, Outcome, returned, died, answer, after, explained, read_file}
use calendar_bridge.Disk.Reads.{read_file-disk}
use calendar_bridge.AtomicFile.{Paths}
use calendar_bridge.GoogleAuth.Tokens.{Token, TokenCodec, save_token}
use calendar_bridge.GoogleAuth.Client.{OauthLibrary, explained_result, load_oauth_config}
use calendar_bridge.GoogleAuth.Authorize.{Query, authorize}
use calendar_bridge.GoogleAuth.Interactive.{Prompt, read_line, ask, authorize_account}
use calendar_bridge.GoogleAuth.Pasted.{IsOurs, Attempt, refused, accepted, authorize-Attempt}

module _ (parse_query : String → Result Query) (codec : TokenCodec) (paths : Paths)
    (lib : OauthLibrary) (exchange : lib.OauthConfig → String → Result Token) (prompt : Prompt)
    (token_file : String) (before : Machine) where
  -- No file has changed, or what has happened is that a token was saved which was given for a code of
  -- this run and has a refresh token.
  pub data Tried : Outcome (Unit {0}) × Machine → Type 0 where
    failed : (e : Fault) (m : Machine) → m.disk ≡ before.disk → Tried (returned (err e), m)
    crashed : (m : Machine) → m.disk ≡ before.disk → Tried (died, m)
    saving :
        (config : lib.OauthConfig) (state code : String) (tok : Token) (m : Machine)
        → m.disk ≡ before.disk
        → prompt.state ≡ ok state
        → IsOurs parse_query prompt.line state code
        → code ≢ ""
        → exchange config code ≡ ok tok
        → tok.refresh_token ≢ ""
        → Tried (explained (wrapped "saving token") (save_token codec paths token_file tok m))

  Attempt-Tried :
      (config : lib.OauthConfig) (state : String) (m : Machine) (r : Outcome (Unit {0}) × Machine)
      → m.disk ≡ before.disk
      → prompt.state ≡ ok state
      → Attempt parse_query (exchange config) codec paths token_file state prompt.line m r
      → Tried r
  Attempt-Tried config state m r same drawn (refused e) = failed e m same
  Attempt-Tried config state m r same drawn (accepted code tok ours set given refreshable) =
      saving config state code tok m same drawn ours set given refreshable

  pasted-Tried :
      (config : lib.OauthConfig) (state : String) (m : Machine)
      → m.disk ≡ before.disk
      → prompt.state ≡ ok state
      → Tried (authorize parse_query (exchange config) codec paths token_file state prompt.line m)
  pasted-Tried config state m same drawn =
      Attempt-Tried config state m _ same drawn
        (authorize-Attempt parse_query (exchange config) codec paths token_file state prompt.line m)

  line-Tried :
      (config : lib.OauthConfig) (state : String) (m : Machine) (line_error : Option Fault)
      → m.disk ≡ before.disk
      → prompt.state ≡ ok state
      → Tried (
          after
            (answer (read_line prompt.line line_error) m)
            (λ line. authorize parse_query (exchange config) codec paths token_file state line))
  unfolding read_line
  line-Tried config state m none same drawn = pasted-Tried config state m same drawn
  line-Tried config state m (some e) same drawn = elim (Bool-cases (prompt.line == "")) [
    | inl empty ↦ rw empty (failed _ m same)
    | inr given ↦ rw given (pasted-Tried config state m same drawn)
  ]

  state-Tried :
      (config : lib.OauthConfig) (m : Machine) (state : Result String)
      → m.disk ≡ before.disk
      → prompt.state ≡ state
      → Tried (
          after (answer (explained_result "generating OAuth state" state) m) (λ state m'.
            after
              (answer (read_line prompt.line prompt.line_error) m')
              (λ line. authorize parse_query (exchange config) codec paths token_file state line)))
  unfolding explained_result
  state-Tried config m (err e) same drawn = failed _ m same
  state-Tried config m (ok state) same drawn =
      line-Tried config state m prompt.line_error same drawn

  config-Tried :
      (r : Outcome lib.OauthConfig × Machine)
      → r.1.disk ≡ before.disk
      → Tried (after r (ask parse_query codec paths lib exchange prompt token_file))
  unfolding ask
  config-Tried (returned (ok config), m) same = state-Tried config m prompt.state same refl
  config-Tried (returned (err e), m) same = failed e m same
  config-Tried (died, m) same = crashed m same

  answered-disk :
      {A B : Type 0} (text : Fault → Fault) (f : A → Result B) (r : Outcome A × Machine)
      → (after (explained text r) (λ a. answer (f a))).1.disk ≡ r.1.disk
  answered-disk text f (returned (ok a), m) = refl
  answered-disk text f (returned (err e), m) = refl
  answered-disk text f (died, m) = refl

  pub authorize_account-Tried :
      (credentials_file : String)
      → Tried (
          authorize_account parse_query codec paths lib exchange prompt credentials_file token_file
            before)
  unfolding authorize_account load_oauth_config
  authorize_account-Tried credentials_file = config-Tried _ (
      answered-disk _ _ (read_file credentials_file before)
      ∙ read_file-disk credentials_file before)
