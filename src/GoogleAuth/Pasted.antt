-- ===== src/GoogleAuth/Pasted.antt =====
-- Which pasted lines `Authorize` of internal/googleauth/googleauth.go accepts.
use calendar_bridge.Base.{
  ◌≡◌, ◌≢◌, refl, ◌∙◌, String, true, false, inl, inr, ◌==◌, Bool-cases, string_eq, arith,
}
use calendar_bridge.Base.Text.{trim_space, contains_text}
use calendar_bridge.Fault.{Fault, wrapped}
use calendar_bridge.Effect.{Result, ok, err}
use calendar_bridge.Disk.{Machine, Outcome, returned, explained}
use calendar_bridge.AtomicFile.{Paths}
use calendar_bridge.GoogleAuth.Tokens.{Token, TokenCodec, save_token}
use calendar_bridge.GoogleAuth.Authorize.{
  Query, code_of, code_in, extract_auth_code, save_exchanged, exchange_code, authorize,
}

-- The code of a redirect URL that carries the state of this run.
pub record IsRedirect (q : Query) (state code : String) : Type 0 where
  pub code_given : q.get "code" ≡ code
  pub state_same : q.get "state" ≡ state
  pub not_refused : q.get "error" ≡ ""

code_of-IsRedirect :
    (state code : String) (q : Query)
    → code_of state (ok q) ≡ ok code
    → IsRedirect q state code × (code ≢ "")
unfolding code_of
code_of-IsRedirect state code q h = (
  record { code_given = ground arith; state_same = ground arith; not_refused = ground arith },
  λ empty. ground arith,
)

module _ (parse_query : String → Result Query) where
  -- A bare code, or the code of such a URL.
  pub data IsOurs (line state code : String) : Type 0 where
    bare :
        contains_text "://" (trim_space line) ≡ false
        → trim_space line ≡ code
        → IsOurs line state code
    redirect :
        (q : Query)
        → contains_text "://" (trim_space line) ≡ true
        → parse_query (trim_space line) ≡ ok q
        → IsRedirect q state code
        → IsOurs line state code

  url-IsOurs :
      (line state code : String) (url : Result Query)
      → contains_text "://" (trim_space line) ≡ true
      → parse_query (trim_space line) ≡ url
      → code_of state url ≡ ok code
      → IsOurs line state code × (code ≢ "")
  unfolding code_of
  url-IsOurs line state code (err e) is_url parsed h = cc
  url-IsOurs line state code (ok q) is_url parsed h =
      let (ours, set) = code_of-IsRedirect state code q h in (redirect q is_url parsed ours, set)

  bare-IsOurs :
      (line state code : String)
      → contains_text "://" (trim_space line) ≡ false
      → trim_space line ≢ ""
      → ok (trim_space line) ≡ ok code
      → IsOurs line state code × (code ≢ "")
  bare-IsOurs line state code no_url set h =
      let same : trim_space line ≡ code = cc in (bare no_url same, λ empty. set (same ∙ empty))

  extract_auth_code-IsOurs :
      (line state code : String)
      → extract_auth_code parse_query line state ≡ ok code
      → IsOurs line state code × (code ≢ "")
  unfolding extract_auth_code code_in
  extract_auth_code-IsOurs line state code h = elim (string_eq.dec (trim_space line) "") [
    | yes empty ↦ absurd (ground arith)
    | no set ↦ elim (Bool-cases (contains_text "://" (trim_space line))) [
      | inl is_url ↦ url-IsOurs line state code _ is_url refl (ground arith)
      | inr no_url ↦ bare-IsOurs line state code no_url set (ground arith)
    ]
  ]

  module _ (exchange : String → Result Token) (codec : TokenCodec) (paths : Paths)
      (token_file state line : String) (m : Machine) where
    -- Nothing happens, or the token of such a code is saved.
    pub data Attempt : Outcome (Unit {0}) × Machine → Type 0 where
      refused : (e : Fault) → Attempt (returned (err e), m)
      accepted :
          (code : String) (tok : Token)
          → IsOurs line state code
          → code ≢ ""
          → exchange code ≡ ok tok
          → tok.refresh_token ≢ ""
          → Attempt (explained (wrapped "saving token") (save_token codec paths token_file tok m))

    save_exchanged-Attempt :
        (code : String) (exchanged : Result Token)
        → IsOurs line state code
        → code ≢ ""
        → exchange code ≡ exchanged
        → Attempt (save_exchanged parse_query exchange codec paths token_file exchanged m)
    unfolding save_exchanged
    save_exchanged-Attempt code (err e) ours set same = refused _
    save_exchanged-Attempt code (ok tok) ours set same =
        elim (Bool-cases (tok.refresh_token == "")) [
          | inl h ↦ rw h (refused _)
          | inr h ↦ rw h (accepted code tok ours set same (λ empty. ground arith))
        ]

    exchange_code-Attempt :
        (code : Result String)
        → extract_auth_code parse_query line state ≡ code
        → Attempt (exchange_code parse_query exchange codec paths token_file code m)
    unfolding exchange_code
    exchange_code-Attempt (err e) same = refused _
    exchange_code-Attempt (ok code) same =
        let (ours, set) = extract_auth_code-IsOurs line state code same in
        save_exchanged-Attempt code (exchange code) ours set refl

    -- `Authorize` leaves everything as it was and reports an error, or it has saved a token that was
    -- given for a bare code that was pasted or for the code of a redirect URL with the state of this
    -- run and no error, which is not empty, and the token has a refresh token.
    pub authorize-Attempt :
        Attempt (authorize parse_query exchange codec paths token_file state line m)
    unfolding authorize
    authorize-Attempt = exchange_code-Attempt (extract_auth_code parse_query line state) refl
