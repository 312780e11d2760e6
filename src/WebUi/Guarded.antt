-- ===== src/WebUi/Guarded.antt =====
-- What reaches the API of internal/webui/server.go.
use text.Mathlib.Text.{starts_with}
use calendar_bridge.Base.{
  ◌≡◌, ◌≢◌, refl, ap, sym, ◌∙◌, String, Bool, true, false, not, ◌&&◌, ◌||◌, ◌⊎◌, inl, inr, Option,
  none, some, [], ◌==◌, ◌/=◌, Bool-cases, string_eq, arith,
}
use calendar_bridge.Base.Text.{cut_at, equal_fold, trim_space}
use calendar_bridge.Effect.{Result, ok, err}
use calendar_bridge.Config.Validate.{Url}
use calendar_bridge.Config.Files.{Net}
use calendar_bridge.WebUi.Http.{
  Request, Response, World, Reply, replied, no_store, no_sniff, http_error, plain_error,
}
use calendar_bridge.WebUi.Guards.{
  host_is_loopback_authority, token_matches, valid_token, auth_middleware, is_same_site,
  origin_matches, is_same_origin, csrf_guard,
}
use calendar_bridge.WebUi.Handlers.{Packages, Server}
use calendar_bridge.WebUi.Server.{security_headers, api, root, handler}

-- The header has the bearer scheme, in any case of letters, and this token.
pub record IsBearer (token header : String) : Type 0 where
  pub scheme : String
  pub given : String
  pub cut : cut_at b' ' header ≡ some (scheme, given)
  pub is_bearer : equal_fold scheme "bearer" ≡ true
  pub same : trim_space given ≡ token

-- The client has the token, or there is none and the client speaks to a loopback host.
abbrev pub IsTrusted : Net → String → Request → Type 0
IsTrusted net token req =
    ((token ≢ "") × IsBearer token req.authorization)
    ⊎ ((token ≡ "") × (host_is_loopback_authority net req.host ≡ true))

abbrev pub IsSameSite : Request → Type 0
IsSameSite req =
    (req.fetch_site ≡ "") ⊎ ((req.fetch_site ≡ "same-origin") ⊎ (req.fetch_site ≡ "none"))

abbrev pub IsSameOrigin : (String → Result Url) → Request → Type 0
IsSameOrigin parse_url req =
    (req.origin ≡ "") ⊎ ((u : Url) × (parse_url req.origin ≡ ok u) × (u.host ≡ req.host))

module _ (sha256 : String → String) (token : String) where
  token_matches-same :
      (cut : Option (String × String)) (header : String)
      → ((text : String) → sha256 text ≡ sha256 token → text ≡ token)
      → cut_at b' ' header ≡ cut
      → token_matches sha256 token cut ≡ true
      → IsBearer token header
  unfolding token_matches
  token_matches-same none header no_collision found h = cc
  token_matches-same (some (scheme, given)) header no_collision found h = record {
    scheme = scheme;
    given = given;
    cut = found;
    is_bearer = ground arith;
    same = no_collision (trim_space given) (ground arith);
  }

  valid_token-IsBearer :
      (header : String)
      → ((text : String) → sha256 text ≡ sha256 token → text ≡ token)
      → valid_token sha256 token header ≡ true
      → IsBearer token header
  unfolding valid_token
  valid_token-IsBearer header no_collision h = token_matches-same _ header no_collision refl h

  IsBearer-valid_token :
      (header : String) → IsBearer token header → valid_token sha256 token header ≡ true
  unfolding valid_token token_matches
  IsBearer-valid_token header b = rw (b.cut, token_matches) (ground (arith, ap sha256 b.same))

  -- The token is tested where there is one.
  IsBearer-cases :
      (header : String)
      → ((text : String) → sha256 text ≡ sha256 token → text ≡ token)
      → ((token /= "" && not (valid_token sha256 token header) ≡ false)
          × (((token ≢ "") × IsBearer token header) ⊎ (token ≡ "")))
        ⊎ ((token /= "" && not (valid_token sha256 token header) ≡ true)
            × (token ≢ "")
            × ¬ IsBearer token header)
  IsBearer-cases header no_collision = elim (string_eq.dec token "") [
    | yes free ↦ inl (ground arith, inr free)
    | no set ↦ elim (Bool-cases (valid_token sha256 token header)) [
      | inl h ↦ inl (ground arith, inl (set, valid_token-IsBearer header no_collision h))
      | inr h ↦ inr (ground arith, set, λ b. cc (IsBearer-valid_token header b))
    ]
  ]

module _ {W : Type 0} (p : Packages) (s : Server W) (net : Net) (sha256 : String → String) where
  abbrev pub IsAdmitted : Request → Type 0
  IsAdmitted req = IsTrusted net s.auth_token req × IsSameSite req × IsSameOrigin p.parse_url req

  -- A request reaches the API, or nothing happens.
  pub data Verdict (req : Request) (w : World W) : Reply × World W → Type 0 where
    admitted : IsAdmitted req → Verdict req w (api p s req (no_sniff (no_store [])) w)
    unauthorized :
        (r : Response)
        → r.status ≡ 401
        → s.auth_token ≢ ""
        → ¬ IsBearer s.auth_token req.authorization
        → Verdict req w (replied r, w)
    forbidden : (r : Response) → r.status ≡ 403 → ¬ IsAdmitted req → Verdict req w (replied r, w)

-- A test and what it tests.
abbrev Decides : Bool → Type 0 → Type 0
Decides b P = ((b ≡ true) × P) ⊎ ((b ≡ false) × ¬ P)

is_same_site-Decides : (req : Request) → Decides (is_same_site req.fetch_site) (IsSameSite req)
unfolding is_same_site
is_same_site-Decides req = ground arith

Decides-eq : (a b : String) → Decides (a == b) (a ≡ b)
Decides-eq a b = ground arith

Decides-or : (b c : Bool) (P Q : Type 0) → Decides b P → Decides c Q → Decides (b || c) (P ⊎ Q)
Decides-or b c P Q (inl (h, p)) e = inl (rw h refl, inl p)
Decides-or b c P Q (inr (h, p)) (inl (k, q)) = inl (rw (h, k) refl, inr q)
Decides-or b c P Q (inr (h, p)) (inr (k, q)) =
    inr (rw (h, k) refl, λ either. elim either [ inl x ↦ p x | inr y ↦ q y ])

abbrev host_of : Result Url → String
host_of (err e) = ""
host_of (ok u) = u.host

module _ (parse_url : String → Result Url) (req : Request) where
  origin_matches-Decides :
      (url : Result Url)
      → parse_url req.origin ≡ url
      → Decides
          (origin_matches req.host url)
          ((u : Url) × (parse_url req.origin ≡ ok u) × (u.host ≡ req.host))
  origin_matches-Decides (err e) same = inr (refl, λ found. cc)
  origin_matches-Decides (ok u) same = elim (Decides-eq u.host req.host) [
    | inl (h, p) ↦ inl (h, (u, same, p))
    | inr (h, n) ↦ inr (h, λ found. n (ap host_of (sym same ∙ found.1) ∙ found.2))
  ]

  is_same_origin-Decides : Decides (is_same_origin parse_url req) (IsSameOrigin parse_url req)
  unfolding is_same_origin
  is_same_origin-Decides =
      Decides-or _ _ _ _ (Decides-eq req.origin "") (origin_matches-Decides _ refl)

module _ (net : Net) (token : String) (req : Request) where
  -- The host is tested where there is no token.
  IsTrusted-cases :
      (((token ≢ "") × IsBearer token req.authorization) ⊎ (token ≡ ""))
      → ((token == "" && not (host_is_loopback_authority net req.host) ≡ false)
          × IsTrusted net token req)
        ⊎ ((token == "" && not (host_is_loopback_authority net req.host) ≡ true)
            × ¬ IsTrusted net token req)
  IsTrusted-cases (inl (set, bearer)) = inl (ground arith, inl (set, bearer))
  IsTrusted-cases (inr free) = elim (Bool-cases (host_is_loopback_authority net req.host)) [
    | inl h ↦ inl (ground arith, inr (free, h))
    | inr h ↦ inr (ground arith, λ trusted. elim trusted [ inl x ↦ x.0 free | inr y ↦ cc ])
  ]

module _ {W : Type 0} (p : Packages) (s : Server W) (net : Net) (sha256 : String → String) where
  csrf_guard-Verdict :
      (req : Request) (w : World W)
      → (((s.auth_token ≢ "") × IsBearer s.auth_token req.authorization) ⊎ (s.auth_token ≡ ""))
      → Verdict p s net sha256 req w
          (csrf_guard net p.parse_url s.auth_token (api p s) req (no_sniff (no_store [])) w)
  unfolding csrf_guard plain_error http_error
  csrf_guard-Verdict req w trust = elim (IsTrusted-cases net s.auth_token req trust) [
    | inr (h, n) ↦ rw h (forbidden _ refl (λ a. n a.0))
    | inl (h, trusted) ↦ rw h (elim (is_same_site-Decides req) [
      | inr (k, n) ↦ rw k (forbidden _ refl (λ a. n a.1))
      | inl (k, site) ↦ rw k (elim (is_same_origin-Decides p.parse_url req) [
        | inr (l, n) ↦ rw l (forbidden _ refl (λ a. n a.2))
        | inl (l, origin) ↦ rw l (admitted (trusted, site, origin))
      ])
    ])
  ]

  auth_middleware-Verdict :
      (req : Request) (w : World W)
      → ((text : String) → sha256 text ≡ sha256 s.auth_token → text ≡ s.auth_token)
      → Verdict p s net sha256 req w (
          auth_middleware sha256 s.auth_token
            (csrf_guard net p.parse_url s.auth_token (api p s))
            req
            (no_sniff (no_store []))
            w)
  unfolding auth_middleware plain_error http_error
  auth_middleware-Verdict req w no_collision =
      elim (IsBearer-cases sha256 s.auth_token req.authorization no_collision) [
        | inl (h, trust) ↦ rw h (csrf_guard-Verdict req w trust)
        | inr (h, set, n) ↦ rw h (unauthorized _ refl set n)
      ]

  -- A request to a path of the API reaches it, with the world as it was, exactly if the client has
  -- the configured token, or there is none and the request names a loopback host, and if the request
  -- comes from the same site and the same origin by its headers. Any other is answered by 401, where
  -- the token is missing, or 403, and nothing happens; if no text has the digest of the token but
  -- the token, and the mux does not redirect the request.
  pub handler-Verdict :
      (redirect : Request → Option String) (new_nonce : World W → Option String × World W)
      (req : Request) (w : World W)
      → ((text : String) → sha256 text ≡ sha256 s.auth_token → text ≡ s.auth_token)
      → redirect req ≡ none
      → starts_with req.path "/api/" ≡ true
      → Verdict p s net sha256 req w (handler p s net sha256 redirect new_nonce req w)
  unfolding handler security_headers root
  handler-Verdict redirect new_nonce req w no_collision stays under =
      rw (stays, root) (rw under (auth_middleware-Verdict req w no_collision))
