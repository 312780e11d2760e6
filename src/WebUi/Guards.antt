-- ===== src/WebUi/Guards.antt =====
-- The guards of internal/webui/server.go before the API: `authMiddleware` and `csrfGuard`.
use calendar_bridge.Base.{
  String, Bool, false, not, ◌&&◌, ◌||◌, Option, none, some, ◌==◌, ◌/=◌, string_eq, if◌then◌else◌,
}
use calendar_bridge.Base.Dict
use calendar_bridge.Base.Dict.{Dict}
use calendar_bridge.Base.Text.{between, contains_char, cut_at, equal_fold, trim_space}
use calendar_bridge.Effect.{Result, ok, err}
use calendar_bridge.Config.Validate.{Url}
use calendar_bridge.Config.Files.{Net, is_loopback_host}
use calendar_bridge.WebUi.Http.{Request, Handler, plain_error}

-- `hostIsLoopbackAuthority` of a host without a port: in balanced brackets, or without brackets.
unfoldable pub bare_host : String → Option String
unfolding between contains_char
bare_host host = elim (between b'[' b']' host) [
  | some inner ↦ some inner
  | none ↦ if contains_char b'[' host || contains_char b']' host then none else some host
]

abbrev or_bare : String → Option String → Option String
or_bare host (some h) = some h
or_bare host none = bare_host host

module _ (net : Net) where
  unfoldable pub loopback_named : Option String → Bool
  loopback_named none = false
  loopback_named (some h) = is_loopback_host net h

  unfoldable pub host_is_loopback_authority : String → Bool
  unfolding bare_host
  host_is_loopback_authority host =
      if host == "" then false else loopback_named (or_bare host (net.split_host_port host))

-- `validToken`, of the scheme and the token of the header and of the configured token.
module _ (sha256 : String → String) where
  unfoldable pub token_matches : String → Option (String × String) → Bool
  token_matches token none = false
  token_matches token (some (scheme, given)) =
      equal_fold scheme "bearer" && sha256 (trim_space given) == sha256 token

  unfoldable pub valid_token : String → String → Bool
  valid_token token header = token_matches token (cut_at b' ' header)

  -- `authMiddleware`
  unfoldable pub auth_middleware : {W : Type 0} → String → Handler W → Handler W
  auth_middleware auth_token next req headers w =
      if auth_token /= "" && not (valid_token auth_token req.authorization)
      then plain_error "unauthorized" 401 (Dict.insert "WWW-Authenticate" "Bearer" headers) w
      else next req headers w

-- The origin names the host of the request.
abbrev pub origin_matches : String → Result Url → Bool
origin_matches host (err e) = false
origin_matches host (ok u) = u.host == host

unfoldable pub is_same_site : String → Bool
is_same_site site = site == "" || site == "same-origin" || site == "none"

unfoldable pub is_same_origin : (String → Result Url) → Request → Bool
is_same_origin parse_url req = req.origin == "" || origin_matches req.host (parse_url req.origin)

module _ (net : Net) (parse_url : String → Result Url) where
  -- `csrfGuard`
  unfoldable pub csrf_guard : {W : Type 0} → String → Handler W → Handler W
  csrf_guard auth_token next req headers w =
      if auth_token == "" && not (host_is_loopback_authority net req.host)
      then plain_error "unexpected Host" 403 headers w
      else if not (is_same_site req.fetch_site)
      then plain_error "cross-site request rejected" 403 headers w
      else if not (is_same_origin parse_url req)
      then plain_error "cross-origin request rejected" 403 headers w
      else next req headers w
