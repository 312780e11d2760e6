-- ===== src/WebUi/Server.antt =====
-- `New`, `Handler`, `securityHeaders` and `handleIndex` of internal/webui. A world's random numbers are
-- asked for the nonce of the page, and `redirect` is where `http.ServeMux` sends a path that it
-- cleans first or that names a subtree without its slash.
use text.Mathlib.Text.{starts_with}
use calendar_bridge.Base.{
  String, ◌<>◌, Bool, not, ◌||◌, Option, none, some, [], ◌==◌, ◌/=◌, string_eq, if◌then◌else◌,
}
use calendar_bridge.Base.Dict
use calendar_bridge.Base.Dict.{Dict}
use calendar_bridge.Fault.{message}
use calendar_bridge.Effect.{Result, ok, err}
use calendar_bridge.Config.Files.{Net, is_loopback_addr}
use calendar_bridge.WebUi.Http.{
  Request, plain, page, World, Reply, replied, Handler, no_store, no_sniff, http_error, plain_error,
}
use calendar_bridge.WebUi.Guards.{auth_middleware, csrf_guard}
use calendar_bridge.WebUi.Handlers.{
  Packages, Server, handle_get_config, handle_put_config, handle_get_status, handle_sync,
}

-- `New`, where the listen address is checked only.
unfoldable pub new_server : {W : Type 0} → Net → String → Server W → Result (Server W)
new_server net listen_addr s =
    if s.config_path == ""
    then err (message "webui: ConfigPath is required")
    else if not (is_loopback_addr net listen_addr)
    then err (message "webui: refusing to bind non-loopback address")
    else ok s

-- The headers of the page.
abbrev pub policy : String → String
policy nonce =
    "default-src 'none'; style-src 'nonce-" <> nonce <> "'; script-src 'nonce-" <> nonce
    <> "'; connect-src 'self'; img-src 'self' data:; base-uri 'none'; frame-ancestors 'none'; form-action 'none'"

unfoldable pub page_headers : String → Dict String → Dict String
page_headers nonce headers = no_store (
    Dict.insert "Referrer-Policy" "no-referrer" (
      Dict.insert "X-Frame-Options" "DENY" (
        no_sniff (
          Dict.insert "Content-Security-Policy" (policy nonce)
            (Dict.insert "Content-Type" "text/html; charset=utf-8" headers)))))

abbrev pub is_get : String → Bool
is_get method = method == "GET" || method == "HEAD"

module _ {W : Type 0} where
  -- `http.ServeMux` for a path that it knows and a method that it does not.
  unfoldable pub not_allowed : String → Dict String → World W → Reply × World W
  not_allowed allow headers w =
      http_error "Method Not Allowed" 405 (Dict.insert "Allow" allow headers) w

  unfoldable pub serve_page : Dict String → Option String × World W → Reply × World W
  serve_page headers (none, w) = plain_error "internal error" 500 headers w
  serve_page headers (some nonce, w) = (
    replied (record { status = 200; headers = page_headers nonce headers; body = page nonce }),
    w,
  )

  -- `handleIndex`
  unfoldable pub handle_index : (World W → Option String × World W) → Handler W
  handle_index new_nonce req headers w =
      if req.path /= "/"
      then http_error "404 page not found" 404 headers w
      else if req.method /= "GET"
      then plain_error "method not allowed" 405 (Dict.insert "Allow" "GET" headers) w
      else serve_page headers (new_nonce w)

  -- `securityHeaders`
  unfoldable pub security_headers : Handler W → Request → World W → Reply × World W
  security_headers next req w = next req (no_sniff (no_store [])) w

  module _ (p : Packages) (s : Server W) where
    -- The mux of the API. A pattern for GET takes HEAD as well.
    unfoldable pub api : Handler W
    api req headers w =
        if req.path == "/api/config"
        then (if is_get req.method
            then handle_get_config p s req headers w
            else if req.method == "PUT"
            then handle_put_config p s req headers w
            else not_allowed "GET, HEAD, PUT" headers w)
        else if req.path == "/api/status"
        then (if is_get req.method
            then handle_get_status p s req headers w
            else not_allowed "GET, HEAD" headers w)
        else if req.path == "/api/sync"
        then (if req.method == "POST"
            then handle_sync p s req headers w
            else not_allowed "POST" headers w)
        else http_error "404 page not found" 404 headers w

    module _ (net : Net) (sha256 : String → String) (redirect : Request → Option String)
        (new_nonce : World W → Option String × World W) where
      -- `Handler`, without the headers that are on every response.
      unfoldable pub root : Handler W
      root req headers w = elim (redirect req) [
        | some location ↦ (
          replied (record {
            status = 301;
            headers = Dict.insert "Location" location headers;
            body = plain "Moved Permanently";
          }),
          w,
        )
        | none ↦
            if starts_with req.path "/api/"
            then auth_middleware sha256 s.auth_token (csrf_guard net p.parse_url s.auth_token api)
                req headers w
            else handle_index new_nonce req headers w
      ]

      unfoldable pub handler : Request → World W → Reply × World W
      handler req w = security_headers root req w
