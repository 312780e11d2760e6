-- ===== src/WebUi/Http.antt =====
-- Requests and responses of internal/webui/server.go and handlers.go, the world that the handlers
-- change, and `writeJSON`, `writeError` and `plainError`.
use calendar_bridge.Base.{ℕ, String, Bool, List}
use calendar_bridge.Base.Int.{ℤ}
use calendar_bridge.Base.Dict
use calendar_bridge.Base.Dict.{Dict}
use calendar_bridge.Disk.{Machine}
use calendar_bridge.Config.{Config}

-- What is read of `*http.Request`, the headers by name.
pub record Request : Type 0 where
  pub method : String
  pub path : String
  pub host : String
  pub authorization : String
  -- Sec-Fetch-Site
  pub fetch_site : String
  pub origin : String
  pub body : String

-- `AccountStatus`
pub record AccountStatus : Type 0 where
  pub name : String
  pub healthy : Bool

-- `Status`
pub record Status : Type 0 where
  pub running : Bool
  pub last_sync : String
  pub last_attempt : String
  pub last_duration_ms : ℤ
  pub last_error : String
  pub accounts_num : ℕ
  pub accounts : List AccountStatus
  pub created : ℕ
  pub updated : ℕ
  pub deleted : ℕ
  pub skipped : ℕ
  pub push_enabled : Bool

pub data Body : Type 0 where
  plain : String → Body
  -- The JSON objects `{"error": …}` and `{"status": …}`.
  error_json : String → Body
  status_text : String → Body
  -- A configuration and a status as JSON.
  config_json : Config → Body
  status_json : Status → Body
  -- The page with its nonce.
  page : String → Body

pub record Response : Type 0 where
  pub status : ℕ
  pub headers : Dict String
  pub body : Body

-- The files, the lock `syncing`, and what a sync and the random numbers change.
pub record World (W : Type 0) : Type 0 where
  pub machine : Machine
  pub syncing : Bool
  pub rest : W

-- A crash of the machine answers nothing.
pub data Reply : Type 0 where
  replied : Response → Reply
  crashed : Reply

-- The headers are those that are set already.
abbrev pub Handler : Type 0 → Type 0
Handler W = Request → Dict String → World W → Reply × World W

abbrev pub no_store : Dict String → Dict String
no_store headers = Dict.insert "Cache-Control" "no-store" headers

abbrev pub no_sniff : Dict String → Dict String
no_sniff headers = Dict.insert "X-Content-Type-Options" "nosniff" headers

abbrev typed : String → Dict String → Dict String
typed type headers = Dict.insert "Content-Type" type headers

module _ {W : Type 0} where
  unfoldable pub write_json : ℕ → Body → Dict String → World W → Reply × World W
  write_json status body headers w = (
    replied (record {
      status = status;
      headers = no_sniff (no_store (typed "application/json" headers));
      body = body;
    }),
    w,
  )

  unfoldable pub write_error : ℕ → String → Dict String → World W → Reply × World W
  write_error status msg headers w = write_json status (error_json msg) headers w

  -- `http.Error`
  unfoldable pub http_error : String → ℕ → Dict String → World W → Reply × World W
  http_error msg status headers w = (
    replied (record {
      status = status;
      headers = no_sniff (typed "text/plain; charset=utf-8" headers);
      body = plain msg;
    }),
    w,
  )

  unfoldable pub plain_error : String → ℕ → Dict String → World W → Reply × World W
  plain_error msg status headers w = http_error msg status (no_sniff (no_store headers)) w
