-- ===== src/Config.antt =====
-- The types of internal/config/config.go.
pub mod Defaults
pub mod Validate
pub mod Clear
pub mod Laws
pub mod Defaulted
pub mod Files
pub mod Reload
use calendar_bridge.Base.{String, Bool, List}
use calendar_bridge.Base.Int.{ℤ}

-- `Account`
pub record AccountConfig : Type 0 where
  pub name : String
  pub credentials_file : String
  pub token_file : String
  pub calendar_id : String

-- `Metrics`
pub record MetricsConfig : Type 0 where
  pub enabled : Bool
  pub listen_addr : String
  pub ready_max_age : String

-- `Webhook`
pub record WebhookConfig : Type 0 where
  pub enabled : Bool
  pub public_url : String
  pub listen_addr : String
  pub verification_token : String
  pub channel_ttl : String
  pub debounce_interval : String

-- `WebUI`
pub record WebUiConfig : Type 0 where
  pub enabled : Bool
  pub listen_addr : String
  pub auth_token : String

pub record Config : Type 0 where
  pub accounts : List AccountConfig
  pub poll_interval : String
  pub lookahead_days : ℤ
  pub block_title : String
  pub webhook : WebhookConfig
  pub web_ui : WebUiConfig
  pub metrics : MetricsConfig
