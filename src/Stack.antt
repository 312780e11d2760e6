-- ===== src/Stack.antt =====
-- `buildEngine` of cmd/calendar-bridge/main.go: the stack of clients of each account.
pub mod Retrying
pub mod Client
pub mod Recall
pub mod Safety
use calendar_bridge.Base.{ℕ, String, ◌<>◌, false, List, [], ◌∷◌}
use calendar_bridge.Base.Int.{ℤ}
use calendar_bridge.Fault.{wrapped}
use calendar_bridge.Effect.{Result, ok, err, M, ◌>>=◌, pure}
use calendar_bridge.Client.{CalendarClient}
use calendar_bridge.Provider.Google.{google_provider}
use calendar_bridge.Provider.Bridge.{provider_client}
use calendar_bridge.Retry.{Runtime, default_retry_policy}
use calendar_bridge.Retry.Client.{retrying_client}
use calendar_bridge.GoogleApi.{EventsApi, google_calendar_client}
use calendar_bridge.Engine.Model.{Account, Engine}
use calendar_bridge.Config.{AccountConfig, Config}

-- `pages` bounds the page loops of the Calendar client, and `format` is `Format(time.RFC3339)`.
module _ {W : Type 0} (rt : Runtime W) (format : ℤ → String) (pages : ℕ) where
  unfoldable pub account_client : EventsApi W → CalendarClient W
  account_client svc = provider_client (
      google_provider
        (retrying_client rt default_retry_policy (google_calendar_client svc format pages)))

  -- `connect` is `googleauth.Client` on the credentials file and the token file.
  module _ (connect : String → String → M W (EventsApi W)) where
    unfoldable pub named_error : {A : Type 0} → String → Result A × W → Result A × W
    named_error name (ok a, w) = (ok a, w)
    named_error name (err e, w) = (err (wrapped ("account " <> name) e), w)

    unfoldable pub build_account : AccountConfig → M W (Account W)
    build_account a = do
      svc ← λ w. named_error a.name (connect a.credentials_file a.token_file w)
      pure (record { name = a.name; calendar_id = a.calendar_id; client = account_client svc })

    -- The loop over the configured accounts.
    unfoldable pub build_accounts : List AccountConfig → M W (List (Account W))
    build_accounts [] = pure []
    build_accounts (a ∷ rest) = do
      account ← build_account a
      accounts ← build_accounts rest
      pure (account ∷ accounts)

    -- `now` is `time.Now`, which the engine reads as its `Now` is nil.
    unfoldable pub build_engine : (W → ℤ) → Config → M W (Engine W)
    build_engine now cfg = do
      accounts ← build_accounts cfg.accounts
      pure (record {
        accounts = accounts;
        block_title = cfg.block_title;
        lookahead_days = cfg.lookahead_days;
        now = now;
        dry_run = false;
      })
