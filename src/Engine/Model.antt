-- ===== src/Engine/Model.antt =====
-- The state of the sync engine, internal/sync/sync.go: its configuration, the result of a pass, and
-- what a pass knows of each account.
use calendar_bridge.Base.{ℕ, String, Bool, Option, none, some, List, []}
use calendar_bridge.Base.Int.{ℤ}
use calendar_bridge.Base.Dict
use calendar_bridge.Base.Dict.{Dict}
use calendar_bridge.Calendar.{GoogleEvent}
use calendar_bridge.Client.{CalendarClient}

pub record Account (W : Type 0) : Type 0 where
  pub name : String
  pub calendar_id : String
  pub client : CalendarClient W

pub record Engine (W : Type 0) : Type 0 where
  pub accounts : List (Account W)
  pub block_title : String
  pub lookahead_days : ℤ
  -- What `e.now()` reads. The clock is part of the world.
  pub now : W → ℤ
  pub dry_run : Bool

-- `Result`
pub record SyncResult : Type 0 where
  pub started : ℤ
  pub finished : ℤ
  pub created : ℕ
  pub updated : ℕ
  pub deleted : ℕ
  pub skipped : ℕ
  pub healthy_accounts : List String
  pub failed_accounts : List String

pub data Outcome : Type 0 where
  unchanged created updated : Outcome

-- `accountEvents`
pub record AccountEvents : Type 0 where
  pub real : List GoogleEvent
  pub owned : List GoogleEvent
  pub index : Dict GoogleEvent

abbrev pub no_events : AccountEvents
no_events = record { real = []; owned = []; index = [] }

abbrev pub or_no_events : Option AccountEvents → AccountEvents
or_no_events none = no_events
or_no_events (some ae) = ae

-- `byAccount[name]`, where a missing key reads as the zero value.
unfoldable pub events_of : String → Dict AccountEvents → AccountEvents
events_of name by_account = or_no_events (Dict.lookup name by_account)
