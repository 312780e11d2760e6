-- ===== src/Client.antt =====
-- The interface `CalendarClient` of internal/sync/client.go over a world of type `W`, which holds
-- whatever the calls can see and change: the calendars, the clock, the context of the call.
-- A `ctx` argument is part of the world. Times are nanoseconds since the epoch.
use calendar_bridge.Base.{String, Option, List}
use calendar_bridge.Base.Int.{ℤ}
use calendar_bridge.Effect.{M}
use calendar_bridge.Calendar.{GoogleEvent}

pub record CalendarClient (W : Type 0) : Type 0 where
  -- calendar, timeMin, timeMax
  pub list_events : String → ℤ → ℤ → M W (List (Option GoogleEvent))
  -- calendar, source account, source event
  pub find_block_by_source : String → String → String → M W (Option GoogleEvent)
  -- calendar, event
  pub get_event : String → String → M W (Option GoogleEvent)
  pub insert_event : String → Option GoogleEvent → M W (Option GoogleEvent)
  -- calendar, event, payload, If-Match
  pub update_event : String → String → Option GoogleEvent → String → M W (Option GoogleEvent)
  -- calendar, event, If-Match
  pub delete_event : String → String → String → M W (Unit {0})
