-- ===== src/Provider/Neutral.antt =====
-- internal/sync/provider.go: the provider-neutral event model and the interface `Provider`.
use calendar_bridge.Base.{String, Bool, ◌&&◌, Option, List, ◌==◌, ◌/=◌, string_eq}
use calendar_bridge.Base.Int.{ℤ}
use calendar_bridge.Effect.{M}
use calendar_bridge.Calendar.{owner_value}

pub record TimeSpan : Type 0 where
  pub date_time : String
  pub date : String
  pub time_zone : String

-- `TimeSpan{}`
abbrev pub zero_span : TimeSpan
zero_span = record { date_time = ""; date = ""; time_zone = "" }

-- `TimeSpan.Equal`, which is also Go's `==` on the struct.
unfoldable pub span_equal : TimeSpan → TimeSpan → Bool
span_equal s o = s.date_time == o.date_time && s.date == o.date && s.time_zone == o.time_zone

pub record Ownership : Type 0 where
  pub owner : String
  pub source_account : String
  pub source_calendar_id : String
  pub source_event_id : String

-- `Ownership{}`
abbrev pub zero_ownership : Ownership
zero_ownership = record {
  owner = "";
  source_account = "";
  source_calendar_id = "";
  source_event_id = "";
}

-- Go's `==` on the struct.
unfoldable pub ownership_equal : Ownership → Ownership → Bool
ownership_equal o p =
    o.owner == p.owner
    && o.source_account == p.source_account
    && o.source_calendar_id == p.source_calendar_id
    && o.source_event_id == p.source_event_id

-- `IsOwned`
unfoldable pub is_owned : Ownership → Bool
is_owned o = o.owner == owner_value

unfoldable pub valid_for_write : Ownership → Bool
unfolding is_owned
valid_for_write o =
    is_owned o && o.source_account /= "" && o.source_calendar_id /= "" && o.source_event_id /= ""

pub record Event : Type 0 where
  pub id : String
  pub start : TimeSpan
  pub end : TimeSpan
  pub cancelled : Bool
  pub transparent : Bool
  pub self_response : String
  pub title : String
  pub ownership : Ownership

-- A `ctx` argument is part of the world.
pub record Provider (W : Type 0) : Type 0 where
  -- calendar, timeMin, timeMax
  pub list_events : String → ℤ → ℤ → M W (List Event)
  -- calendar, source account, source event
  pub find_owned_block : String → String → String → M W (Option Event)
  -- calendar, title, start, end
  pub insert_block : String → String → TimeSpan → TimeSpan → Ownership → M W (Option Event)
  -- calendar, block, title, start, end
  pub update_block : String → Event → String → TimeSpan → TimeSpan → M W (Option Event)
  -- calendar, block
  pub delete_block : String → String → M W (Unit {0})
