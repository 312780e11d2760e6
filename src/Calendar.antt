-- ===== src/Calendar.antt =====
-- The parts of google.golang.org/api/calendar/v3 that the program reads and writes: the wire type
-- `calendar.Event`, a nil pointer being `none`. Of the fields that the program only carries along,
-- `description` and `location` stand for all.
-- With it the tagging of owned blocks and the tests on events of internal/sync/sync.go.
use calendar_bridge.Base.{
  String, ◌<>◌, Bool, true, false, ◌&&◌, Option, none, some, List, [], ◌∷◌, ◌==◌, ◌/=◌, string_eq,
  if◌then◌else◌,
}
use calendar_bridge.Base.Dict
use calendar_bridge.Base.Dict.{Dict}

pub record EventDateTime : Type 0 where
  pub date_time : String
  pub date : String
  pub time_zone : String

pub record EventAttendee : Type 0 where
  pub self : Bool
  pub response_status : String

-- `*calendar.EventExtendedProperties` with a `Private` map that may be nil.
pub data ExtendedProperties : Type 0 where
  absent : ExtendedProperties
  no_private : ExtendedProperties
  private : Dict String → ExtendedProperties

pub record GoogleEvent : Type 0 where
  pub id : String
  pub etag : String
  pub status : String
  pub summary : String
  pub description : String
  pub location : String
  pub transparency : String
  pub visibility : String
  pub start : Option EventDateTime
  pub end : Option EventDateTime
  pub attendees : List (Option EventAttendee)
  pub extended_properties : ExtendedProperties

-- `calendar.Event{}`
abbrev pub zero_event : GoogleEvent
zero_event = record {
  id = "";
  etag = "";
  status = "";
  summary = "";
  description = "";
  location = "";
  transparency = "";
  visibility = "";
  start = none;
  end = none;
  attendees = [];
  extended_properties = absent;
}

abbrev pub owner_key : String
owner_key = "calendarBridgeOwner"

abbrev pub owner_value : String
owner_value = "calendar-bridge"

abbrev pub source_account_key : String
source_account_key = "calendarBridgeSourceAccount"

abbrev pub source_event_key : String
source_event_key = "calendarBridgeSourceEventID"

abbrev pub source_calendar_key : String
source_calendar_key = "calendarBridgeSourceCalendarID"

-- `isOwnedBlock`
unfoldable pub owned_by : ExtendedProperties → Bool
owned_by absent = false
owned_by no_private = false
owned_by (private p) = Dict.get owner_key p == owner_value

unfoldable pub is_owned_block : GoogleEvent → Bool
is_owned_block ev = owned_by ev.extended_properties

-- The results of `sourceIdentity`.
pub record SourceIdentity : Type 0 where
  pub account : String
  pub calendar_id : String
  pub event_id : String
  pub complete : Bool

unfoldable pub identity_of : ExtendedProperties → SourceIdentity
identity_of absent = record { account = ""; calendar_id = ""; event_id = ""; complete = false }
identity_of no_private = record { account = ""; calendar_id = ""; event_id = ""; complete = false }
identity_of (private p) =
    let account = Dict.get source_account_key p in
    let calendar_id = Dict.get source_calendar_key p in
    let event_id = Dict.get source_event_key p in
    record {
      account = account;
      calendar_id = calendar_id;
      event_id = event_id;
      complete = account /= "" && calendar_id /= "" && event_id /= "";
    }

unfoldable pub source_identity : GoogleEvent → SourceIdentity
source_identity ev = identity_of ev.extended_properties

-- The loop of `selfResponseStatus`.
unfoldable pub self_response_of : List (Option EventAttendee) → String
self_response_of [] = ""
self_response_of (none ∷ attendees) = self_response_of attendees
self_response_of (some a ∷ attendees) =
    if a.self then a.response_status else self_response_of attendees

unfoldable pub self_response_status : GoogleEvent → String
self_response_status ev = self_response_of ev.attendees

unfoldable pub blocks_time : GoogleEvent → Bool
blocks_time ev =
    if ev.transparency == "transparent" then false else self_response_status ev /= "declined"

-- `ev.Status == "cancelled"`
unfoldable pub is_cancelled : GoogleEvent → Bool
is_cancelled ev = ev.status == "cancelled"

unfoldable pub index_key : String → String → String
index_key src_account src_event_id = src_account <> "|" <> src_event_id

unfoldable pub times_equal : Option EventDateTime → Option EventDateTime → Bool
times_equal none none = true
times_equal none (some b) = false
times_equal (some a) none = false
times_equal (some a) (some b) =
    a.date_time == b.date_time && a.date == b.date && a.time_zone == b.time_zone

-- `copySpan`: a fresh struct with the same values. Values here have no address to share.
unfoldable pub copy_span : Option EventDateTime → Option EventDateTime
copy_span none = none
copy_span (some c) =
    some (record { date_time = c.date_time; date = c.date; time_zone = c.time_zone })
