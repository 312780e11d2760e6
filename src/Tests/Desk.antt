-- ===== src/Tests/Desk.antt =====
-- Two accounts on one desk, for the tests of internal/sync/sync.go: "home" has a meeting, and "work"
-- a block whose source at home is gone and a second that is live but untitled. Every write is put
-- down in a log, and the calendars stay as they are.
use calendar_bridge.Base.{String, Bool, Option, none, some, List, [], ◌∷◌, ◌++◌}
use calendar_bridge.Base.Int.{pos}
use calendar_bridge.Calendar.{GoogleEvent, EventDateTime, zero_event, private}
use calendar_bridge.Client.{CalendarClient}
use calendar_bridge.Effect.{ok}
use calendar_bridge.Provider.Mapping.{ownership_tags}
use calendar_bridge.Engine.Model.{Account, Engine}

pub data Write : Type 0 where
  put : String → Option GoogleEvent → Write
  change : String → String → Option GoogleEvent → String → Write
  drop : String → String → String → Write

abbrev pub Log : Type 0
Log = List Write

abbrev pub at : String → Option EventDateTime
at time = some (record { date_time = time; date = ""; time_zone = "UTC" })

abbrev pub meeting : GoogleEvent
meeting = record zero_event {
  id = "e1";
  summary = "Dentist";
  description = "second floor";
  start = at "9:00";
  end = at "10:00";
}

abbrev pub block_of : String → String → String → GoogleEvent
block_of id event title = record zero_event {
  id = id;
  etag = "tag";
  summary = title;
  start = at "9:00";
  end = at "10:00";
  extended_properties = private (
      ownership_tags (record {
        owner = "calendar-bridge";
        source_account = "home";
        source_calendar_id = "primary";
        source_event_id = event;
      }));
}

abbrev pub paper : List (Option GoogleEvent) → CalendarClient Log
paper events = record {
  list_events = λ calendar from to log. (ok events, log);
  find_block_by_source = λ calendar account event log. (ok none, log);
  get_event = λ calendar event log. (ok none, log);
  insert_event = λ calendar ev log. (ok ev, log ++ (put calendar ev ∷ []));
  update_event = λ calendar event ev tag log. (ok ev, log ++ (change calendar event ev tag ∷ []));
  delete_event = λ calendar event tag log. (ok tt, log ++ (drop calendar event tag ∷ []));
}

abbrev pub home : Account Log
home = record { name = "home"; calendar_id = "h"; client = paper (some meeting ∷ []) }

abbrev pub work : Account Log
work = record {
  name = "work";
  calendar_id = "w";
  client = paper (some (block_of "b1" "gone" "Busy") ∷ some (block_of "b2" "e1" "") ∷ none ∷ []);
}

abbrev pub play : Account Log
play = record { name = "play"; calendar_id = "p"; client = paper [] }

abbrev pub desk : Bool → Engine Log
desk dry = record {
  accounts = home ∷ work ∷ play ∷ [];
  block_title = "Busy";
  lookahead_days = pos 30;
  now = λ log. pos 100;
  dry_run = dry;
}
