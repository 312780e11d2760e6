-- ===== src/Tests/Providers.antt =====
-- The Google Calendar provider (internal/sync/google_provider.go) over clients that write to a log.
use calendar_bridge.Base.{
  ◌≡◌, refl, sym, ap, inl, String, true, false, Option, none, some, [], All, All-append, string_eq,
}
use calendar_bridge.Effect.{Result, ok, err}
use calendar_bridge.Calendar.{GoogleEvent}
use calendar_bridge.Client.{CalendarClient}
use calendar_bridge.Provider.Neutral.{TimeSpan, Ownership, Event, valid_for_write, is_owned}
use calendar_bridge.Provider.Mapping.{event_to_google, event_from_google, ownership_from_google}
use calendar_bridge.Provider.Google.{insert_block, update_block, delete_block}
use calendar_bridge.Provider.RoundTrip.{
  LooksAlike, event_from_google-event_to_google, event_to_google-LooksAlike,
}
use calendar_bridge.Provider.Safety.{insert_block-Keeps, update_block-Keeps, delete_block-Keeps}
use calendar_bridge.Tests.Desk.{Write, put, change, drop, Log, block_of, meeting, paper}

abbrev mirror : Ownership
mirror = record {
  owner = "calendar-bridge";
  source_account = "home";
  source_calendar_id = "primary";
  source_event_id = "e1";
}

abbrev slot : TimeSpan
slot = record { date_time = "9:00"; date = ""; time_zone = "UTC" }

abbrev busy : Event
busy = record {
  id = "b1";
  start = slot;
  end = slot;
  cancelled = false;
  transparent = false;
  self_response = "";
  title = "Busy";
  ownership = mirror;
}

mirror-owned : is_owned mirror ≡ true
unfolding is_owned string_eq
mirror-owned = refl

event_from_google-event_to_google_example : event_from_google (event_to_google busy) ≡ busy
event_from_google-event_to_google_example =
    event_from_google-event_to_google busy (inl mirror-owned)

event_to_google-LooksAlike_example :
    LooksAlike (event_to_google (event_from_google meeting)) meeting
event_to_google-LooksAlike_example = event_to_google-LooksAlike meeting

-- A client on which the block "b1" mirrors the event "e1", and which logs what it writes.
abbrev stocked : CalendarClient Log
stocked = record (paper []) {
  find_block_by_source =
      λ calendar account event log. (ok (some (block_of "b1" event "Busy")), log);
  get_event = λ calendar event log. (ok (some (block_of event "e1" "Busy")), log);
}

-- The inserted events are valid blocks, the updates and deletes conditional on a known ETag.
abbrev Careful : Write → Type 0
Careful (put calendar none) = ⊥
Careful (put calendar (some ev)) = valid_for_write (ownership_from_google ev) ≡ true
Careful (change calendar event ev tag) = tag ≡ "tag"
Careful (drop calendar event tag) = tag ≡ "tag"

abbrev AllCareful : Log → Type 0
AllCareful log = All Careful log

-- The ETag in an answer.
abbrev answered_tag : Result (Option GoogleEvent) × Log → String
answered_tag (ok (some ev), log) = ev.etag
answered_tag (ok none, log) = ""
answered_tag (err e, log) = ""

insert_block-Keeps_example : AllCareful (insert_block (paper []) "w" "Busy" slot slot mirror []).1
insert_block-Keeps_example =
    insert_block-Keeps (paper []) "w" AllCareful (λ account event log q. q)
      (λ ev valid log q. All-append Careful log _ q (valid, tt)) "Busy" slot slot mirror [] tt

update_block-Keeps_example : AllCareful (update_block stocked "w" busy "Busy" slot slot []).1
update_block-Keeps_example =
    update_block-Keeps stocked "w" AllCareful (λ account event log q. q)
      (λ own title start end full log log' call ours q.
        All-append Careful log' _ q (sym (ap answered_tag call), tt))
      busy "Busy" slot slot [] tt

delete_block-Keeps_example : AllCareful (delete_block stocked "w" "b1" []).1
delete_block-Keeps_example =
    delete_block-Keeps stocked "w" "b1" AllCareful (λ log q. q)
      (λ ev log log' call owned q. All-append Careful log' _ q (sym (ap answered_tag call), tt)) []
      tt
