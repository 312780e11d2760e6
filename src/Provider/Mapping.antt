-- ===== src/Provider/Mapping.antt =====
-- The maps between the neutral and the Google event: the helpers of internal/sync/google_provider.go,
-- and `eventToGoogle` of internal/sync/provider_client.go.
use calendar_bridge.Base.{
  String, true, Option, none, some, [], ◌∷◌, ◌==◌, ◌/=◌, string_eq, if◌then◌else◌,
}
use calendar_bridge.Base.Dict
use calendar_bridge.Base.Dict.{Dict}
use calendar_bridge.Calendar.{
  EventDateTime, ExtendedProperties, absent, no_private, private, GoogleEvent, zero_event,
  owner_key, source_account_key, source_event_key, source_calendar_key, is_owned_block,
  is_cancelled, self_response_status,
}
use calendar_bridge.Provider.Neutral.{
  TimeSpan, zero_span, span_equal, Ownership, zero_ownership, ownership_equal, Event,
}

unfoldable pub span_from_google : Option EventDateTime → TimeSpan
span_from_google none = zero_span
span_from_google (some dt) = record {
  date_time = dt.date_time;
  date = dt.date;
  time_zone = dt.time_zone;
}

unfoldable pub span_to_google : TimeSpan → Option EventDateTime
unfolding span_equal
span_to_google s =
    if span_equal s zero_span
    then none
    else some (record { date_time = s.date_time; date = s.date; time_zone = s.time_zone })

unfoldable pub ownership_of : ExtendedProperties → Ownership
ownership_of absent = zero_ownership
ownership_of no_private = zero_ownership
ownership_of (private p) = record {
  owner = Dict.get owner_key p;
  source_account = Dict.get source_account_key p;
  source_calendar_id = Dict.get source_calendar_key p;
  source_event_id = Dict.get source_event_key p;
}

unfoldable pub ownership_from_google : GoogleEvent → Ownership
ownership_from_google ev = ownership_of ev.extended_properties

unfoldable pub event_from_google : GoogleEvent → Event
event_from_google ev = record {
  id = ev.id;
  title = if is_owned_block ev then ev.summary else "";
  start = span_from_google ev.start;
  end = span_from_google ev.end;
  cancelled = is_cancelled ev;
  transparent = ev.transparency == "transparent";
  self_response = self_response_status ev;
  ownership = ownership_from_google ev;
}

-- The `Private` map that tags a block.
abbrev pub ownership_tags : Ownership → Dict String
ownership_tags own =
    (owner_key, own.owner)
    ∷ (source_account_key, own.source_account)
    ∷ (source_calendar_key, own.source_calendar_id)
    ∷ (source_event_key, own.source_event_id)
    ∷ []

unfoldable pub event_to_google : Event → GoogleEvent
event_to_google e = record zero_event {
  id = e.id;
  start = span_to_google e.start;
  end = span_to_google e.end;
  status = if e.cancelled then "cancelled" else "";
  summary = e.title;
  transparency = if e.transparent then "transparent" else "";
  attendees =
      if e.self_response /= ""
      then some (record { self = true; response_status = e.self_response }) ∷ []
      else [];
  extended_properties =
      if ownership_equal e.ownership zero_ownership
      then absent
      else private (ownership_tags e.ownership);
}
