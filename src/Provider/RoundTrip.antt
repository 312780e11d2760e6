-- ===== src/Provider/RoundTrip.antt =====
-- The maps between the neutral and the Google event (internal/sync/google_provider.go and
-- provider_client.go) lose nothing that the engine reads.
use text.Mathlib.TextEquality.{eq_iff}
use mathlib.Core.Logic.{if_neg}
use calendar_bridge.Base.{
  if◌then◌else◌, ◌≡◌, ◌≢◌, refl, sym, ◌∙◌, ◌⊎◌, inl, inr, String, Bool, true, false, ◌&&◌, some, [],
  ◌∷◌, Bool-cases, ◌==◌, ◌/=◌, string_eq, arith, if◌then◌else◌,
}
use calendar_bridge.Base.Dict
use calendar_bridge.Calendar.{
  ExtendedProperties, absent, no_private, private, GoogleEvent, owner_key, owner_value,
  source_account_key, source_calendar_key, source_event_key, owned_by, is_owned_block, identity_of,
  SourceIdentity, source_identity, self_response_of, self_response_status, blocks_time,
  is_cancelled,
}
use calendar_bridge.Provider.Neutral.{
  TimeSpan, span_equal, Ownership, zero_ownership, ownership_equal, is_owned, Event,
}
use calendar_bridge.Provider.Mapping.{
  span_from_google, span_to_google, ownership_of, ownership_from_google, ownership_tags,
  event_from_google, event_to_google,
}

-- What the tags of a block say.
tags-owner : (own : Ownership) → Dict.get owner_key (ownership_tags own) ≡ own.owner
unfolding Dict.get string_eq
tags-owner own = refl

tags-account :
    (own : Ownership) → Dict.get source_account_key (ownership_tags own) ≡ own.source_account
unfolding Dict.get string_eq
tags-account own = refl

tags-calendar :
    (own : Ownership) → Dict.get source_calendar_key (ownership_tags own) ≡ own.source_calendar_id
unfolding Dict.get string_eq
tags-calendar own = refl

tags-event :
    (own : Ownership) → Dict.get source_event_key (ownership_tags own) ≡ own.source_event_id
unfolding Dict.get string_eq
tags-event own = refl

span_round : (s : TimeSpan) → span_from_google (span_to_google s) ≡ s
unfolding span_from_google span_to_google span_equal
span_round s = ground arith

not_the_owner : ◌≢◌ {A = String} "" owner_value
not_the_owner = ground (arith, eq_iff "" owner_value)

pub ownership_of-tags : (own : Ownership) → ownership_of (private (ownership_tags own)) ≡ own
unfolding ownership_of
ownership_of-tags own = λ i. record {
  owner = tags-owner own i;
  source_account = tags-account own i;
  source_calendar_id = tags-calendar own i;
  source_event_id = tags-event own i;
}

abbrev tagged : Ownership → ExtendedProperties
tagged own = if ownership_equal own zero_ownership then absent else private (ownership_tags own)

ownership_of-tagged : (own : Ownership) → ownership_of (tagged own) ≡ own
unfolding ownership_of ownership_equal
ownership_of-tagged own =
    ground (arith, tags-owner own, tags-account own, tags-calendar own, tags-event own)

owned_by-tagged : (own : Ownership) → owned_by (tagged own) ≡ is_owned own
unfolding owned_by is_owned ownership_equal
owned_by-tagged own = ground (arith, tags-owner own, not_the_owner)

-- The owned test reads the neutral ownership.
owned_by-ownership_of : (x : ExtendedProperties) → owned_by x ≡ is_owned (ownership_of x)
unfolding owned_by ownership_of is_owned
owned_by-ownership_of absent = ground (arith, not_the_owner)
owned_by-ownership_of no_private = ground (arith, not_the_owner)
owned_by-ownership_of (private p) = refl

-- The source identity that an ownership carries.
carried : Ownership → SourceIdentity
carried own = record {
  account = own.source_account;
  calendar_id = own.source_calendar_id;
  event_id = own.source_event_id;
  complete = own.source_account /= "" && own.source_calendar_id /= "" && own.source_event_id /= "";
}

identity_of-tagged : (own : Ownership) → identity_of (tagged own) ≡ carried own
unfolding identity_of ownership_equal carried
identity_of-tagged own = ground (arith, tags-account own, tags-calendar own, tags-event own)

carried-ownership_of : (x : ExtendedProperties) → carried (ownership_of x) ≡ identity_of x
unfolding identity_of ownership_of carried
carried-ownership_of absent = ground arith
carried-ownership_of no_private = ground arith
carried-ownership_of (private p) = refl

-- A flag that is written as a text, and read back.
flag_round : (b : Bool) (t : String) → t ≢ "" → ((if b then t else "") == t) ≡ b
flag_round true t h = ground arith
flag_round false t h = if_neg _ (λ p. h (sym p)) true false

cancelled_text : ◌≢◌ {A = String} "cancelled" ""
cancelled_text = ground (arith, eq_iff "cancelled" "")

transparent_text : ◌≢◌ {A = String} "transparent" ""
transparent_text = ground (arith, eq_iff "transparent" "")

response_round :
    (r : String)
    → self_response_of
        (if r /= "" then some (record { self = true; response_status = r }) ∷ [] else [])
      ≡ r
unfolding self_response_of
response_round r = ground arith

title_round :
    (own : Ownership) (title : String)
    → (is_owned own ≡ true) ⊎ (title ≡ "")
    → (if owned_by (tagged own) then title else "") ≡ title
title_round own title (inl owned) = rw (owned_by-tagged own, owned)
title_round own title (inr empty) = elim (Bool-cases (owned_by (tagged own))) [
  | inl owned ↦ rw owned
  | inr foreign ↦ rw foreign (sym empty)
]

-- A neutral event survives the way to Google's type and back, if it is a block that calendar-bridge
-- owns or has no title.
pub event_from_google-event_to_google :
    (e : Event)
    → (is_owned e.ownership ≡ true) ⊎ (e.title ≡ "")
    → event_from_google (event_to_google e) ≡ e
unfolding event_from_google event_to_google is_owned_block is_cancelled self_response_status
    ownership_from_google
event_from_google-event_to_google e titled = λ i. record {
  id = e.id;
  start = span_round e.start i;
  end = span_round e.end i;
  cancelled = flag_round e.cancelled "cancelled" cancelled_text i;
  transparent = flag_round e.transparent "transparent" transparent_text i;
  self_response = response_round e.self_response i;
  title = title_round e.ownership e.title titled i;
  ownership = ownership_of-tagged e.ownership i;
}

-- What the engine reads of an event, but for its ETag, which the adapters drop.
pub record LooksAlike (a b : GoogleEvent) : Type 0 where
  pub id : a.id ≡ b.id
  pub cancelled : is_cancelled a ≡ is_cancelled b
  pub owned : is_owned_block a ≡ is_owned_block b
  pub identity : source_identity a ≡ source_identity b
  pub takes_time : blocks_time a ≡ blocks_time b
  pub start : span_from_google a.start ≡ span_from_google b.start
  pub end : span_from_google a.end ≡ span_from_google b.end
  pub title : a.summary ≡ (if is_owned_block b then b.summary else "")
  pub no_etag : a.etag ≡ ""

-- An event that comes to the engine through both adapters has the ID, the cancellation, the
-- ownership tag, the source identity, the answer of `blocksTime` and the times of the original; its
-- title is that of the original if it is an owned block, and otherwise empty; and it has no ETag.
pub event_to_google-LooksAlike :
    (ev : GoogleEvent) → LooksAlike (event_to_google (event_from_google ev)) ev
unfolding event_from_google event_to_google is_owned_block is_cancelled self_response_status
    blocks_time ownership_from_google source_identity
event_to_google-LooksAlike ev = record {
  id = refl;
  cancelled = flag_round (is_cancelled ev) "cancelled" cancelled_text;
  owned = owned_by-tagged _ ∙ sym (owned_by-ownership_of ev.extended_properties);
  identity = identity_of-tagged _ ∙ carried-ownership_of ev.extended_properties;
  takes_time = rw (
    flag_round (ev.transparency == "transparent") "transparent" transparent_text,
    response_round (self_response_of ev.attendees),
  );
  start = span_round _;
  end = span_round _;
  title = refl;
  no_etag = refl;
}
