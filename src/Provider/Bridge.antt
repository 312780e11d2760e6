-- ===== src/Provider/Bridge.antt =====
-- `providerClient` of internal/sync/provider_client.go: a `CalendarClient` on top of a `Provider`.
use calendar_bridge.Base.{String, Option, none, some, List, map, if◌then◌else◌}
use calendar_bridge.Base.Int.{ℤ}
use calendar_bridge.Fault.{message, not_owned}
use calendar_bridge.Effect.{M, ◌>>=◌, pure, fail}
use calendar_bridge.Calendar.{GoogleEvent}
use calendar_bridge.Client.{CalendarClient}
use calendar_bridge.Provider.Neutral.{valid_for_write, Event, Provider}
use calendar_bridge.Provider.Mapping.{
  span_from_google, ownership_from_google, event_from_google, event_to_google,
}

abbrev to_google? : Option Event → Option GoogleEvent
to_google? none = none
to_google? (some e) = some (event_to_google e)

module _ {W : Type 0} (p : Provider W) where
  unfoldable pub list_events : String → ℤ → ℤ → M W (List (Option GoogleEvent))
  list_events calendar_id time_min time_max = do
    events ← p.list_events calendar_id time_min time_max
    pure (map (λ e. some (event_to_google e)) events)

  unfoldable pub find_block_by_source : String → String → String → M W (Option GoogleEvent)
  find_block_by_source calendar_id src_account src_event_id = do
    e ← p.find_owned_block calendar_id src_account src_event_id
    pure (to_google? e)

  unfoldable pub insert_event : String → Option GoogleEvent → M W (Option GoogleEvent)
  insert_event calendar_id none = fail (message "providerClient: InsertEvent called with nil event")
  insert_event calendar_id (some ev) =
      let own = ownership_from_google ev in
      if valid_for_write own
      then (do
        created ←
            p.insert_block calendar_id ev.summary (span_from_google ev.start)
              (span_from_google ev.end) own
        pure (to_google? created))
      else fail not_owned

  unfoldable pub update_event :
      String → String → Option GoogleEvent → String → M W (Option GoogleEvent)
  update_event calendar_id event_id none if_match =
      fail (message "providerClient: UpdateEvent called with nil event")
  update_event calendar_id event_id (some ev) if_match =
      let block = event_from_google ev in
      if valid_for_write block.ownership
      then (do
        updated ←
            p.update_block calendar_id block ev.summary (span_from_google ev.start)
              (span_from_google ev.end)
        pure (to_google? updated))
      else fail not_owned

  unfoldable pub delete_event : String → String → String → M W (Unit {0})
  delete_event calendar_id event_id if_match = p.delete_block calendar_id event_id

  unfoldable pub get_event : String → String → M W (Option GoogleEvent)
  get_event calendar_id event_id =
      fail (message "providerClient: GetEvent is not supported through the Provider bridge")

-- `NewProviderClient`
abbrev pub provider_client : {W : Type 0} → Provider W → CalendarClient W
provider_client p = record {
  list_events = list_events p;
  find_block_by_source = find_block_by_source p;
  get_event = get_event p;
  insert_event = insert_event p;
  update_event = update_event p;
  delete_event = delete_event p;
}
