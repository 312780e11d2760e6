-- ===== src/Retry/Client.antt =====
-- `retryingClient` of internal/sync/retrying_client.go: a `CalendarClient` that retries each call of
-- another one. `onRetry` only logs, and is left out.
use calendar_bridge.Base.{
  ℕ, zero, suc, String, ◌||◌, not, Option, none, some, List, ◌==◌, string_eq, if◌then◌else◌,
}
use calendar_bridge.Base.Int.{ℤ}
use calendar_bridge.Fault.{Fault, ambiguous_insert, is_ambiguous, is_gone}
use calendar_bridge.Effect.{Result, ok, err, M}
use calendar_bridge.Calendar.{GoogleEvent}
use calendar_bridge.Client.{CalendarClient}
use calendar_bridge.Provider.Neutral.{Ownership, zero_ownership}
use calendar_bridge.Provider.Mapping.{ownership_from_google}
use calendar_bridge.Retry.{RetryPolicy, Runtime, retry}

-- The outcome of the lookup after an ambiguous insert.
unfoldable pub resolve :
    {W : Type 0} → Fault → Result (Option GoogleEvent) × W → Result (Option GoogleEvent) × W
resolve e (ok (some existing), w) = (ok (some existing), w)
resolve e (ok none, w) = (err e, w)
resolve e (err find_err, w) = (err (ambiguous_insert e find_err), w)

-- `own` of `InsertEvent`
unfoldable pub ownership_sent : Option GoogleEvent → Ownership
ownership_sent none = zero_ownership
ownership_sent (some ev) = ownership_from_google ev

module _ {W : Type 0} (inner : CalendarClient W) (calendar_id : String) where
  unfoldable pub settle_insert :
      Ownership → Result (Option GoogleEvent) × W → Result (Option GoogleEvent) × W
  settle_insert own (ok created, w) = (ok created, w)
  settle_insert own (err e, w) =
      if not (is_ambiguous e) || own.source_account == "" || own.source_event_id == ""
      then (err e, w)
      else resolve e
          (inner.find_block_by_source calendar_id own.source_account own.source_event_id w)

  -- The closure of `InsertEvent`.
  unfoldable pub insert_once : Option GoogleEvent → M W (Option GoogleEvent)
  insert_once ev w = settle_insert (ownership_sent ev) (inner.insert_event calendar_id ev w)

-- What the closure of `DeleteEvent` answers: the error of a later call is dropped if it says that
-- the target is gone.
unfoldable pub settle_delete : {W : Type 0} → ℕ → Result (Unit {0}) × W → Result (Unit {0}) × W
settle_delete i (ok _, w) = (ok tt, w)
settle_delete zero (err e, w) = (err e, w)
settle_delete (suc i) (err e, w) = if is_gone e then (ok tt, w) else (err e, w)

module _ {W : Type 0} (rt : Runtime W) (p : RetryPolicy) (inner : CalendarClient W) where
  unfoldable pub list_events : String → ℤ → ℤ → M W (List (Option GoogleEvent))
  list_events calendar_id time_min time_max =
      retry rt p (λ _. inner.list_events calendar_id time_min time_max)

  unfoldable pub find_block_by_source : String → String → String → M W (Option GoogleEvent)
  find_block_by_source calendar_id src_account src_event_id =
      retry rt p (λ _. inner.find_block_by_source calendar_id src_account src_event_id)

  unfoldable pub get_event : String → String → M W (Option GoogleEvent)
  get_event calendar_id event_id = retry rt p (λ _. inner.get_event calendar_id event_id)

  unfoldable pub insert_event : String → Option GoogleEvent → M W (Option GoogleEvent)
  insert_event calendar_id ev = retry rt p (λ _. insert_once inner calendar_id ev)

  unfoldable pub update_event :
      String → String → Option GoogleEvent → String → M W (Option GoogleEvent)
  update_event calendar_id event_id ev if_match =
      retry rt p (λ _. inner.update_event calendar_id event_id ev if_match)

  unfoldable pub delete_event : String → String → String → M W (Unit {0})
  delete_event calendar_id event_id if_match =
      retry rt p (λ i w. settle_delete i (inner.delete_event calendar_id event_id if_match w))

-- `NewRetryingClient`
abbrev pub retrying_client :
    {W : Type 0} → Runtime W → RetryPolicy → CalendarClient W → CalendarClient W
retrying_client rt p inner = record {
  list_events = list_events rt p inner;
  find_block_by_source = find_block_by_source rt p inner;
  get_event = get_event rt p inner;
  insert_event = insert_event rt p inner;
  update_event = update_event rt p inner;
  delete_event = delete_event rt p inner;
}
