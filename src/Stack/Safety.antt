-- ===== src/Stack/Safety.antt =====
-- A pass of the engine that `buildEngine` (cmd/calendar-bridge/main.go) makes, down to the Calendar
-- API.
use mathlib.Core.Path.{subst}
use calendar_bridge.Base.{
  ℕ, ◌≡◌, String, Bool, Option, none, some, List, [], ◌∷◌, All, Bool-cases, inl, inr,
}
use calendar_bridge.Base.Int.{ℤ}
use calendar_bridge.Effect.{Result, ok, err, M, Keeps, continue-pure_keeps}
use calendar_bridge.Calendar.{GoogleEvent}
use calendar_bridge.Client.{CalendarClient}
use calendar_bridge.Provider.Neutral.{valid_for_write}
use calendar_bridge.Provider.Mapping.{span_from_google, ownership_from_google, event_from_google}
use calendar_bridge.Provider.Google
use calendar_bridge.Provider.Google.{google_provider}
use calendar_bridge.Provider.Bridge.{
  list_events, find_block_by_source, insert_event, update_event, delete_event, provider_client,
}
use calendar_bridge.Provider.Safety.{insert_block-Keeps, update_block-Keeps, delete_block-Keeps}
use calendar_bridge.Retry.{Runtime, RetryPolicy, default_retry_policy}
use calendar_bridge.Retry.Client
use calendar_bridge.Retry.Client.{retrying_client}
use calendar_bridge.GoogleApi.{EventsApi, google_calendar_client}
use calendar_bridge.GoogleApi.Match.{IsBlockOf, Found, find_block_by_source-IsBlockOf}
use calendar_bridge.Engine.Model.{Account, Engine}
use calendar_bridge.Engine.Pass.{sync_once}
use calendar_bridge.Engine.Safety.Terms.{IfSome}
use calendar_bridge.Engine.Safety.Plain.{CallsKeep, All-plain-Terms}
use calendar_bridge.Engine.Safety.Pass.{sync_once_keeps}
use calendar_bridge.Config.{AccountConfig, Config}
use calendar_bridge.Stack.{account_client, build_account, build_accounts, build_engine, named_error}
use calendar_bridge.Stack.Retrying.{WaitsKeep, Yields, retry-Yields, continue-Yields}
use calendar_bridge.Stack.Client.{
  Memory, ApiKeeps, WaitsRemember, patient_list, patient_find, patient_get, patient_insert,
  patient_update, patient_delete,
}
use calendar_bridge.Stack.Recall.{patient_get-JustGot, patient_find-JustFound}

module _ {W : Type 0} (api : EventsApi W) (format : ℤ → String) (pages : ℕ) (calendar_id : String)
    (rt : Runtime W) (p : RetryPolicy) where
  abbrev patient : CalendarClient W
  patient = retrying_client rt p (google_calendar_client api format pages)

  Yields-Found :
      (account event : String) (r : Result (Option GoogleEvent) × W)
      → Found (IsBlockOf account event) r
      → Yields (λ _. Unit {0}) (IfSome (IsBlockOf account event)) r
  Yields-Found account event (ok none, w) found = (tt, tt)
  Yields-Found account event (ok (some ev), w) found = (found, tt)
  Yields-Found account event (err e, w) found = tt

  -- A retried lookup returns what one of its lookups returned.
  patient_find-IsBlockOf :
      (account event : String) (w : W) (block : GoogleEvent) (w' : W)
      → patient.find_block_by_source calendar_id account event w ≡ (ok (some block), w')
      → IsBlockOf account event block
  unfolding Client.find_block_by_source
  patient_find-IsBlockOf account event w block w' call =
      (subst (Yields (λ _. Unit {0}) (IfSome (IsBlockOf account event))) call (
        retry-Yields rt p _ (λ _. Unit {0}) (IfSome (IsBlockOf account event))
          (record { jitter = λ c v q. tt; sleep = λ d v q. tt })
          (λ i v h.
            Yields-Found account event _
              (find_block_by_source-IsBlockOf api format calendar_id account event pages v))
          w tt)).0

  module _ (Q : W → Type 0) (memory : Memory W) (waits : WaitsKeep rt Q)
      (remember : WaitsRemember rt memory) (keeps : ApiKeeps memory api calendar_id Q) where
    abbrev bridged : CalendarClient W
    bridged = provider_client (google_provider patient)

    bridged_list : (from to : ℤ) → Keeps Q (bridged.list_events calendar_id from to)
    unfolding list_events Google.list_events
    bridged_list from to w q =
        continue-pure_keeps Q (Google.list_events patient calendar_id from to w) _ (
          continue-pure_keeps Q (patient.list_events calendar_id from to w) _
            (patient_list api format pages calendar_id Q memory keeps rt p waits from to w q))

    bridged_find :
        (account event : String) → Keeps Q (bridged.find_block_by_source calendar_id account event)
    unfolding find_block_by_source Google.find_owned_block
    bridged_find account event w q =
        continue-pure_keeps Q (Google.find_owned_block patient calendar_id account event w) _ (
          continue-pure_keeps Q (patient.find_block_by_source calendar_id account event w) _
            (patient_find api format pages calendar_id Q memory keeps rt p waits account event w q))

    bridged_insert : (ev : Option GoogleEvent) → Keeps Q (bridged.insert_event calendar_id ev)
    unfolding insert_event
    bridged_insert none w q = q
    bridged_insert (some ev) w q = elim (Bool-cases (valid_for_write (ownership_from_google ev))) [
      | inl valid ↦ rw valid (
          continue-pure_keeps Q
            (Google.insert_block patient calendar_id ev.summary (span_from_google ev.start)
              (span_from_google ev.end) (ownership_from_google ev) w)
            _
            (insert_block-Keeps patient calendar_id Q
              (patient_find api format pages calendar_id Q memory keeps rt p waits)
              (patient_insert api format pages calendar_id Q memory keeps rt p waits) _ _ _ _ w q))
      | inr invalid ↦ rw invalid q
    ]

    bridged_update :
        (event_id tag : String) (ev : Option GoogleEvent)
        → Keeps Q (bridged.update_event calendar_id event_id ev tag)
    unfolding update_event
    bridged_update event_id tag none w q = q
    bridged_update event_id tag (some ev) w q =
        elim (Bool-cases (valid_for_write (event_from_google ev).ownership)) [
          | inl valid ↦ rw valid (
              continue-pure_keeps Q
                (Google.update_block patient calendar_id (event_from_google ev) ev.summary
                  (span_from_google ev.start) (span_from_google ev.end) w)
                _
                (update_block-Keeps patient calendar_id Q
                  (patient_find api format pages calendar_id Q memory keeps rt p waits)
                  (λ own title start end full v v' call ours.
                    patient_update api format pages calendar_id Q memory keeps rt p waits remember
                      own.source_account own.source_event_id title start end full v'
                      (patient_find-IsBlockOf own.source_account own.source_event_id v full v' call)
                      (patient_find-JustFound api format pages calendar_id Q memory keeps rt p
                        own.source_account own.source_event_id v full v' call))
                  _ _ _ _ w q))
          | inr invalid ↦ rw invalid q
        ]

    bridged_delete :
        (event_id tag : String) → Keeps Q (bridged.delete_event calendar_id event_id tag)
    unfolding delete_event
    bridged_delete event_id tag =
        delete_block-Keeps patient calendar_id event_id Q
          (patient_get api format pages calendar_id Q memory keeps rt p waits event_id)
          (λ ev w w' call owned.
            patient_delete api format pages calendar_id Q memory keeps rt p waits remember event_id
              ev w' owned
              (patient_get-JustGot api format pages calendar_id Q memory keeps rt p event_id w ev w'
                call))

-- `connect` yields for every credentials file an API that keeps `Q` on every calendar.
module _ {W : Type 0} (rt : Runtime W) (format : ℤ → String) (pages : ℕ)
    (connect : String → String → M W (EventsApi W)) (Q : W → Type 0) (memory : Memory W)
    (waits : WaitsKeep rt Q) (remember : WaitsRemember rt memory)
    (connected : (credentials token : String) (w : W)
      → Q w
      → Yields Q
          (λ api. (calendar_id : String) → ApiKeeps memory api calendar_id Q)
          (connect credentials token w)) where
  abbrev AllKeep : List (Account W) → Type 0
  AllKeep accounts = (e : Engine W) → All (CallsKeep e Q) accounts

  account_keeps :
      (name calendar_id : String) (api : EventsApi W)
      → ApiKeeps memory api calendar_id Q
      → (e : Engine W)
      → CallsKeep e Q (record {
        name = name;
        calendar_id = calendar_id;
        client = account_client rt format pages api;
      })
  unfolding account_client
  account_keeps name calendar_id api keeps e = record {
    list_keeps =
        bridged_list api format pages calendar_id rt default_retry_policy Q memory waits remember
          keeps;
    find_keeps =
        bridged_find api format pages calendar_id rt default_retry_policy Q memory waits remember
          keeps;
    insert_keeps = λ ev wet.
        bridged_insert api format pages calendar_id rt default_retry_policy Q memory waits remember
          keeps ev;
    update_keeps = λ event tag ev wet.
        bridged_update api format pages calendar_id rt default_retry_policy Q memory waits remember
          keeps event tag ev;
    delete_keeps = λ event tag wet.
        bridged_delete api format pages calendar_id rt default_retry_policy Q memory waits remember
          keeps event tag;
  }

  named_error-Yields :
      {A : Type 0} (V : A → Type 0) (name : String) (r : Result A × W)
      → Yields Q V r
      → Yields Q V (named_error rt format pages connect name r)
  unfolding named_error
  named_error-Yields V name (ok a, w) y = y
  named_error-Yields V name (err e, w) y = y

  build_account-Yields :
      (a : AccountConfig) (w : W)
      → Q w
      → Yields Q
          (λ account. (e : Engine W) → CallsKeep e Q account)
          (build_account rt format pages connect a w)
  unfolding build_account
  build_account-Yields a w q =
      continue-Yields Q (λ api. (calendar_id : String) → ApiKeeps memory api calendar_id Q) _ _ _
        (named_error-Yields _ a.name _ (connected a.credentials_file a.token_file w q))
        λ api v keeps q'. (account_keeps a.name a.calendar_id api (keeps a.calendar_id), q')

  build_accounts-Yields :
      (configs : List AccountConfig) (w : W)
      → Q w
      → Yields Q AllKeep (build_accounts rt format pages connect configs w)
  unfolding build_accounts
  build_accounts-Yields [] w q = ((λ e. tt), q)
  build_accounts-Yields (a ∷ rest) w q =
      continue-Yields Q (λ account. (e : Engine W) → CallsKeep e Q account) AllKeep
        (build_account rt format pages connect a w) _ (build_account-Yields a w q)
        λ account v keeps q'.
          continue-Yields Q AllKeep AllKeep (build_accounts rt format pages connect rest v) _
            (build_accounts-Yields rest v q') λ accounts u all q''. ((λ e. (keeps e, all e)), q'')

  build_engine-Yields :
      (now : W → ℤ) (cfg : Config) (w : W)
      → Q w
      → Yields Q (λ e. AllKeep e.accounts) (build_engine rt format pages connect now cfg w)
  unfolding build_engine
  build_engine-Yields now cfg w q =
      continue-Yields Q AllKeep (λ e. AllKeep e.accounts)
        (build_accounts rt format pages connect cfg.accounts w) _
        (build_accounts-Yields cfg.accounts w q) λ accounts v all q'. (all, q')

  -- Each pass, dry or not, of an engine that `buildEngine` has made makes only these calls on the
  -- Calendar API: it lists and gets events; it inserts only events with the owner tag and a complete
  -- source identity; it updates only a block that a search for a source on this API and calendar has
  -- just found, and that is an owned block of that source, and changes its times and title alone; it
  -- deletes only an ID under which it has just got an owned block from this API and calendar; and each
  -- update and delete is conditional on the ETag of what was read, if it had one. Between the read and
  -- the write are only waits and earlier tries of the same write. That is, a pass keeps any invariant
  -- that these calls, the waits and the set-up of the services keep, where what is known of a read is
  -- any predicate of the world that the API's answer gives, and that the waits and that write keep.
  pub sync_once-build_engine_keeps :
      (now : W → ℤ) (cfg : Config) (w : W) (e : Engine W) (w' : W)
      → build_engine rt format pages connect now cfg w ≡ (ok e, w')
      → Q w
      → (dry : Bool) (v : W) → Q v
      → Q (sync_once (record e { dry_run = dry }) v).1
  sync_once-build_engine_keeps now cfg w e w' built q dry v q' =
      sync_once_keeps (record e { dry_run = dry }) _ _ Q
        (All-plain-Terms (record e { dry_run = dry }) Q e.accounts
          ((subst (Yields Q (λ b. AllKeep b.accounts)) built (build_engine-Yields now cfg w q)).0
            (record e { dry_run = dry })))
        v q'
