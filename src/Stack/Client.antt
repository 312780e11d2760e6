-- ===== src/Stack/Client.antt =====
-- What the clients of `buildEngine` (cmd/calendar-bridge/main.go) ask of the Calendar API: the
-- provider's checks, the retries and the reads of internal/sync/client.go put together.
use calendar_bridge.Base.{
  ℕ, zero, suc, ◌≡◌, String, true, not, ◌||◌, Option, none, some, List, [], ◌++◌, Bool-cases, inl,
  inr, ◌==◌, string_eq,
}
use calendar_bridge.Base.Int.{ℤ}
use calendar_bridge.Fault.{Fault, is_not_found, is_ambiguous, is_gone}
use calendar_bridge.Effect.{Result, ok, err, M, Keeps, continue_keeps}
use calendar_bridge.Calendar.{GoogleEvent, is_owned_block}
use calendar_bridge.Client.{CalendarClient}
use calendar_bridge.Provider.Neutral.{TimeSpan, Ownership, valid_for_write}
use calendar_bridge.Provider.Mapping.{ownership_from_google}
use calendar_bridge.Provider.Google.{moved_block}
use calendar_bridge.Retry.{Runtime, RetryPolicy, retry}
use calendar_bridge.Retry.Client.{
  resolve, settle_insert, insert_once, settle_delete, list_events, find_block_by_source, get_event,
  insert_event, update_event, delete_event, retrying_client,
}
use calendar_bridge.GoogleApi
use calendar_bridge.GoogleApi.{
  ListCall, Page, EventsApi, unless_empty, after_page, after_search, query_error, unless_missing,
  source_call, first_block, window_page, list_pages, source_page, find_pages,
  google_calendar_client,
}
use calendar_bridge.GoogleApi.Match.{IsBlockOf}
use calendar_bridge.Stack.Retrying.{WaitsKeep, Yields, retry-Yields}

-- What can be known of a world just after a read, of an API, a calendar and a name.
pub record Memory (W : Type 0) : Type 1 where
  -- `Events.Get` of this ID has just returned the event.
  pub JustGot : EventsApi W → String → String → GoogleEvent → W → Type 0
  -- The search for the block of this account and event has just found the event in a page.
  pub JustFound : EventsApi W → String → String → String → GoogleEvent → W → Type 0

-- The calls on the API for one calendar that keep `Q`: every read; the insert of an event with the
-- owner tag and a complete source identity; the update of a block that was just found for a source, and
-- is an owned block of it, to another span and title; and the delete of an ID under which an owned
-- block was just read; each of the two on the condition of the ETag that was read. All that is known of
-- what was just read are these answers of the API, and that a write of what was read does not end it.
pub record ApiKeeps {W : Type 0} (memory : Memory W) (api : EventsApi W) (calendar_id : String)
    (Q : W → Type 0) : Type 0 where
  pub list_keeps : (call : ListCall) → Keeps Q (api.list calendar_id call)
  pub get_keeps : (event_id : String) → Keeps Q (api.get calendar_id event_id)
  pub got :
      (event_id : String) (w : W) (ev : GoogleEvent) (w' : W)
      → api.get calendar_id event_id w ≡ (ok (some ev), w')
      → memory.JustGot api calendar_id event_id ev w'
  pub found :
      (account event token : String) (w : W) (page : Page) (w' : W) (ev : GoogleEvent)
      → api.list calendar_id (source_call account event token) w ≡ (ok page, w')
      → first_block account event page.items ≡ some ev
      → memory.JustFound api calendar_id account event ev w'
  pub insert_keeps :
      (ev : GoogleEvent)
      → valid_for_write (ownership_from_google ev) ≡ true
      → Keeps Q (api.insert calendar_id (some ev))
  pub update_keeps :
      (account event title : String) (start end : TimeSpan) (block : GoogleEvent)
      → IsBlockOf account event block
      → Keeps
          (λ w. Q w × memory.JustFound api calendar_id account event block w)
          (api.update calendar_id block.id
            (some (moved_block block title start end))
            (unless_empty block.etag))
  pub delete_keeps :
      (event_id : String) (block : GoogleEvent)
      → is_owned_block block ≡ true
      → Keeps
          (λ w. Q w × memory.JustGot api calendar_id event_id block w)
          (api.delete calendar_id event_id (unless_empty block.etag))

-- Random numbers and waits do not end what is known of a read.
pub record WaitsRemember {W : Type 0} (rt : Runtime W) (memory : Memory W) : Type 0 where
  pub remember_got :
      (api : EventsApi W) (calendar_id event_id : String) (ev : GoogleEvent)
      → WaitsKeep rt (memory.JustGot api calendar_id event_id ev)
  pub remember_found :
      (api : EventsApi W) (calendar_id account event : String) (ev : GoogleEvent)
      → WaitsKeep rt (memory.JustFound api calendar_id account event ev)

both_kept :
    {W : Type 0} (rt : Runtime W) (Q R : W → Type 0)
    → WaitsKeep rt Q
    → WaitsKeep rt R
    → WaitsKeep rt (λ w. Q w × R w)
both_kept rt Q R waits remember = record {
  jitter = λ c w h. (waits.jitter c w h.0, remember.jitter c w h.1);
  sleep = λ d w h. (waits.sleep d w h.0, remember.sleep d w h.1);
}

module _ {W A : Type 0} (Q : W → Type 0) where
  Yields-of_keeps : (r : Result A × W) → Q r.1 → Yields Q (λ _. Unit {0}) r
  Yields-of_keeps (ok a, w) q = (tt, q)
  Yields-of_keeps (err e, w) q = q

  keeps_of_Yields : (V : A → Type 0) (r : Result A × W) → Yields Q V r → Q r.1
  keeps_of_Yields V (ok a, w) y = y.1
  keeps_of_Yields V (err e, w) y = y

module _ {W : Type 0} (Q : W → Type 0) where
  settle_delete_keeps : (i : ℕ) (r : Result (Unit {0}) × W) → Q r.1 → Q (settle_delete i r).1
  unfolding settle_delete
  settle_delete_keeps i (ok u, w) q = q
  settle_delete_keeps zero (err e, w) q = q
  settle_delete_keeps (suc i) (err e, w) q = elim (Bool-cases (is_gone e)) [
    | inl gone ↦ rw gone q
    | inr other ↦ rw other q
  ]

module _ {W A : Type 0} (rt : Runtime W) (p : RetryPolicy) (Q : W → Type 0)
    (waits : WaitsKeep rt Q) where
  retried : (fn : ℕ → M W A) → ((i : ℕ) → Keeps Q (fn i)) → Keeps Q (retry rt p fn)
  retried fn rounds w q =
      keeps_of_Yields Q (λ _. Unit {0}) _
        (retry-Yields rt p fn Q (λ _. Unit {0}) waits (λ i v h. Yields-of_keeps Q _ (rounds i v h))
          w q)

module _ {W : Type 0} (api : EventsApi W) (format : ℤ → String) (pages : ℕ) (calendar_id : String)
    (Q : W → Type 0) (memory : Memory W) (keeps : ApiKeeps memory api calendar_id Q) where
  after_page-Keeps :
      (next : M W (List (Option GoogleEvent))) (token : String) (all : List (Option GoogleEvent))
      → Keeps Q next
      → Keeps Q (after_page next token all)
  unfolding after_page
  after_page-Keeps next token all more w q = elim (Bool-cases (token == "")) [
    | inl end ↦ rw end q
    | inr going ↦ rw going (more w q)
  ]

  window_page-Keeps :
      (from to : ℤ) (token : String) → Keeps Q (window_page api format calendar_id from to token)
  unfolding window_page
  window_page-Keeps from to token = keeps.list_keeps _

  list_pages-Keeps :
      (from to : ℤ) (n : ℕ) (token : String) (all : List (Option GoogleEvent))
      → Keeps Q (list_pages api format calendar_id from to n token all)
  unfolding list_pages
  list_pages-Keeps from to zero token all w q = q
  list_pages-Keeps from to (suc n) token all w q =
      continue_keeps Q (window_page api format calendar_id from to token w)
        (λ res.
          after_page
            (list_pages api format calendar_id from to n res.next_page_token (all ++ res.items))
            res.next_page_token (all ++ res.items))
        (window_page-Keeps from to token w q)
        λ page v call q'.
          after_page-Keeps
            (list_pages api format calendar_id from to n page.next_page_token (all ++ page.items))
            page.next_page_token (all ++ page.items)
            (list_pages-Keeps from to n page.next_page_token (all ++ page.items)) v q'

  query_error_keeps :
      {A : Type 0} (account event : String) (r : Result A × W)
      → Q r.1
      → Q (query_error account event r).1
  unfolding query_error
  query_error_keeps account event (ok a, w) q = q
  query_error_keeps account event (err e, w) q = q

  source_page-Keeps :
      (account event token : String)
      → Keeps Q (source_page api format calendar_id account event token)
  unfolding source_page
  source_page-Keeps account event token w q =
      query_error_keeps account event (api.list calendar_id _ w) (keeps.list_keeps _ w q)

  after_search-Keeps :
      (next : M W (Option GoogleEvent)) (token : String) (r : Option GoogleEvent)
      → Keeps Q next
      → Keeps Q (after_search next token r)
  unfolding after_search
  after_search-Keeps next token (some ev) more w q = q
  after_search-Keeps next token none more w q = elim (Bool-cases (token == "")) [
    | inl end ↦ rw end q
    | inr going ↦ rw going (more w q)
  ]

  find_pages-Keeps :
      (account event : String) (n : ℕ) (token : String)
      → Keeps Q (find_pages api format calendar_id account event n token)
  unfolding find_pages
  find_pages-Keeps account event zero token w q = q
  find_pages-Keeps account event (suc n) token w q =
      continue_keeps Q (source_page api format calendar_id account event token w)
        (λ res.
          after_search (find_pages api format calendar_id account event n res.next_page_token)
            res.next_page_token (first_block account event res.items))
        (source_page-Keeps account event token w q)
        λ page v call q'.
          after_search-Keeps
            (find_pages api format calendar_id account event n page.next_page_token)
            page.next_page_token (first_block account event page.items)
            (find_pages-Keeps account event n page.next_page_token) v q'

  unless_missing_keeps : (r : Result (Option GoogleEvent) × W) → Q r.1 → Q (unless_missing r).1
  unfolding unless_missing
  unless_missing_keeps (ok ev, w) q = q
  unless_missing_keeps (err e, w) q = elim (Bool-cases (is_not_found e)) [
    | inl missing ↦ rw missing q
    | inr other ↦ rw other q
  ]

  abbrev google : CalendarClient W
  google = google_calendar_client api format pages

  find-Keeps :
      (account event : String) → Keeps Q (google.find_block_by_source calendar_id account event)
  unfolding GoogleApi.find_block_by_source
  find-Keeps account event w q = find_pages-Keeps account event pages "" w q

  resolve_keeps : (e : Fault) (r : Result (Option GoogleEvent) × W) → Q r.1 → Q (resolve e r).1
  unfolding resolve
  resolve_keeps e (ok none, w) q = q
  resolve_keeps e (ok (some ev), w) q = q
  resolve_keeps e (err f, w) q = q

  settle_insert_keeps :
      (own : Ownership) (r : Result (Option GoogleEvent) × W)
      → Q r.1
      → Q (settle_insert google calendar_id own r).1
  unfolding settle_insert
  settle_insert_keeps own (ok ev, w) q = q
  settle_insert_keeps own (err e, w) q =
      elim (Bool-cases
        (not (is_ambiguous e) || own.source_account == "" || own.source_event_id == "")) [
          | inl known ↦ rw known q
          | inr unknown ↦ rw unknown (resolve_keeps e _ (find-Keeps _ _ w q))
        ]

  module _ (rt : Runtime W) (p : RetryPolicy) (waits : WaitsKeep rt Q) where
    abbrev patient : CalendarClient W
    patient = retrying_client rt p google

    pub patient_list : (from to : ℤ) → Keeps Q (patient.list_events calendar_id from to)
    unfolding list_events GoogleApi.list_events
    patient_list from to = retried rt p Q waits _ (λ _. list_pages-Keeps from to pages "" [])

    pub patient_find :
        (account event : String) → Keeps Q (patient.find_block_by_source calendar_id account event)
    unfolding find_block_by_source
    patient_find account event = retried rt p Q waits _ (λ _. find-Keeps account event)

    pub patient_get : (event_id : String) → Keeps Q (patient.get_event calendar_id event_id)
    unfolding get_event GoogleApi.get_event
    patient_get event_id =
        retried rt p Q waits _ (λ _ w q. unless_missing_keeps _ (keeps.get_keeps event_id w q))

    pub patient_insert :
        (ev : GoogleEvent)
        → valid_for_write (ownership_from_google ev) ≡ true
        → Keeps Q (patient.insert_event calendar_id (some ev))
    unfolding insert_event insert_once
    patient_insert ev valid =
        retried rt p Q waits _ (λ _ w q. settle_insert_keeps _ _ (keeps.insert_keeps ev valid w q))

    module _ (remember : WaitsRemember rt memory) where
      pub patient_update :
          (account event title : String) (start end : TimeSpan) (block : GoogleEvent) (w : W)
          → IsBlockOf account event block
          → memory.JustFound api calendar_id account event block w
          → Q w
          → Q
              (patient.update_event calendar_id block.id
                (some (moved_block block title start end))
                block.etag
                w).1
      unfolding update_event GoogleApi.update_event
      patient_update account event title start end block w same known q =
          (retried rt p _
            (both_kept rt Q _ waits (remember.remember_found api calendar_id account event block)) _
            (λ _. keeps.update_keeps account event title start end block same) w (q, known)).0

      pub patient_delete :
          (event_id : String) (block : GoogleEvent) (w : W)
          → is_owned_block block ≡ true
          → memory.JustGot api calendar_id event_id block w
          → Q w
          → Q (patient.delete_event calendar_id event_id block.etag w).1
      unfolding delete_event GoogleApi.delete_event
      patient_delete event_id block w owned known q =
          (retried rt p _
            (both_kept rt Q _ waits (remember.remember_got api calendar_id event_id block)) _
            (λ i v h.
              settle_delete_keeps (λ u. Q u × memory.JustGot api calendar_id event_id block u) i _
                (keeps.delete_keeps event_id block owned v h))
            w (q, known)).0
