-- ===== src/Stack/Recall.antt =====
-- What the reads of a client of `buildEngine` (cmd/calendar-bridge/main.go) return is what the Calendar
-- API has just answered, whatever was retried before.
use mathlib.Core.Path.{subst}
use calendar_bridge.Base.{
  ℕ, zero, suc, ◌≡◌, refl, String, Option, none, some, Bool-cases, inl, inr, ◌==◌, string_eq,
}
use calendar_bridge.Base.Int.{ℤ}
use calendar_bridge.Fault.{is_not_found}
use calendar_bridge.Effect.{Result, ok, err, M}
use calendar_bridge.Calendar.{GoogleEvent}
use calendar_bridge.Client.{CalendarClient}
use calendar_bridge.Retry.{Runtime, RetryPolicy}
use calendar_bridge.Retry.Client.{find_block_by_source, get_event, retrying_client}
use calendar_bridge.GoogleApi
use calendar_bridge.GoogleApi.{
  Page, EventsApi, after_search, query_error, unless_missing, source_call, first_block, source_page,
  find_pages, google_calendar_client,
}
use calendar_bridge.Stack.Retrying.{Answers, continue-Answers, retry-Answers}
use calendar_bridge.Stack.Client.{Memory, ApiKeeps}

-- `P` of the event that a call returns, if any, in the world that it leaves.
abbrev Event : {W : Type 0} → (GoogleEvent → W → Type 0) → Option GoogleEvent → W → Type 0
Event P none w = Unit
Event P (some ev) w = P ev w

module _ {W : Type 0} (P : GoogleEvent → W → Type 0) where
  unless_missing-Answers :
      (r : Result (Option GoogleEvent) × W)
      → Answers (Event P) r
      → Answers (Event P) (unless_missing r)
  unfolding unless_missing
  unless_missing-Answers (ok ev, w) known = known
  unless_missing-Answers (err e, w) known = elim (Bool-cases (is_not_found e)) [
    | inl missing ↦ rw missing tt
    | inr other ↦ rw other tt
  ]

  after_search-Answers :
      (next : M W (Option GoogleEvent)) (token : String) (r : Option GoogleEvent) (w : W)
      → ((v : W) → Answers (Event P) (next v))
      → Event P r w
      → Answers (Event P) (after_search next token r w)
  unfolding after_search
  after_search-Answers next token (some ev) w more known = known
  after_search-Answers next token none w more known = elim (Bool-cases (token == "")) [
    | inl end ↦ rw end tt
    | inr going ↦ rw going (more w)
  ]

query_error-ok :
    {W A : Type 0} (account event : String) (r : Result A × W) (a : A) (w : W)
    → query_error account event r ≡ (ok a, w)
    → r ≡ (ok a, w)
unfolding query_error
query_error-ok account event (ok b, v) a w same = same
query_error-ok account event (err e, v) a w same = cc

module _ {W : Type 0} (api : EventsApi W) (format : ℤ → String) (pages : ℕ) (calendar_id : String)
    (Q : W → Type 0) (memory : Memory W) (keeps : ApiKeeps memory api calendar_id Q) where
  abbrev Got : String → Option GoogleEvent → W → Type 0
  Got event_id = Event (memory.JustGot api calendar_id event_id)

  abbrev Searched : String → String → Option GoogleEvent → W → Type 0
  Searched account event = Event (memory.JustFound api calendar_id account event)

  get-Got :
      (event_id : String) (w : W) (r : Result (Option GoogleEvent) × W)
      → api.get calendar_id event_id w ≡ r
      → Answers (Got event_id) r
  get-Got event_id w (ok (some ev), w') call = keeps.got event_id w ev w' call
  get-Got event_id w (ok none, w') call = tt
  get-Got event_id w (err e, w') call = tt

  first_block-Searched :
      (account event token : String) (w : W) (page : Page) (w' : W) (o : Option GoogleEvent)
      → source_page api format calendar_id account event token w ≡ (ok page, w')
      → first_block account event page.items ≡ o
      → Searched account event o w'
  unfolding source_page
  first_block-Searched account event token w page w' none call first = tt
  first_block-Searched account event token w page w' (some ev) call first =
      keeps.found account event token w page w' ev (query_error-ok account event _ page w' call)
        first

  find_pages-Searched :
      (account event : String) (n : ℕ) (token : String) (w : W)
      → Answers (Searched account event) (find_pages api format calendar_id account event n token w)
  unfolding find_pages
  find_pages-Searched account event zero token w = tt
  find_pages-Searched account event (suc n) token w =
      continue-Answers (Searched account event) _ _ λ page w' call.
        after_search-Answers (memory.JustFound api calendar_id account event) _ page.next_page_token
          _ w' (find_pages-Searched account event n page.next_page_token)
          (first_block-Searched account event token w page w' _ call refl)

  module _ (rt : Runtime W) (p : RetryPolicy) where
    abbrev patient : CalendarClient W
    patient = retrying_client rt p (google_calendar_client api format pages)

    pub patient_get-JustGot :
        (event_id : String) (w : W) (ev : GoogleEvent) (w' : W)
        → patient.get_event calendar_id event_id w ≡ (ok (some ev), w')
        → memory.JustGot api calendar_id event_id ev w'
    unfolding get_event GoogleApi.get_event
    patient_get-JustGot event_id w ev w' call = subst (Answers (Got event_id)) call (
        retry-Answers rt p _ (Got event_id)
          (λ i v. unless_missing-Answers _ _ (get-Got event_id v _ refl)) w)

    pub patient_find-JustFound :
        (account event : String) (w : W) (ev : GoogleEvent) (w' : W)
        → patient.find_block_by_source calendar_id account event w ≡ (ok (some ev), w')
        → memory.JustFound api calendar_id account event ev w'
    unfolding find_block_by_source GoogleApi.find_block_by_source
    patient_find-JustFound account event w ev w' call =
        subst (Answers (Searched account event)) call (
          retry-Answers rt p _ (Searched account event)
            (λ i v. find_pages-Searched account event pages "" v) w)
