-- ===== src/GoogleApi.antt =====
-- `googleCalendarClient` of internal/sync/client.go, over the calls that it makes on the Calendar API.
-- Its page loops run until the API names no next page; here they take the number of pages that they
-- may read, and fail where the source would read on.
pub mod Pages
pub mod Match
use calendar_bridge.Base.{
  ℕ, zero, suc, String, ◌<>◌, Bool, true, false, not, ◌||◌, Option, none, some, List, [], ◌∷◌, ◌++◌,
  ◌==◌, ◌/=◌, string_eq, if◌then◌else◌,
}
use calendar_bridge.Base.Int.{ℤ}
use calendar_bridge.Fault.{Fault, message, wrapped, is_not_found}
use calendar_bridge.Effect.{Result, ok, err, M, ◌>>=◌, pure, fail}
use calendar_bridge.Calendar.{
  GoogleEvent, is_cancelled, is_owned_block, source_identity, source_account_key, source_event_key,
}
use calendar_bridge.Client.{CalendarClient}

-- The parameters of `Events.List`, those that are not set being `none`, `false` or empty.
pub record ListCall : Type 0 where
  pub time_min : Option String
  pub time_max : Option String
  pub single_events : Bool
  pub max_results : Option ℕ
  pub private_properties : List String
  pub page_token : Option String

-- `*calendar.Events`
pub record Page : Type 0 where
  pub items : List (Option GoogleEvent)
  pub next_page_token : String

-- The calls of google.golang.org/api/calendar/v3 on the events of a calendar.
pub record EventsApi (W : Type 0) : Type 0 where
  pub list : String → ListCall → M W Page
  pub insert : String → Option GoogleEvent → M W (Option GoogleEvent)
  pub get : String → String → M W (Option GoogleEvent)
  -- The last argument is the `If-Match` header.
  pub update : String → String → Option GoogleEvent → Option String → M W (Option GoogleEvent)
  pub delete : String → String → Option String → M W (Unit {0})

-- A text that is set only if it is not empty.
unfoldable pub unless_empty : String → Option String
unless_empty text = if text /= "" then some text else none

unfoldable pub window_call : String → String → String → ListCall
window_call time_min time_max page_token = record {
  time_min = some time_min;
  time_max = some time_max;
  single_events = true;
  max_results = some 2500;
  private_properties = [];
  page_token = unless_empty page_token;
}

unfoldable pub source_call : String → String → String → ListCall
source_call src_account src_event_id page_token = record {
  time_min = none;
  time_max = none;
  single_events = false;
  max_results = none;
  private_properties =
      (source_account_key <> "=" <> src_account) ∷ (source_event_key <> "=" <> src_event_id) ∷ [];
  page_token = unless_empty page_token;
}

-- The event passes the tests of the loop in `FindBlockBySource`.
unfoldable pub is_block_of : String → String → GoogleEvent → Bool
is_block_of src_account src_event_id ev =
    if is_cancelled ev
    then false
    else if not (is_owned_block ev)
    then false
    else (let i = source_identity ev in
        not (not i.complete || i.account /= src_account || i.event_id /= src_event_id))

unfoldable pub first_block : String → String → List (Option GoogleEvent) → Option GoogleEvent
first_block src_account src_event_id [] = none
first_block src_account src_event_id (none ∷ items) = first_block src_account src_event_id items
first_block src_account src_event_id (some ev ∷ items) =
    if is_block_of src_account src_event_id ev
    then some ev
    else first_block src_account src_event_id items

-- After a page with these items in all: the end of the loop, or its next round.
unfoldable pub after_page :
    {W : Type 0}
    → M W (List (Option GoogleEvent))
    → String
    → List (Option GoogleEvent)
    → M W (List (Option GoogleEvent))
after_page next token all = if token == "" then pure all else next

unfoldable pub after_search :
    {W : Type 0} → M W (Option GoogleEvent) → String → Option GoogleEvent → M W (Option GoogleEvent)
after_search next token (some ev) = pure (some ev)
after_search next token none = if token == "" then pure none else next

unfoldable pub query_error : {W A : Type 0} → String → String → Result A × W → Result A × W
query_error src_account src_event_id (ok a, w) = (ok a, w)
query_error src_account src_event_id (err e, w) = (
  err (wrapped ("querying existing block (source=" <> src_account <> "/" <> src_event_id <> ")") e),
  w,
)

-- `GetEvent` reads a 404 as no event.
unfoldable pub unless_missing :
    {W : Type 0} → Result (Option GoogleEvent) × W → Result (Option GoogleEvent) × W
unless_missing (ok ev, w) = (ok ev, w)
unless_missing (err e, w) = if is_not_found e then (ok none, w) else (err e, w)

-- `format` is `Format(time.RFC3339)`.
module _ {W : Type 0} (api : EventsApi W) (format : ℤ → String) (calendar_id : String) where
  module _ (time_min time_max : ℤ) where
    unfoldable pub window_page : String → M W Page
    window_page token = api.list calendar_id (window_call (format time_min) (format time_max) token)

    unfoldable pub list_pages :
        ℕ → String → List (Option GoogleEvent) → M W (List (Option GoogleEvent))
    list_pages zero token all = fail (message "too many pages")
    list_pages (suc pages) token all = do
      res ← window_page token
      after_page (list_pages pages res.next_page_token (all ++ res.items)) res.next_page_token
          (all ++ res.items)

  module _ (src_account src_event_id : String) where
    unfoldable pub source_page : String → M W Page
    source_page token w =
        query_error src_account src_event_id
          (api.list calendar_id (source_call src_account src_event_id token) w)

    unfoldable pub find_pages : ℕ → String → M W (Option GoogleEvent)
    find_pages zero token = fail (message "too many pages")
    find_pages (suc pages) token = do
      res ← source_page token
      after_search (find_pages pages res.next_page_token) res.next_page_token
          (first_block src_account src_event_id res.items)

module _ {W : Type 0} (api : EventsApi W) (format : ℤ → String) (pages : ℕ) where
  unfoldable pub list_events : String → ℤ → ℤ → M W (List (Option GoogleEvent))
  list_events calendar_id time_min time_max =
      list_pages api format calendar_id time_min time_max pages "" []

  unfoldable pub find_block_by_source : String → String → String → M W (Option GoogleEvent)
  find_block_by_source calendar_id src_account src_event_id =
      find_pages api format calendar_id src_account src_event_id pages ""

  unfoldable pub get_event : String → String → M W (Option GoogleEvent)
  get_event calendar_id event_id w = unless_missing (api.get calendar_id event_id w)

  unfoldable pub update_event :
      String → String → Option GoogleEvent → String → M W (Option GoogleEvent)
  update_event calendar_id event_id ev if_match =
      api.update calendar_id event_id ev (unless_empty if_match)

  unfoldable pub delete_event : String → String → String → M W (Unit {0})
  delete_event calendar_id event_id if_match =
      api.delete calendar_id event_id (unless_empty if_match)

  -- `NewGoogleCalendarClient`
  abbrev pub google_calendar_client : CalendarClient W
  google_calendar_client = record {
    list_events = list_events;
    find_block_by_source = find_block_by_source;
    get_event = get_event;
    insert_event = api.insert;
    update_event = update_event;
    delete_event = delete_event;
  }
