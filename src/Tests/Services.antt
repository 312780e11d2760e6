-- ===== src/Tests/Services.antt =====
-- The clients of cmd/calendar-bridge/main.go over an API that answers in two pages, the first of them
-- empty, and that puts every write down in a log.
use calendar_bridge.Base.{
  ◌≡◌, ◌≢◌, refl, sym, String, true, false, Option, none, some, List, [], ◌∷◌, ◌++◌, All,
  All-append, ◌==◌, string_eq, arith, if◌then◌else◌,
}
use mathlib.Core.Path.{subst}
use text.Mathlib.TextEquality.{eq_iff}
use calendar_bridge.Base.Dict
use calendar_bridge.Base.Int.{ℤ, pos}
use calendar_bridge.Effect.{Result, ok, err}
use calendar_bridge.Calendar.{
  GoogleEvent, is_owned_block, owned_by, is_cancelled, source_identity, identity_of,
}
use calendar_bridge.Provider.Neutral.{valid_for_write}
use calendar_bridge.Provider.Mapping.{ownership_from_google}
use calendar_bridge.Retry.{Runtime}
use calendar_bridge.GoogleApi.{
  Page, EventsApi, unless_empty, window_call, source_call, is_block_of, first_block, query_error,
  window_page, source_page, list_events, find_block_by_source,
}
use calendar_bridge.GoogleApi.Match.{IsBlockOf, Found, find_block_by_source-IsBlockOf}
use calendar_bridge.GoogleApi.Pages.{
  last, more, list_events_complete, find_block_by_source_complete,
}
use calendar_bridge.Engine.Model.{Engine}
use calendar_bridge.Engine.Pass.{sync_once}
use calendar_bridge.Config.{Config}
use calendar_bridge.Stack.{account_client, build_account, build_accounts, build_engine, named_error}
use calendar_bridge.Stack.Client.{Memory, ApiKeeps}
use calendar_bridge.Stack.Safety.{sync_once-build_engine_keeps}
use calendar_bridge.Tests.Desk.{Write, put, change, drop, Log, meeting, block_of}

abbrev answer : List (Option GoogleEvent) → Option String → Page
answer items none = record { items = []; next_page_token = "2" }
answer items (some token) = record { items = items; next_page_token = "" }

-- The text of an If-Match header.
abbrev shown : Option String → String
shown none = ""
shown (some tag) = tag

abbrev paged : List (Option GoogleEvent) → EventsApi Log
paged items = record {
  list = λ calendar call log. (ok (answer items call.page_token), log);
  insert = λ calendar ev log. (ok ev, log ++ (put calendar ev ∷ []));
  get = λ calendar event log. (ok (some (block_of event "e1" "Busy")), log);
  update = λ calendar event ev tag log. (ok ev, log ++ (change calendar event ev (shown tag) ∷ []));
  delete = λ calendar event tag log. (ok tt, log ++ (drop calendar event (shown tag) ∷ []));
}

abbrev format : ℤ → String
format time = "now"

abbrev stock : List (Option GoogleEvent)
stock = none ∷ some meeting ∷ some (block_of "b1" "e1" "Busy") ∷ []

two_is_next : ◌≢◌ {A = String} "2" ""
two_is_next = ground (arith, eq_iff "2" "")

window_first :
    window_page (paged stock) format "h" (pos 0) (pos 1) "" []
    ≡ (ok (record { items = []; next_page_token = "2" }), [])
unfolding window_page window_call unless_empty string_eq
window_first = refl

window_second :
    window_page (paged stock) format "h" (pos 0) (pos 1) "2" []
    ≡ (ok (record { items = stock; next_page_token = "" }), [])
unfolding window_page window_call unless_empty string_eq
window_second = refl

list_events_complete_example :
    list_events (paged stock) format 2 "h" (pos 0) (pos 1) [] ≡ (ok stock, [])
list_events_complete_example =
    list_events_complete (paged stock) format "h" (pos 0) (pos 1) 2 [] stock [] (
      more (record { items = []; next_page_token = "2" }) window_first two_is_next
        (last (record { items = stock; next_page_token = "" }) window_second refl))

source_first :
    source_page (paged stock) format "h" "home" "e1" "" []
    ≡ (ok (record { items = []; next_page_token = "2" }), [])
unfolding source_page query_error source_call unless_empty string_eq
source_first = refl

source_second :
    source_page (paged stock) format "h" "home" "e1" "2" []
    ≡ (ok (record { items = stock; next_page_token = "" }), [])
unfolding source_page query_error source_call unless_empty string_eq
source_second = refl

find_block_by_source_complete_example :
    (find_block_by_source (paged stock) format 2 "h" "home" "e1" []).0
    ≡ ok (first_block "home" "e1" stock)
find_block_by_source_complete_example =
    find_block_by_source_complete (paged stock) format "h" "home" "e1" 2 [] stock [] (
      more (record { items = []; next_page_token = "2" }) source_first two_is_next
        (last (record { items = stock; next_page_token = "" }) source_second refl))

-- The block of the stock is found behind the empty page.
search_run : first_block "home" "e1" stock ≡ some (block_of "b1" "e1" "Busy")
unfolding first_block is_block_of is_cancelled is_owned_block owned_by source_identity identity_of
    Dict.get Dict.lookup string_eq
search_run = refl

find_block_by_source-IsBlockOf_example :
    Found (IsBlockOf "home" "e1") (find_block_by_source (paged stock) format 2 "h" "home" "e1" [])
find_block_by_source-IsBlockOf_example =
    find_block_by_source-IsBlockOf (paged stock) format "h" "home" "e1" 2 []

abbrev prompt : Runtime Log
prompt = record {
  ctx_err = λ log. none;
  jitter = λ ceiling log. (0, log);
  sleep = λ wait log. (none, log);
}

-- The API is asked to insert only valid blocks, and to delete only on a condition.
abbrev Valid : Write → Type 0
Valid (put calendar none) = ⊥
Valid (put calendar (some ev)) = valid_for_write (ownership_from_google ev) ≡ true
Valid (change calendar event ev tag) = Unit
Valid (drop calendar event tag) = tag ≡ "tag"

abbrev AllValid : Log → Type 0
AllValid log = All Valid log

-- An event that was got has a tag; one that was found stands first in a page.
abbrev memory : Memory Log
memory = record {
  JustGot = λ api calendar event ev log. ev.etag ≡ "tag";
  JustFound = λ api calendar account event ev log.
      (items : List (Option GoogleEvent)) × (first_block account event items ≡ some ev);
}

tagged :
    (calendar event : String) (log : Log) (ev : GoogleEvent) (log' : Log)
    → ◌≡◌ {A = Result (Option GoogleEvent) × Log}
        (ok (some (block_of event "e1" "Busy")), log)
        (ok (some ev), log')
    → ev.etag ≡ "tag"
tagged calendar event log ev log' call =
    sym (subst (λ (r : Result (Option GoogleEvent) × Log). IsTagged r) call refl)
  where
    IsTagged : Result (Option GoogleEvent) × Log → Type 0
    IsTagged (ok (some b), l) = "tag" ≡ b.etag
    IsTagged (ok none, l) = Unit
    IsTagged (err e, l) = Unit

shown_tag : (tag : String) → tag ≡ "tag" → shown (unless_empty tag) ≡ "tag"
unfolding unless_empty string_eq
shown_tag tag same = rw same refl

paged-ApiKeeps :
    (items : List (Option GoogleEvent)) (calendar : String)
    → ApiKeeps memory (paged items) calendar AllValid
paged-ApiKeeps items calendar = record {
  list_keeps = λ call log q. q;
  get_keeps = λ event log q. q;
  got = tagged calendar;
  found = λ account event token log page log' ev call first. (page.items, first);
  insert_keeps = λ ev valid log q. All-append Valid log _ q (valid, tt);
  update_keeps =
      λ account event title start end block same log h. (All-append Valid log _ h.0 (tt, tt), h.1);
  delete_keeps =
      λ event block owned log h. (All-append Valid log _ h.0 (shown_tag block.etag h.1, tt), h.1);
}

abbrev connect : String → String → Log → Result (EventsApi Log) × Log
connect credentials token log =
    (ok (paged (if credentials == "home.json" then some meeting ∷ [] else [])), log)

abbrev two_accounts : Config
two_accounts = record {
  accounts =
      (record {
        name = "home";
        credentials_file = "home.json";
        token_file = "home.token";
        calendar_id = "h";
      })
      ∷ (record {
        name = "work";
        credentials_file = "work.json";
        token_file = "work.token";
        calendar_id = "w";
      })
      ∷ [];
  poll_interval = "5m";
  lookahead_days = pos 30;
  block_title = "Busy";
  webhook = record {
    enabled = false;
    public_url = "";
    listen_addr = "";
    verification_token = "";
    channel_ttl = "";
    debounce_interval = "";
  };
  web_ui = record { enabled = false; listen_addr = ""; auth_token = "" };
  metrics = record { enabled = false; listen_addr = ""; ready_max_age = "" };
}

abbrev now : Log → ℤ
now log = pos 100

abbrev built : Engine Log
built = record {
  accounts =
      (record {
        name = "home";
        calendar_id = "h";
        client = account_client prompt format 2 (paged (some meeting ∷ []));
      })
      ∷ (record {
        name = "work";
        calendar_id = "w";
        client = account_client prompt format 2 (paged []);
      })
      ∷ [];
  block_title = "Busy";
  lookahead_days = pos 30;
  now = now;
  dry_run = false;
}

builds : build_engine prompt format 2 connect now two_accounts [] ≡ (ok built, [])
unfolding build_engine build_accounts build_account named_error string_eq
builds = refl

sync_once-build_engine_keeps_example : AllValid (sync_once (record built { dry_run = false }) []).1
sync_once-build_engine_keeps_example =
    sync_once-build_engine_keeps prompt format 2 connect AllValid memory
      (record { jitter = λ ceiling log q. q; sleep = λ wait log q. q })
      (record {
        remember_got = λ api calendar event ev. record {
          jitter = λ ceiling log q. q;
          sleep = λ wait log q. q;
        };
        remember_found = λ api calendar account event ev. record {
          jitter = λ ceiling log q. q;
          sleep = λ wait log q. q;
        };
      })
      (λ credentials token log q. ((λ calendar. paged-ApiKeeps _ calendar), q)) now two_accounts []
      built [] builds tt false [] tt
