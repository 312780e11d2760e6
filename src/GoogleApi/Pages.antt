-- ===== src/GoogleApi/Pages.antt =====
-- The page loops of internal/sync/client.go read every page.
use mathlib.Core.List.{append_assoc}
use calendar_bridge.Base.{
  ℕ, zero, suc, ◌≡◌, ◌≢◌, refl, sym, String, true, false, inl, inr, Option, none, some, List, [],
  ◌∷◌, ◌++◌, ◌==◌, string_eq, Option-cases, arith,
}
use calendar_bridge.Base.Int.{ℤ}
use calendar_bridge.Effect.{ok, M}
use calendar_bridge.Calendar.{GoogleEvent}
use calendar_bridge.GoogleApi.{
  EventsApi, Page, first_block, after_page, after_search, window_page, list_pages, source_page,
  find_pages, list_events, find_block_by_source,
}

-- Asked for the page of a token, and then for the one that each answer names, the API answers with a
-- last page after so many pages at most, and these are the items of all pages. `read` asks for a page.
module _ {W : Type 0} (read : String → M W Page) where
  pub data Pages : ℕ → String → W → List (Option GoogleEvent) → W → Type 0 where
    last :
        {pages : ℕ} {token : String} {w w' : W} (page : Page)
        → read token w ≡ (ok page, w')
        → page.next_page_token ≡ ""
        → Pages (suc pages) token w page.items w'
    more :
        {pages : ℕ} {token : String} {w v w' : W} {items : List (Option GoogleEvent)} (page : Page)
        → read token w ≡ (ok page, v)
        → page.next_page_token ≢ ""
        → Pages pages page.next_page_token v items w'
        → Pages (suc pages) token w (page.items ++ items) w'

is_last : (token : String) → token ≡ "" → (token == "") ≡ true
is_last token end = ground arith

is_not_last : (token : String) → token ≢ "" → (token == "") ≡ false
is_not_last token next = ground arith

first_block-append :
    (account event : String) (xs ys : List (Option GoogleEvent))
    → first_block account event xs ≡ none
    → first_block account event (xs ++ ys) ≡ first_block account event ys
unfolding first_block
first_block-append account event [] ys missing = refl
first_block-append account event (none ∷ xs) ys missing =
    first_block-append account event xs ys missing
first_block-append account event (some ev ∷ xs) ys missing =
    ground (arith, first_block-append account event xs ys)

first_block-append_found :
    (account event : String) (xs ys : List (Option GoogleEvent)) (ev : GoogleEvent)
    → first_block account event xs ≡ some ev
    → first_block account event (xs ++ ys) ≡ some ev
unfolding first_block
first_block-append_found account event [] ys ev found = cc
first_block-append_found account event (none ∷ xs) ys ev found =
    first_block-append_found account event xs ys ev found
first_block-append_found account event (some x ∷ xs) ys ev found =
    ground (arith, first_block-append_found account event xs ys ev)

search_last :
    {W : Type 0} (next : M W (Option GoogleEvent)) (token : String) (r : Option GoogleEvent) (w : W)
    → token ≡ ""
    → (after_search next token r w).0 ≡ ok r
unfolding after_search
search_last next token (some ev) w end = refl
search_last next token none w end = rw (is_last token end) refl

module _ {W : Type 0} (api : EventsApi W) (format : ℤ → String) (calendar_id : String) where
  module _ (time_min time_max : ℤ) where
    list_pages_complete :
        (pages : ℕ) (token : String) (all : List (Option GoogleEvent)) (w : W)
        (items : List (Option GoogleEvent)) (w' : W)
        → Pages (window_page api format calendar_id time_min time_max) pages token w items w'
        → list_pages api format calendar_id time_min time_max pages token all w
          ≡ (ok (all ++ items), w')
    unfolding list_pages after_page
    list_pages_complete zero token all w items w' all_pages = elim all_pages [ ]
    list_pages_complete (suc pages) token all w _ w' (last page answer end) =
        rw (answer, is_last page.next_page_token end) refl
    list_pages_complete (suc pages) token all w _ w' (more {items} page answer next rest) =
        rw (answer, is_not_last page.next_page_token next, sym (append_assoc all page.items items))
          (list_pages_complete pages page.next_page_token (all ++ page.items) _ items w' rest)

    -- `ListEvents` returns the items of all pages in order, if the API names no next page within the
    -- bound on the pages.
    pub list_events_complete :
        (pages : ℕ) (w : W) (items : List (Option GoogleEvent)) (w' : W)
        → Pages (window_page api format calendar_id time_min time_max) pages "" w items w'
        → list_events api format pages calendar_id time_min time_max w ≡ (ok items, w')
    unfolding list_events
    list_events_complete pages w items w' all_pages =
        list_pages_complete pages "" [] w items w' all_pages

  module _ (account event : String) where
    find_pages_complete :
        (pages : ℕ) (token : String) (w : W) (items : List (Option GoogleEvent)) (w' : W)
        → Pages (source_page api format calendar_id account event) pages token w items w'
        → (find_pages api format calendar_id account event pages token w).0
          ≡ ok (first_block account event items)
    unfolding find_pages after_search
    find_pages_complete zero token w items w' all_pages = elim all_pages [ ]
    find_pages_complete (suc pages) token w _ w' (last page answer end) =
        rw answer (search_last _ page.next_page_token _ w' end)
    find_pages_complete (suc pages) token w _ w' (more {v} {items} page answer next rest) =
        elim (Option-cases (first_block account event page.items)) [
          | inl missing ↦
              rw
                (
                  answer,
                  missing,
                  is_not_last page.next_page_token next,
                  first_block-append account event page.items items missing,
                )
                (find_pages_complete pages page.next_page_token v items w' rest)
          | inr (ev, found) ↦
              rw (answer, found, first_block-append_found account event page.items items ev found)
                refl
        ]

    -- `FindBlockBySource` returns the first block of the source on all pages, and none only if no
    -- page has one, if the API names no next page within the bound on the pages.
    pub find_block_by_source_complete :
        (pages : ℕ) (w : W) (items : List (Option GoogleEvent)) (w' : W)
        → Pages (source_page api format calendar_id account event) pages "" w items w'
        → (find_block_by_source api format pages calendar_id account event w).0
          ≡ ok (first_block account event items)
    unfolding find_block_by_source
    find_block_by_source_complete pages w items w' all_pages =
        find_pages_complete pages "" w items w' all_pages
