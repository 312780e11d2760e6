-- ===== src/GoogleApi/Match.antt =====
-- What a lookup of internal/sync/client.go may return, whatever the Calendar API answers.
use calendar_bridge.Base.{
  ℕ, zero, suc, ◌≡◌, String, true, false, inl, inr, Option, none, some, List, [], ◌∷◌, ◌==◌,
  string_eq, Bool-cases, arith,
}
use calendar_bridge.Base.Int.{ℤ}
use calendar_bridge.Effect.{Result, ok, err, M, continue}
use calendar_bridge.Calendar.{GoogleEvent, is_cancelled, is_owned_block, source_identity}
use calendar_bridge.GoogleApi.{
  EventsApi, is_block_of, first_block, after_search, find_pages, find_block_by_source,
}

-- An owned block of this source.
pub record IsBlockOf (src_account src_event_id : String) (ev : GoogleEvent) : Type 0 where
  pub not_cancelled : is_cancelled ev ≡ false
  pub owned : is_owned_block ev ≡ true
  pub complete : (source_identity ev).complete ≡ true
  pub account : (source_identity ev).account ≡ src_account
  pub event : (source_identity ev).event_id ≡ src_event_id

pub is_block_of-IsBlockOf :
    (account event : String) (ev : GoogleEvent)
    → is_block_of account event ev ≡ true
    → IsBlockOf account event ev
unfolding is_block_of
is_block_of-IsBlockOf account event ev h = record {
  not_cancelled = ground arith;
  owned = ground arith;
  complete = ground arith;
  account = ground arith;
  event = ground arith;
}

-- What a lookup found, if anything.
abbrev pub Found : {W : Type 0} → (GoogleEvent → Type 0) → Result (Option GoogleEvent) × W → Type 0
Found P (ok (some ev), w) = P ev
Found P (ok none, w) = Unit
Found P (err e, w) = Unit

first_block-IsBlockOf :
    {W : Type 0} (account event : String) (items : List (Option GoogleEvent)) (w : W)
    → Found (IsBlockOf account event) (ok (first_block account event items), w)
unfolding first_block
first_block-IsBlockOf account event [] w = tt
first_block-IsBlockOf account event (none ∷ items) w = first_block-IsBlockOf account event items w
first_block-IsBlockOf account event (some ev ∷ items) w =
    elim (Bool-cases (is_block_of account event ev)) [
      | inl same ↦ rw same (is_block_of-IsBlockOf account event ev same)
      | inr other ↦ rw other (first_block-IsBlockOf account event items w)
    ]

module _ {W : Type 0} (P : GoogleEvent → Type 0) where
  after_search-Found :
      (next : M W (Option GoogleEvent)) (token : String) (r : Option GoogleEvent) (w : W)
      → ((v : W) → Found P (next v))
      → Found P (ok r, w)
      → Found P (after_search next token r w)
  unfolding after_search
  after_search-Found next token (some ev) w more found = found
  after_search-Found next token none w more found = elim (Bool-cases (token == "")) [
    | inl done ↦ rw done tt
    | inr going ↦ rw going (more w)
  ]

  continue-Found :
      {A : Type 0} (r : Result A × W) (f : A → M W (Option GoogleEvent))
      → ((a : A) (w : W) → Found P (f a w))
      → Found P (continue r f)
  continue-Found (ok a, w) f next = next a w
  continue-Found (err e, w) f next = tt

module _ {W : Type 0} (api : EventsApi W) (format : ℤ → String)
    (calendar_id account event : String) where
  find_pages-IsBlockOf :
      (pages : ℕ) (token : String) (w : W)
      → Found
          (IsBlockOf account event)
          (find_pages api format calendar_id account event pages token w)
  unfolding find_pages
  find_pages-IsBlockOf zero token w = tt
  find_pages-IsBlockOf (suc pages) token w = continue-Found (IsBlockOf account event) _ _ λ res v.
      after_search-Found (IsBlockOf account event) _ res.next_page_token _ v
        (find_pages-IsBlockOf pages res.next_page_token)
        (first_block-IsBlockOf account event res.items v)

  -- Whatever the API answers, `FindBlockBySource` returns no event but one that is not cancelled,
  -- carries the owner tag, and names completely the source account and event that were asked for.
  pub find_block_by_source-IsBlockOf :
      (pages : ℕ) (w : W)
      → Found
          (IsBlockOf account event)
          (find_block_by_source api format pages calendar_id account event w)
  unfolding find_block_by_source
  find_block_by_source-IsBlockOf pages w = find_pages-IsBlockOf pages "" w
