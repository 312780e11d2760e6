-- ===== src/Engine/Safety/Fetch.antt =====
-- Step 1 of `SyncOnce` (internal/sync/sync.go) only reads, and what it gathers is as listed.
use mathlib.Core.Path.{subst}
use calendar_bridge.Base.{
  ℕ, string_eq, ◌≡◌, refl, String, Option, none, some, List, [], ◌∷◌, Bool-cases, inl, inr, All,
  All-append,
}
use calendar_bridge.Base.Int.{ℤ}
use calendar_bridge.Base.Dict
use calendar_bridge.Base.Dict.{Dict}
use calendar_bridge.Effect.{Result, ok, err}
use calendar_bridge.Calendar.{
  GoogleEvent, is_cancelled, is_owned_block, source_identity, blocks_time,
}
use calendar_bridge.Engine.Model.{Account, Engine, AccountEvents, no_events, events_of}
use calendar_bridge.Engine.Fetch.{add_owned, place, classify, Fetched, note_account, fetch}
use calendar_bridge.Engine.Safety.Terms.{IfSome, IsOwn, Terms, GoodEvents, Good}

-- Insertion under a name, as `events_of` sees it.
pub events_of-insert :
    (P : String → AccountEvents → Type 0) (name : String) (ae : AccountEvents)
    (d : Dict AccountEvents)
    → P name ae
    → ((n : String) → P n (events_of n d))
    → (n : String) → P n (events_of n (Dict.insert name ae d))
unfolding events_of
events_of-insert P name ae d new old n = elim (string_eq.dec name n) [
  | yes same ↦
      subst (λ n. P n (events_of n (Dict.insert name ae d))) same
        (rw (Dict.lookup-insert_self name ae d) new)
  | no other ↦ rw (Dict.lookup-insert_ne name n ae d other) (old n)
]

module _ {W : Type 0} (e : Engine W) (Listed : String → GoogleEvent → Type 0)
    (Mirrors : String → String → GoogleEvent → Type 0) (Q : W → Type 0) where
  add_owned-Good :
      (acc : Account W) (ae : AccountEvents) (b : GoogleEvent)
      → Terms e Listed Mirrors Q acc
      → IsOwn e Listed Mirrors Q acc.name b
      → GoodEvents e Listed Mirrors Q acc.name ae
      → GoodEvents e Listed Mirrors Q acc.name (add_owned ae b)
  unfolding add_owned
  add_owned-Good acc ae b terms own good = record {
    real = good.real;
    owned = All-append _ ae.owned (b ∷ []) good.owned (own, tt);
    index = elim (Bool-cases (source_identity b).complete) [
      | inl complete ↦ rw complete (
          Dict.insert_entries (Mirrors acc.name) _ b ae.index (terms.own_mirrors b own complete)
            good.index)
      | inr incomplete ↦ rw incomplete good.index
    ];
  }

  -- What the loop over the events of an account keeps.
  place-Good :
      (acc : Account W) (s : AccountEvents × ℕ) (ev : GoogleEvent)
      → Terms e Listed Mirrors Q acc
      → Listed acc.name ev
      → GoodEvents e Listed Mirrors Q acc.name s.0
      → GoodEvents e Listed Mirrors Q acc.name (place s ev).0
  unfolding place
  place-Good acc (ae, skipped) ev terms listed good = elim (Bool-cases (is_cancelled ev)) [
    | inl gone ↦ rw gone good
    | inr live ↦ rw live (elim (Bool-cases (is_owned_block ev)) [
      | inl own ↦ rw own (
          add_owned-Good acc ae ev terms
            (record { listed = listed; not_cancelled = live; owned = own }) good)
      | inr foreign ↦ rw foreign (elim (Bool-cases (blocks_time ev)) [
        | inl busy ↦ rw busy (record {
          real = All-append _ ae.real (ev ∷ []) good.real (
            record {
              listed = listed;
              not_cancelled = live;
              not_owned = foreign;
              takes_time = busy;
            },
            tt,
          );
          owned = good.owned;
          index = good.index;
        })
        | inr free ↦ rw free good
      ])
    ])
  ]

  classify-Good :
      (acc : Account W) (s : AccountEvents × ℕ) (events : List (Option GoogleEvent))
      → Terms e Listed Mirrors Q acc
      → All (IfSome (Listed acc.name)) events
      → GoodEvents e Listed Mirrors Q acc.name s.0
      → GoodEvents e Listed Mirrors Q acc.name (classify s events).0
  unfolding classify
  classify-Good acc s [] terms listed good = good
  classify-Good acc s (none ∷ events) terms listed good =
      classify-Good acc s events terms listed.1 good
  classify-Good acc s (some ev ∷ events) terms listed good =
      classify-Good acc (place s ev) events terms listed.1 (place-Good acc s ev terms listed.0 good)

  -- What step 1 leaves: truthful events, and the terms for every healthy account.
  pub record FetchedWell (f : Fetched W) : Type 0 where
    pub good : Good e Listed Mirrors Q f.by_account
    pub healthy : All (Terms e Listed Mirrors Q) f.healthy

  pub no_events-Good : (name : String) → GoodEvents e Listed Mirrors Q name no_events
  unfolding Dict.lookup
  no_events-Good name = record { real = tt; owned = tt; index = λ key b found. cc }

  note_account-FetchedWell :
      (acc : Account W) (f : Fetched W) (r : Result (List (Option GoogleEvent))) (w : W)
      → Terms e Listed Mirrors Q acc
      → ((events : List (Option GoogleEvent))
          → r ≡ ok events
          → All (IfSome (Listed acc.name)) events)
      → FetchedWell f
      → FetchedWell (note_account acc f r)
  unfolding note_account
  note_account-FetchedWell acc f (err x) w terms listed well = record {
    good = well.good;
    healthy = well.healthy;
  }
  note_account-FetchedWell acc f (ok events) w terms listed well = record {
    good =
        events_of-insert (GoodEvents e Listed Mirrors Q) acc.name _ f.by_account
          (classify-Good acc (no_events, 0) events terms (listed events refl)
            (no_events-Good acc.name))
          well.good;
    healthy = All-append _ f.healthy (acc ∷ []) well.healthy (terms, tt);
  }

  pub fetch-FetchedWell :
      (from to : ℤ) (accounts : List (Account W)) (f : Fetched W) (w : W)
      → All (Terms e Listed Mirrors Q) accounts
      → FetchedWell f
      → Q w
      → FetchedWell (fetch from to accounts f w).0 × Q (fetch from to accounts f w).1
  unfolding fetch
  fetch-FetchedWell from to [] f w terms well q = (well, q)
  fetch-FetchedWell from to (acc ∷ accounts) f w terms well q =
      let (r, w') = acc.client.list_events acc.calendar_id from to w in
      fetch-FetchedWell from to accounts (note_account acc f r) w' terms.1
        (note_account-FetchedWell acc f r w terms.0
          (λ events said. terms.0.list_listed from to w events w' (λ i. (said i, w'))) well)
        (terms.0.list_keeps from to w q)
