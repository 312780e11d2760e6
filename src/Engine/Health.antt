-- ===== src/Engine/Health.antt =====
-- What the result and the error of a pass (`SyncOnce`, internal/sync/sync.go) say about the accounts.
use calendar_bridge.Base.{
  ◌⊎◌, Option-cases, ℕ, suc, ◌+◌, ◌≤◌, ◌≡◌, ◌≢◌, refl, ap, ◌∙◌, arith, String, Option, none, List,
  [], ◌∷◌, ◌++◌, length, length-append, ltb, Bool-cases, inl, inr, ltb-false→le,
}
use calendar_bridge.Base.Int.{ℤ}
use calendar_bridge.Fault.{Fault}
use calendar_bridge.Effect.{Result, ok, err}
use calendar_bridge.Calendar.{GoogleEvent}
use calendar_bridge.Engine.Model.{Account, Engine, SyncResult}
use calendar_bridge.Engine.Fetch.{Fetched, note_account, fetch}
use calendar_bridge.Engine.Propagate.{
  Progress, count_outcome, note_outcome, propagate_pair, propagate_event, propagate_source,
  propagate,
}
use calendar_bridge.Engine.Collect.{note_deletion, collect_block, collect_blocks, collect}
use calendar_bridge.Engine.Pass.{join, fetch_all, reconcile, finish, after_fetch, sync_once}

-- Of `n` accounts, each is either healthy, and named so, or failed, and has left an error.
pub record Partition {W : Type 0} (n : ℕ) (f : Fetched W) : Type 0 where
  pub healthy : length f.result.healthy_accounts ≡ length f.healthy
  pub failed : length f.result.failed_accounts ≡ length f.errors
  pub total : length f.healthy + length f.errors ≡ n
  pub no_writes : f.result.created + f.result.updated + f.result.deleted ≡ 0

module _ {W : Type 0} where
  note_account-Partition :
      (acc : Account W) (n : ℕ) (f : Fetched W) (r : Result (List (Option GoogleEvent)))
      → Partition n f
      → Partition (suc n) (note_account acc f r)
  unfolding note_account
  note_account-Partition acc n f (err e) p = omega (arith, length-append {0})
  note_account-Partition acc n f (ok events) p = omega (arith, length-append {0})

  fetch-Partition :
      (from to : ℤ) (accounts : List (Account W)) (n m : ℕ) (f : Fetched W) (w : W)
      → Partition n f
      → n + length accounts ≡ m
      → Partition m (fetch from to accounts f w).0
  unfolding fetch
  fetch-Partition from to [] n m f w p sum = omega arith
  fetch-Partition from to (acc ∷ accounts) n m f w p sum =
      let (r, w') = acc.client.list_events acc.calendar_id from to w in
      fetch-Partition from to accounts (suc n) m (note_account acc f r) w'
        (note_account-Partition acc n f r p) (omega arith)

-- The names of the accounts in the result.
abbrev pub accounts_of : Progress → List String × List String
accounts_of s = (s.result.healthy_accounts, s.result.failed_accounts)

module _ {W : Type 0} (e : Engine W) where
  propagate_pair-accounts :
      (src : Account W) (ev : GoogleEvent) (dst : Account W) (s : Progress) (w : W)
      → accounts_of (propagate_pair e src ev dst s w).0 ≡ accounts_of s
  unfolding propagate_pair note_outcome count_outcome
  propagate_pair-accounts src ev dst s w = ground arith

  propagate_event-accounts :
      (src : Account W) (ev : GoogleEvent) (targets : List (Account W)) (s : Progress) (w : W)
      → accounts_of (propagate_event e src ev targets s w).0 ≡ accounts_of s
  unfolding propagate_event
  propagate_event-accounts src ev [] s w = refl
  propagate_event-accounts src ev (dst ∷ targets) s w =
      propagate_event-accounts src ev targets _ _ ∙ propagate_pair-accounts src ev dst s w

  propagate_source-accounts :
      (healthy : List (Account W)) (src : Account W) (events : List GoogleEvent) (s : Progress)
      (w : W)
      → accounts_of (propagate_source e healthy src events s w).0 ≡ accounts_of s
  unfolding propagate_source
  propagate_source-accounts healthy src [] s w = refl
  propagate_source-accounts healthy src (ev ∷ events) s w =
      propagate_source-accounts healthy src events _ _ ∙ propagate_event-accounts src ev healthy s w

  propagate-accounts :
      (healthy sources : List (Account W)) (s : Progress) (w : W)
      → accounts_of (propagate e healthy sources s w).0 ≡ accounts_of s
  unfolding propagate
  propagate-accounts healthy [] s w = refl
  propagate-accounts healthy (src ∷ sources) s w =
      propagate-accounts healthy sources _ _ ∙ propagate_source-accounts healthy src _ s w

  module _ (healthy : List (Account W)) (live : List String) where
    collect_block-accounts :
        (dst : Account W) (b : GoogleEvent) (s : Progress) (w : W)
        → accounts_of (collect_block e healthy live dst b s w).0 ≡ accounts_of s
    unfolding collect_block note_deletion
    collect_block-accounts dst b s w = ground arith

    collect_blocks-accounts :
        (dst : Account W) (blocks : List GoogleEvent) (s : Progress) (w : W)
        → accounts_of (collect_blocks e healthy live dst blocks s w).0 ≡ accounts_of s
    unfolding collect_blocks
    collect_blocks-accounts dst [] s w = refl
    collect_blocks-accounts dst (b ∷ blocks) s w =
        collect_blocks-accounts dst blocks _ _ ∙ collect_block-accounts dst b s w

    collect-accounts :
        (targets : List (Account W)) (s : Progress) (w : W)
        → accounts_of (collect e healthy live targets s w).0 ≡ accounts_of s
    unfolding collect
    collect-accounts [] s w = refl
    collect-accounts (dst ∷ targets) s w =
        collect-accounts targets _ _ ∙ collect_blocks-accounts dst _ s w

  reconcile-accounts :
      (f : Fetched W) (w : W)
      → accounts_of (reconcile e f w).0 ≡ (f.result.healthy_accounts, f.result.failed_accounts)
  unfolding reconcile
  reconcile-accounts f w =
      collect-accounts f.healthy _ f.healthy _ _ ∙ propagate-accounts f.healthy f.healthy _ w

join-eq-none : (es fs : List Fault) → join (es ++ fs) ≡ none → length es ≡ 0
unfolding join
join-eq-none [] fs h = refl
join-eq-none (e ∷ es) fs h = cc

join_append_ne_none : (es : List Fault) (f : Fault) → join (es ++ (f ∷ [])) ≢ none
unfolding join
join_append_ne_none [] f h = cc
join_append_ne_none (e ∷ es) f h = cc

-- What a pass over `n` accounts reports: the two lists have `n` accounts together; there is an error,
-- or none failed and there were two at least; and below two healthy accounts no write is counted and
-- there is an error.
pub record Reports (n : ℕ) (r : SyncResult × Option Fault) : Type 0 where
  pub each : length r.0.healthy_accounts + length r.0.failed_accounts ≡ n
  pub clean : (r.1 ≢ none) ⊎ ((length r.0.failed_accounts ≡ 0) × (2 ≤ length r.0.healthy_accounts))
  pub too_few :
      (2 ≤ length r.0.healthy_accounts)
      ⊎ ((r.0.created + r.0.updated + r.0.deleted ≡ 0) × (r.1 ≢ none))

module _ {W : Type 0} (e : Engine W) where
  after_fetch-Reports :
      (n : ℕ) (f : Fetched W) (w : W) → Partition n f → Reports n (after_fetch e f w).0
  unfolding after_fetch finish
  after_fetch-Reports n f w p = elim (Bool-cases (ltb (length f.healthy) 2)) [
    | inl few ↦ rw few (record {
      each = omega arith;
      clean = inl (join_append_ne_none f.errors _);
      too_few = inr (p.no_writes, join_append_ne_none f.errors _);
    })
    | inr enough ↦ rw enough (record {
      each = omega (arith, kept, ltb-false→le _ _ enough);
      clean = elim (Option-cases (join (f.errors ++ (reconcile e f w).0.errors))) [
        | inl clear ↦
            inr (omega (arith, kept, ltb-false→le _ _ enough, join-eq-none f.errors _ clear))
        | inr (x, failed) ↦ inl (λ h. cc)
      ];
      too_few = inl (omega (arith, kept, ltb-false→le _ _ enough));
    })
  ]
    where
      kept :
          (length (reconcile e f w).0.result.healthy_accounts ≡ length f.result.healthy_accounts)
          × (length (reconcile e f w).0.result.failed_accounts ≡ length f.result.failed_accounts)
      kept = (
        ap (λ (x : List String × List String). length x.0) (reconcile-accounts e f w),
        ap (λ (x : List String × List String). length x.1) (reconcile-accounts e f w),
      )

  -- Whatever the clients answer, the healthy and the failed accounts that a pass reports are as many
  -- together as the engine has; it returns an error, or no account failed and two at least are
  -- healthy; and with fewer than two healthy accounts it counts no write and returns an error.
  pub sync_once-Reports : (w : W) → Reports (length e.accounts) (sync_once e w).0
  unfolding sync_once fetch_all
  sync_once-Reports w =
      after_fetch-Reports (length e.accounts) (fetch_all e w).0 (fetch_all e w).1
        (fetch-Partition _ _ e.accounts 0 (length e.accounts) _ w (omega arith) (omega arith))
