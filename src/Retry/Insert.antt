-- ===== src/Retry/Insert.antt =====
-- A retried insert makes no second block, and a retried delete that reports success has removed its
-- target (internal/sync/retrying_client.go).
use mathlib.Core.Path.{subst}
use mathlib.Core.Logic.{if_neg}
use calendar_bridge.Base.{
  ℕ, zero, suc, ◌+◌, ◌-◌, ◌≤◌, ◌<◌, ◌≡◌, ◌≢◌, refl, sym, ap, ◌∙◌, arith, Bool-cases, inl, inr,
  String, true, false, Option, none, some,
}
use calendar_bridge.Fault.{
  Fault, ambiguous_insert, as_api, as_dns, as_net, is_transient, is_ambiguous, is_gone,
}
use calendar_bridge.Effect.{Result, ok, err}
use calendar_bridge.Calendar.{GoogleEvent}
use calendar_bridge.Client.{CalendarClient}
use calendar_bridge.Retry.{RetryPolicy, Runtime, attempts_of, retry}
use calendar_bridge.Retry.Rule.{retry_loop_rule}
use calendar_bridge.Retry.Laws.{IsQuiet, count-slept}
use calendar_bridge.Retry.Client.{
  resolve, ownership_sent, settle_insert, insert_once, settle_delete, insert_event, delete_event,
}

-- What is relied on of the calendar API, where `blocks` counts the blocks of one source event on one
-- calendar: an insert that succeeds adds one; one that the server answers with a retryable status
-- adds none; any other failure may have added one. A lookup changes nothing and tells whether there
-- is one.
pub record CountsBlocks {W : Type 0} (client : CalendarClient W) (calendar_id : String)
    (ev : Option GoogleEvent) (blocks : W → ℕ) : Type 0 where
  pub inserted :
      (w : W) (r : Option GoogleEvent) (w' : W)
      → client.insert_event calendar_id ev w ≡ (ok r, w')
      → blocks w' ≡ blocks w + 1
  pub refused :
      (w : W) (e : Fault) (w' : W)
      → client.insert_event calendar_id ev w ≡ (err e, w')
      → is_transient e ≡ true
      → is_ambiguous e ≡ false
      → blocks w' ≡ blocks w
  pub unknown :
      (w : W) (e : Fault) (w' : W)
      → client.insert_event calendar_id ev w ≡ (err e, w')
      → blocks w' ≤ blocks w + 1
  pub looked_up :
      (account event : String) (w : W)
      → blocks (client.find_block_by_source calendar_id account event w).1 ≡ blocks w
  pub missing :
      (w w' : W)
      → client.find_block_by_source calendar_id
          (ownership_sent ev).source_account
          (ownership_sent ev).source_event_id
          w
        ≡ (ok none, w')
      → blocks w ≡ 0
  pub found :
      (w : W) (b : GoogleEvent) (w' : W)
      → client.find_block_by_source calendar_id
          (ownership_sent ev).source_account
          (ownership_sent ev).source_event_id
          w
        ≡ (ok (some b), w')
      → 0 < blocks w

-- The error that leaves it open whether there is a block is not retried.
never_retried : (e f : Fault) → is_transient (ambiguous_insert e f) ≡ false
unfolding is_transient as_api as_dns as_net
never_retried e f = refl

-- The world after an insert that began with no block: one block on success, and one at most on
-- failure.
abbrev pub OneBlock : {W : Type 0} → (W → ℕ) → Result (Option GoogleEvent) × W → Type 0
OneBlock blocks (ok _, w) = blocks w ≡ 1
OneBlock blocks (err _, w) = blocks w ≤ 1

-- The same after one call, where moreover an error that will be retried leaves no block.
abbrev Once : {W : Type 0} → (W → ℕ) → Result (Option GoogleEvent) × W → Type 0
Once blocks (ok _, w) = blocks w ≡ 1
Once blocks (err e, w) = (blocks w ≤ 1) × (is_transient e ≡ true → blocks w ≡ 0)

module _ {W : Type 0} (client : CalendarClient W) (calendar_id : String) (ev : Option GoogleEvent)
    (blocks : W → ℕ) (counts : CountsBlocks client calendar_id ev blocks)
    (has_account : (ownership_sent ev).source_account ≢ "")
    (has_event : (ownership_sent ev).source_event_id ≢ "") where
  looked :
      (v : W) (r : Result (Option GoogleEvent)) (w : W)
      → client.find_block_by_source calendar_id
          (ownership_sent ev).source_account
          (ownership_sent ev).source_event_id
          v
        ≡ (r, w)
      → blocks w ≡ blocks v
  looked v r w find = sym (ap (λ s. blocks s.1) find) ∙ counts.looked_up _ _ v

  resolve-Once :
      (e : Fault) (v : W) (r : Result (Option GoogleEvent) × W)
      → blocks v ≤ 1
      → client.find_block_by_source calendar_id
          (ownership_sent ev).source_account
          (ownership_sent ev).source_event_id
          v
        ≡ r
      → Once blocks (resolve e r)
  unfolding resolve
  resolve-Once e v (ok (some b), w) h find =
      omega (arith, counts.found v b w find, looked v (ok (some b)) w find)
  resolve-Once e v (ok none, w) h find =
      let none_left = looked v (ok none) w find ∙ counts.missing v w find in
      (omega arith, λ _. none_left)
  resolve-Once e v (err f, w) h find =
      (omega (arith, looked v (err f) w find), λ t. cc (t, never_retried e f))

  settle_insert-Once :
      (v : W) (r : Result (Option GoogleEvent) × W)
      → blocks v ≡ 0
      → client.insert_event calendar_id ev v ≡ r
      → Once blocks (settle_insert client calendar_id (ownership_sent ev) r)
  unfolding settle_insert
  settle_insert-Once v (ok created, w) h call = omega (arith, counts.inserted v created w call)
  settle_insert-Once v (err e, w) h call = elim (Bool-cases (is_ambiguous e)) [
    | inl ambiguous ↦
        rw (ambiguous, if_neg _ has_account, if_neg _ has_event)
          (resolve-Once e w _ (omega (arith, counts.unknown v e w call)) refl)
    | inr known ↦
        rw known
          (omega (arith, counts.unknown v e w call), λ t. counts.refused v e w call t known ∙ h)
  ]

  -- A retried insert makes at most one block, and exactly one if it reports success, however many of
  -- the answers on the way are lost: if the calendar has no block of the source before, the inserted
  -- event names its source account and event, and the calendar API behaves as `CountsBlocks` says.
  pub insert_event-OneBlock :
      (rt : Runtime W) (p : RetryPolicy)
      → IsQuiet rt blocks
      → (w : W) → blocks w ≡ 0
      → OneBlock blocks (insert_event rt p client calendar_id ev w)
  unfolding insert_event retry insert_once
  insert_event-OneBlock rt p quiet w none_yet =
      retry_loop_rule rt p _ (λ _ _ _ v. blocks v ≡ 0) (OneBlock blocks)
        (λ more i last v e h _. omega arith) (λ more i last v a v' h call. once v (ok a, v') h call)
        (λ more i last v e v' h call _. (once v (err e, v') h call).0)
        (λ i last v e v' h call _. (once v (err e, v') h call).0)
        (λ more i last v e v' c u h call t rest. omega (
          arith,
          (once v (err e, v') h call).0,
          count-slept rt p blocks quiet i v' (some c) u rest,
        ))
        (λ more i last v e v' u h call t rest.
          count-slept rt p blocks quiet i v' none u rest ∙ (once v (err e, v') h call).1 t)
        (attempts_of p - 1) 0 none w none_yet
    where
      once :
          (v : W) (r : Result (Option GoogleEvent) × W)
          → blocks v ≡ 0
          → insert_once client calendar_id ev v ≡ r
          → Once blocks r
      once v r h call = subst (Once blocks) call (settle_insert-Once v _ h refl)

-- A world without the target, if the delete reports success.
abbrev pub GoneIfOk : {W : Type 0} → (W → Type 0) → Result (Unit {0}) × W → Type 0
GoneIfOk Gone (ok _, w) = Gone w
GoneIfOk Gone (err _, w) = Unit

module _ {W : Type 0} (client : CalendarClient W) (calendar_id event_id if_match : String)
    (Gone : W → Type 0) where
  settle_delete-GoneIfOk :
      (i : ℕ) (r : Result (Unit {0}) × W)
      → ((u : Unit {0}) (w : W) → r ≡ (ok u, w) → Gone w)
      → ((e : Fault) (w : W) → r ≡ (err e, w) → is_gone e ≡ true → Gone w)
      → GoneIfOk Gone (settle_delete i r)
  unfolding settle_delete
  settle_delete-GoneIfOk i (ok u, w) deleted absent = deleted u w refl
  settle_delete-GoneIfOk zero (err e, w) deleted absent = tt
  settle_delete-GoneIfOk (suc i) (err e, w) deleted absent = elim (Bool-cases (is_gone e)) [
    | inl gone ↦ rw gone (absent e w refl gone)
    | inr other ↦ rw other tt
  ]

  -- A retried delete that reports success leaves no target, if the API's success does and its 404
  -- and 410 mean that there is none.
  pub delete_event-GoneIfOk :
      (rt : Runtime W) (p : RetryPolicy)
      → ((w : W) (u : Unit {0}) (w' : W)
          → client.delete_event calendar_id event_id if_match w ≡ (ok u, w')
          → Gone w')
      → ((w : W) (e : Fault) (w' : W)
          → client.delete_event calendar_id event_id if_match w ≡ (err e, w')
          → is_gone e ≡ true
          → Gone w')
      → (w : W) → GoneIfOk Gone (delete_event rt p client calendar_id event_id if_match w)
  unfolding delete_event retry
  delete_event-GoneIfOk rt p deleted absent w =
      retry_loop_rule rt p _ (λ _ _ _ _. Unit) (GoneIfOk Gone) (λ more i last v e h _. tt)
        (λ more i last v a v' h call.
          subst (GoneIfOk Gone) call (settle_delete-GoneIfOk i _ (deleted v) (absent v)))
        (λ more i last v e v' h call _. tt) (λ i last v e v' h call _. tt)
        (λ more i last v e v' c u h call t rest. tt) (λ more i last v e v' u h call t rest. tt)
        (attempts_of p - 1) 0 none w tt
