-- ===== src/Tests/Retrying.antt =====
-- The retry loop and the retrying client at concrete inputs.
use text.Mathlib.TextEquality.{eq_iff}
use calendar_bridge.Base.{
  ℕ, zero, suc, ◌+◌, ◌-◌, ◌*◌, ◌≤◌, ◌<◌, ◌≡◌, ◌≢◌, refl, true, false, Option, some, arith,
  string_eq,
}
use calendar_bridge.Base.Dict
use calendar_bridge.Fault.{Fault, api, as_api, as_dns, as_net, is_transient, is_ambiguous, is_gone}
use calendar_bridge.Effect.{ok, err, M}
use calendar_bridge.Calendar.{GoogleEvent, zero_event}
use calendar_bridge.Provider.Mapping.{ownership_from_google, ownership_of}
use calendar_bridge.Retry.{
  max_of, backoff_ceiling, backoff_for, attempts_of, pause, after_sleep, decide, round, retry_loop,
  retry, default_retry_policy, pow2, base_of,
}
use calendar_bridge.Retry.Laws.{IsQuiet, Succeeds, retry-Succeeds, retry_bounds}
use calendar_bridge.Retry.Client.{
  resolve, ownership_sent, settle_insert, insert_once, settle_delete, insert_event, delete_event,
}
use calendar_bridge.Retry.Insert.{
  CountsBlocks, OneBlock, insert_event-OneBlock, GoneIfOk, delete_event-GoneIfOk,
}
use calendar_bridge.Tests.Flaky.{Flaky, flaky, patient, policy, payload, flaky_at, answer, remove}

-- The second answer is lost after the insert: the lookup finds the block.
insert_run :
    insert_event patient policy flaky "work" (some payload) (flaky_at 1 1)
    ≡ (ok (some zero_event), record { busy = 0; lost = 0; blocks = 1; slept = 7 })
unfolding insert_event retry retry_loop round decide pause after_sleep backoff_for backoff_ceiling
    pow2 base_of max_of attempts_of insert_once settle_insert resolve is_transient is_ambiguous
    as_api as_dns as_net ownership_sent ownership_from_google ownership_of Dict.get Dict.lookup
    string_eq
insert_run = refl

-- Without the lookup the third attempt would make a second block.
delete_run :
    delete_event patient policy flaky "work" "b" ""
      (record { busy = 0; lost = 1; blocks = 1; slept = 0 })
    ≡ (ok tt, record { busy = 0; lost = 0; blocks = 0; slept = 7 })
unfolding delete_event retry retry_loop round decide pause after_sleep backoff_for backoff_ceiling
    pow2 base_of max_of attempts_of settle_delete is_transient is_gone as_api as_dns as_net
delete_run = refl

-- A first 410 is reported.
delete_missing :
    delete_event patient policy flaky "work" "b" "" (flaky_at 0 0) ≡ (err (api 410), flaky_at 0 0)
unfolding delete_event retry retry_loop round decide attempts_of settle_delete is_transient as_api
delete_missing = refl

default_attempts : attempts_of default_retry_policy ≡ 4
unfolding attempts_of default_retry_policy
default_attempts = refl

abbrev insert_call : ℕ → M Flaky (Option GoogleEvent)
insert_call _ = flaky.insert_event "work" (some payload)

blocks-IsQuiet : IsQuiet patient (λ s. s.blocks)
blocks-IsQuiet = record { jitter = λ c w. refl; sleep = λ d w. refl }

answer-blocks : (b l : ℕ) (s : Flaky) → (answer b l s).1.blocks ≤ s.blocks + 1
answer-blocks (suc b) l s = omega arith
answer-blocks zero (suc l) s = omega arith
answer-blocks zero zero s = omega arith

faults-IsQuiet : IsQuiet patient (λ s. s.busy + s.lost)
faults-IsQuiet = record { jitter = λ c w. refl; sleep = λ d w. refl }

-- On a world whose two counters stand as given, an error is transient and uses one of them up.
answer-fails :
    (s : Flaky) (e : Fault) (s' : Flaky) (b l : ℕ)
    → s.busy ≡ b
    → s.lost ≡ l
    → answer b l s ≡ (err e, s')
    → (is_transient e ≡ true) × (s'.busy + s'.lost < s.busy + s.lost)
unfolding is_transient as_api as_dns as_net
answer-fails s e s' (suc b) l p q h = ground arith
answer-fails s e s' zero (suc l) p q h = ground arith
answer-fails s e s' zero zero p q h = cc

retry-Succeeds_example : Succeeds (retry patient policy insert_call (flaky_at 1 1))
unfolding attempts_of
retry-Succeeds_example =
    retry-Succeeds patient policy insert_call (λ s. s.busy + s.lost) faults-IsQuiet (λ w. refl)
      (λ d w. refl) (λ i w e w' h. answer-fails w e w' w.busy w.lost refl refl h) (flaky_at 1 1)
      (omega arith)

answer-slept : (b l : ℕ) (s : Flaky) → (answer b l s).1.slept ≡ s.slept
answer-slept (suc b) l s = refl
answer-slept zero (suc l) s = refl
answer-slept zero zero s = refl

retry_bounds_example :
    ((retry patient policy insert_call (flaky_at 1 1)).1.blocks
      ≤ (flaky_at 1 1).blocks + attempts_of policy)
    × ((retry patient policy insert_call (flaky_at 1 1)).1.slept
        ≤ (flaky_at 1 1).slept + (attempts_of policy - 1) * max_of policy)
retry_bounds_example =
    retry_bounds patient policy insert_call (λ s. s.blocks) (λ s. s.slept) blocks-IsQuiet
      (λ i w. answer-blocks w.busy w.lost w) (λ c w h. omega arith) (λ c w. refl)
      (λ d w. omega arith) (λ i w. answer-slept w.busy w.lost w) (flaky_at 1 1)

answer_ok :
    (b l : ℕ) (s : Flaky) (r : Option GoogleEvent) (s' : Flaky)
    → answer b l s ≡ (ok r, s')
    → s'.blocks ≡ s.blocks + 1
answer_ok (suc b) l s r s' h = cc
answer_ok zero (suc l) s r s' h = cc
answer_ok zero zero s r s' h = ground arith

answer_known :
    (b l : ℕ) (s : Flaky) (e : Fault) (s' : Flaky)
    → answer b l s ≡ (err e, s')
    → is_ambiguous e ≡ false
    → s'.blocks ≡ s.blocks
unfolding is_ambiguous as_api as_dns as_net
answer_known (suc b) l s e s' h known = ground arith
answer_known zero (suc l) s e s' h known = ground arith
answer_known zero zero s e s' h known = cc

answer_any :
    (b l : ℕ) (s : Flaky) (e : Fault) (s' : Flaky)
    → answer b l s ≡ (err e, s')
    → s'.blocks ≤ s.blocks + 1
answer_any (suc b) l s e s' h = ground arith
answer_any zero (suc l) s e s' h = ground arith
answer_any zero zero s e s' h = cc

flaky-CountsBlocks : CountsBlocks flaky "work" (some payload) (λ s. s.blocks)
flaky-CountsBlocks = record {
  inserted = λ w r w' h. answer_ok w.busy w.lost w r w' h;
  refused = λ w e w' h transient known. answer_known w.busy w.lost w e w' h known;
  unknown = λ w e w' h. answer_any w.busy w.lost w e w' h;
  looked_up = λ account event w. refl;
  missing = λ w w' h. ground arith;
  found = λ w b w' h. ground arith;
}

names_account : (ownership_sent (some payload)).source_account ≢ ""
unfolding ownership_sent ownership_from_google ownership_of Dict.get Dict.lookup string_eq
names_account h = ground (arith, eq_iff "home" "")

names_event : (ownership_sent (some payload)).source_event_id ≢ ""
unfolding ownership_sent ownership_from_google ownership_of Dict.get Dict.lookup string_eq
names_event h = ground (arith, eq_iff "e1" "")

insert_event-OneBlock_example :
    OneBlock
      (λ s. s.blocks)
      (insert_event patient policy flaky "work" (some payload) (flaky_at 1 1))
insert_event-OneBlock_example =
    insert_event-OneBlock flaky "work" (some payload) (λ s. s.blocks) flaky-CountsBlocks
      names_account names_event patient policy blocks-IsQuiet (flaky_at 1 1) refl

remove_ok :
    (l b : ℕ) (s : Flaky) (u : Unit {0}) (s' : Flaky) → remove l b s ≡ (ok u, s') → s'.blocks ≡ 0
remove_ok l zero s u s' h = cc
remove_ok l (suc b) s u s' h = ground arith

remove_gone :
    (l b : ℕ) (s : Flaky) (e : Fault) (s' : Flaky)
    → s.blocks ≡ b
    → remove l b s ≡ (err e, s')
    → is_gone e ≡ true
    → s'.blocks ≡ 0
unfolding is_gone as_api
remove_gone l zero s e s' p h gone = ground arith
remove_gone l (suc b) s e s' p h gone = ground arith

delete_event-GoneIfOk_example :
    GoneIfOk
      (λ s. s.blocks ≡ 0)
      (delete_event patient policy flaky "work" "b" ""
        (record { busy = 0; lost = 1; blocks = 1; slept = 0 }))
delete_event-GoneIfOk_example =
    delete_event-GoneIfOk flaky "work" "b" "" (λ s. s.blocks ≡ 0) patient policy
      (λ w u w' h. remove_ok w.lost w.blocks w u w' h)
      (λ w e w' h gone. remove_gone w.lost w.blocks w e w' refl h gone)
      (record { busy = 0; lost = 1; blocks = 1; slept = 0 })
