-- ===== src/Tests/Nudges.antt =====
-- Notifications to the receiver and the debouncer of internal/webhook/receiver.go.
use mathlib.Core.List.{Memᴰ}
use mathlib.Core.Path.{subst}
use text.Mathlib.Text
use calendar_bridge.Base.{
  Bool, ℕ, ◌+◌, ◌*◌, ◌≤◌, ◌≡◌, ◌≢◌, refl, sym, ap, map, [], ◌∷◌, true, false, ◌⊎◌, String,
  string_eq, arith,
}
use calendar_bridge.Base.Int.{ℤ, pos, ◌+ℤ◌, ltb_ℤ}
use calendar_bridge.Base.Dict
use calendar_bridge.Effect.{ok, err}
use calendar_bridge.Webhook.Manager.{
  Channel, Target, ChannelWatcher, Manager, skew_of, new_manager, renew_expiring, key, run,
}
use calendar_bridge.Webhook.GoogleWatcher.{
  ChannelsApi, new_google_watcher, note_answer, watch_with, watch, stop, no_service,
}
use calendar_bridge.Webhook.Ledger.{later, counting, Distinct, IsClosed, empty_ledger}
use calendar_bridge.Webhook.Balance.{run-IsClosed}
use calendar_bridge.Webhook.Renewal.{target_key, Fresh, renew_expiring-Fresh}
use calendar_bridge.Webhook.Receiver.{
  Request, Receiver, valid_token, serve_http, Answer, serve_http-Answer,
}
use calendar_bridge.Webhook.Debouncer.{new_debouncer, next_gen, notify, fire}
use calendar_bridge.Webhook.Quiet.{
  Callback, Moment, Reachable, Follows, begin, armed, notified, waited, ran, fire-quiet,
  armed-Follows,
}

abbrev request : String → String → Request
request token state = record { method = "POST"; channel_token = token; resource_state = state }

-- The world is the number of notifications.
abbrev counter : Receiver ℕ
counter = record { token = "secret"; notify = λ n. n + 1 }

abbrev digest : String → String
digest text = text

change_run : serve_http digest counter (request "secret" "exists") 4 ≡ (200, 5)
unfolding serve_http valid_token string_eq
change_run = refl

forged_run : serve_http digest counter (request "guess" "exists") 4 ≡ (403, 4)
unfolding serve_http valid_token string_eq
forged_run = refl

serve_http-Answer_example :
    Answer digest counter
      (request "secret" "exists")
      4
      (serve_http digest counter (request "secret" "exists") 4)
serve_http-Answer_example =
    serve_http-Answer digest counter (request "secret" "exists") 4 (λ same. same)

-- Two notifications, 3 apart, under an interval of 5; then the first callback runs late, at 8, when
-- the second one is due as well.
abbrev twice : Moment
twice = waited 5 (notified (waited 3 (notified (begin (pos 5)))))

abbrev first_armed : Callback
first_armed = armed (begin (pos 5))

abbrev second_armed : Callback
second_armed = armed (waited 3 (notified (begin (pos 5))))

stale_run : (ran first_armed twice).debouncer.queued ≡ false
unfolding fire notify next_gen new_debouncer
stale_run = refl

latest_run : (ran second_armed twice).debouncer.queued ≡ true
unfolding fire notify next_gen new_debouncer
latest_run = refl

second_is_due : second_armed.due ≤ twice.now
unfolding notify new_debouncer
second_is_due = omega arith

fire-quiet_example :
    (fire second_armed.gen twice.debouncer ≡ twice.debouncer)
    ⊎ (twice.last + twice.debouncer.interval ≤ twice.now)
fire-quiet_example =
    fire-quiet (pos 5) twice second_armed
      (Reachable.waits 5
        (Reachable.notifies (Reachable.waits 3 (Reachable.notifies Reachable.start))))
      (Memᴰ.head refl) second_is_due (omega arith)

armed-Follows_example :
    Memᴰ first_armed (waited 5 (notified (begin (pos 5)))).callbacks
    × ((fire first_armed.gen (waited 5 (notified (begin (pos 5)))).debouncer).queued ≡ true)
armed-Follows_example =
    armed-Follows (begin (pos 5)) (waited 5 (notified (begin (pos 5))))
      (Follows.waits 5 Follows.at_once)

-- A watcher that gives every channel a day from the number of its calls; the world is that number.
abbrev pub channel_of : String → String → ℕ → Channel
channel_of account calendar calls = record {
  id = "channel";
  resource_id = "resource";
  account = account;
  calendar_id = calendar;
  expiry = pos (86_400_000_000_000 + calls);
}

abbrev ready : ChannelWatcher ℕ
ready = record {
  watch =
      λ account calendar url token ttl calls. (ok (channel_of account calendar calls), calls + 1);
  stop = λ ch calls. (ok tt, calls);
}

abbrev manager : Manager ℕ
manager = record {
  watcher = ready;
  callback_url = "https://cb.example.com/webhook";
  token = "secret";
  ttl = pos 600_000_000_000;
  renew_skew = pos 60_000_000_000;
  channels = ("home|h", channel_of "home" "h" 0) ∷ [];
}

new_manager_run :
    new_manager ready "https://cb.example.com/webhook" "secret" (pos 600_000_000_000)
    ≡ record manager { channels = [] }
unfolding new_manager skew_of
new_manager_run = refl

abbrev pub home_calendar : Target
home_calendar = record { account = "home"; calendar_id = "h" }

abbrev pub work_calendar : Target
work_calendar = record { account = "work"; calendar_id = "w" }

lives_on :
    (calls : ℕ) → ltb_ℤ (pos (86_400_000_000_000 + calls)) (pos 1 +ℤ pos 60_000_000_000) ≡ false
unfolding ◌+ℤ◌
lives_on calls = ground arith

renew_expiring-Fresh_example :
    Fresh
      (pos 1)
      manager
      (target_key work_calendar)
      (renew_expiring (pos 1) (home_calendar ∷ work_calendar ∷ []) manager 0).0.channels
renew_expiring-Fresh_example =
    renew_expiring-Fresh (pos 1) manager
      (λ t calls. (channel_of t.account t.calendar_id calls, calls + 1, refl, lives_on calls))
      (home_calendar ∷ work_calendar ∷ []) 0 work_calendar (Memᴰ.tail (Memᴰ.head refl))

-- The calls of one account; the world is the number of calls.
abbrev home_service : ChannelsApi ℕ
home_service = record {
  watch = λ calendar call calls.
      (ok (record { id = call.id; resource_id = "resource"; expiration = pos 0 }), calls + 1);
  stop = λ id resource calls. (ok tt, calls + 1);
}

abbrev next_id : ℕ → String × ℕ
next_id calls = ("channel", calls)

abbrev clock_of : ℕ → ℤ
clock_of calls = pos (3_600_000_000_000 * calls)

-- The account "work" has no service.
abbrev google : ChannelWatcher ℕ
google = new_google_watcher next_id clock_of (("home", home_service) ∷ [])

missing_run :
    google.stop (channel_of "work" "w" 0) 5 ≡ (err (no_service next_id clock_of "work"), 5)
unfolding new_google_watcher stop Dict.lookup string_eq
missing_run = refl

google_run :
    (ch : Channel) × (google.watch "home" "h" "url" "secret" (pos 600_000_000_000) 1 ≡ (ok ch, 2))
unfolding new_google_watcher watch watch_with note_answer Dict.lookup string_eq
google_run = (_, refl)

keys_differ : key "home" "h" ≢ key "work" "w"
unfolding key
keys_differ same = let e = ap (λ (s : String). Text.◌==◌ s "home|h") same in absurd (true≢false e)
  where
    true≢false : ◌≢◌ {A = Bool} true false
    true≢false same = cc

calendars-Distinct : Distinct (home_calendar ∷ work_calendar ∷ [])
calendars-Distinct = (other, ((λ u here. elim here [ ]), tt))
  where
    other : (u : Target) → Memᴰ u (work_calendar ∷ []) → target_key home_calendar ≢ target_key u
    other u (Memᴰ.head p) =
        subst (λ (t : Target). target_key home_calendar ≢ target_key t) (sym p) keys_differ
    other u (Memᴰ.tail here) = elim here [ ]

run-IsClosed_example :
    IsClosed
      (run
        (λ l. clock_of l.world)
        (home_calendar ∷ work_calendar ∷ [])
        (map later ((λ calls. calls + 1) ∷ (λ calls. calls) ∷ []))
        (new_manager
          (counting (λ ch. true) google)
          "https://cb.example.com/webhook"
          "secret"
          (pos 600_000_000_000))
        (empty_ledger 0)).1
run-IsClosed_example =
    run-IsClosed (λ ch. true) google "https://cb.example.com/webhook" "secret" (pos 600_000_000_000)
      clock_of (home_calendar ∷ work_calendar ∷ []) ((λ calls. calls + 1) ∷ (λ calls. calls) ∷ []) 0
      calendars-Distinct
