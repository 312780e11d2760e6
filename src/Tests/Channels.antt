-- ===== src/Tests/Channels.antt =====
-- Renewals of internal/webhook/manager.go at a service that numbers its channels.
use mathlib.Core.List.{Memᴰ}
use mathlib.Core.Path.{subst}
use calendar_bridge.Base.{
  ℕ, ◌+◌, ◌<◌, ◌≡◌, ◌≢◌, refl, sym, ap, ◌∙◌, String, List, [], ◌∷◌, some, string_eq, arith,
}
use calendar_bridge.Base.Int.{pos, ◌+ℤ◌}
use calendar_bridge.Base.Dict
use calendar_bridge.Base.Dict.{Dict}
use calendar_bridge.Effect.{Result, ok, err}
use calendar_bridge.Webhook.Manager.{
  Channel, ChannelWatcher, Manager, key, note_channel, register, stop_old, after_register,
  needs_renew, renew_target, renew_expiring,
}
use calendar_bridge.Webhook.Held.{Provides, Holds, Has, renew_expiring-Holds}
use calendar_bridge.Tests.Nudges.{channel_of, home_calendar, work_calendar}

-- The number of the channels, and those that were stopped since the last of them.
record Service : Type 0 where
  calls : ℕ
  stopped : List Channel

abbrev watcher : ChannelWatcher Service
watcher = record {
  watch = λ account calendar url token ttl s.
      (ok (channel_of account calendar s.calls), record { calls = s.calls + 1; stopped = [] });
  stop = λ ch s. (ok tt, record s { stopped = ch ∷ s.stopped });
}

-- The service has given this channel, and it was not stopped.
record Live (ch : Channel) (s : Service) : Type 0 where
  number : ℕ
  given : number < s.calls
  numbered : ch.expiry ≡ pos (86_400_000_000_000 + number)
  going : ¬ Memᴰ ch s.stopped

pos-injective : (a b : ℕ) → pos a ≡ pos b → a ≡ b
pos-injective a b same = cc

no_stopped : (ch : Channel) → ¬ Memᴰ ch []
no_stopped ch here = elim here [ ]

provides : Provides Live watcher
provides = record {
  gives_live = λ account calendar url token ttl s ch s' call.
      subst (λ (r : Result Channel × Service). GivenLive r) call
        (record { number = s.calls; given = omega arith; numbered = refl; going = no_stopped _ });
  gives_new = λ account calendar url token ttl s ch s' call d lives same.
      too_late account calendar s d lives (same ∙ sym (given_is account calendar s ch s' call));
  watch_ends_none = λ account calendar url token ttl s d lives. record {
    number = lives.number;
    given = let below = lives.given in omega arith;
    numbered = lives.numbered;
    going = no_stopped d;
  };
  stop_ends_no_other = λ ch d s other lives. record {
    number = lives.number;
    given = lives.given;
    numbered = lives.numbered;
    going = still_going ch d s other lives.going;
  };
}
  where
    GivenLive : Result Channel × Service → Type 0
    GivenLive (ok ch, s) = Live ch s
    GivenLive (err e, s) = Unit

    ok-eq : (c d : Channel) → ◌≡◌ {A = Result Channel} (ok c) (ok d) → c ≡ d
    ok-eq c d same = cc

    given_is :
        (account calendar : String) (s : Service) (ch : Channel) (s' : Service)
        → ◌≡◌ {A = Result Channel × Service}
            (ok (channel_of account calendar s.calls), record { calls = s.calls + 1; stopped = [] })
            (ok ch, s')
        → channel_of account calendar s.calls ≡ ch
    given_is account calendar s ch s' call =
        ok-eq _ ch (ap (λ (r : Result Channel × Service). r.0) call)

    too_late :
        (account calendar : String) (s : Service) (d : Channel)
        → Live d s
        → d ≢ channel_of account calendar s.calls
    too_late account calendar s d lives same =
        let number = pos-injective _ _ (sym lives.numbered ∙ ap (λ (c : Channel). c.expiry) same) in
        let below = lives.given in omega arith

    still_going :
        (ch d : Channel) (s : Service) → d ≢ ch → ¬ Memᴰ d s.stopped → ¬ Memᴰ d (ch ∷ s.stopped)
    still_going ch d s other going (Memᴰ.head p) = other p
    still_going ch d s other going (Memᴰ.tail here) = going here

abbrev manager : Manager Service
manager = record {
  watcher = watcher;
  callback_url = "https://cb.example.com/webhook";
  token = "secret";
  ttl = pos 600_000_000_000;
  renew_skew = pos 60_000_000_000;
  channels = ("home|h", channel_of "home" "h" 0) ∷ [];
}

abbrev service : Service
service = record { calls = 1; stopped = [] }

held_one :
    (k : String) (ch : Channel)
    → Dict.lookup k manager.channels ≡ some ch
    → (k ≡ "home|h") × (channel_of "home" "h" 0 ≡ ch)
unfolding Dict.lookup
held_one k ch found = elim (string_eq.dec "home|h" k) [
  | yes same ↦ (sym same, ground arith)
  | no other ↦ ground arith
]

manager-Holds : Holds Live manager service
manager-Holds = record {
  all_live = λ k ch found.
      subst (λ (c : Channel). Live c service) (held_one k ch found).1
        (record { number = 0; given = omega arith; numbered = refl; going = no_stopped _ });
  one_key = λ k j ch at_k at_j. (held_one k ch at_k).0 ∙ sym (held_one j ch at_j).0;
}

-- A second before its channel ends, the first calendar gets another, and the old one is stopped.
abbrev renewed : Manager Service × Service
renewed =
    renew_expiring (pos 86_399_000_000_000) (home_calendar ∷ work_calendar ∷ []) manager service

renewed_run : renewed.1.calls ≡ 3
unfolding renew_expiring renew_target needs_renew register note_channel after_register stop_old key
    Dict.lookup Dict.insert string_eq ◌+ℤ◌
renewed_run = refl

renew_expiring-Holds_example :
    Holds Live renewed.0 renewed.1 × ((k : String) → Has k manager → Has k renewed.0)
renew_expiring-Holds_example =
    renew_expiring-Holds Live (pos 86_399_000_000_000) (home_calendar ∷ work_calendar ∷ []) manager
      service provides manager-Holds
