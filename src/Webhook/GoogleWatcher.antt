-- ===== src/Webhook/GoogleWatcher.antt =====
-- `googleWatcher` of internal/webhook/google_watcher.go, over the calls that it makes on the Calendar
-- API of each account. The context of a call has a deadline, which is part of the API.
use calendar_bridge.Base.{◌+◌, ◌*◌, ◌/◌, String, ◌<>◌, Bool, not, ◌&&◌, none, some, if◌then◌else◌}
use calendar_bridge.Base.Int.{ℤ, pos, negsuc, ◌+ℤ◌, ltb_ℤ}
use calendar_bridge.Base.Dict
use calendar_bridge.Base.Dict.{Dict}
use calendar_bridge.Fault.{Fault, message, wrapped}
use calendar_bridge.Effect.{Result, ok, err, M, fail}
use calendar_bridge.Webhook.Manager.{Channel, ChannelWatcher}

-- What is set of `*calendar.Channel` in a request; an expiration of 0 is none.
pub record WatchCall : Type 0 where
  pub id : String
  pub kind : String
  pub address : String
  pub token : String
  pub expiration : ℤ

pub record WatchAnswer : Type 0 where
  pub id : String
  pub resource_id : String
  pub expiration : ℤ

-- The calls of google.golang.org/api/calendar/v3 on the channels of an account.
pub record ChannelsApi (W : Type 0) : Type 0 where
  pub watch : String → WatchCall → M W WatchAnswer
  -- The id and the resource of the channel.
  pub stop : String → String → M W (Unit {0})

-- `time.Time.UnixMilli`, which rounds down, and `time.UnixMilli`.
unfoldable pub unix_milli : ℤ → ℤ
unix_milli (pos n) = pos (n / 1_000_000)
unix_milli (negsuc n) = negsuc (n / 1_000_000)

unfoldable pub of_milli : ℤ → ℤ
of_milli (pos n) = pos (n * 1_000_000)
of_milli (negsuc n) = negsuc (n * 1_000_000 + 999_999)

unfoldable pub is_zero : ℤ → Bool
is_zero t = not (ltb_ℤ t (pos 0)) && not (ltb_ℤ (pos 0) t)

unfoldable pub watch_call : String → String → String → ℤ → ℤ → WatchCall
watch_call id callback_url token ttl now = record {
  id = id;
  kind = "web_hook";
  address = callback_url;
  token = token;
  expiration = if ltb_ℤ (pos 0) ttl then unix_milli (now +ℤ ttl) else pos 0;
}

-- The channel of an answer that came at this time.
unfoldable pub channel_of : String → String → ℤ → ℤ → WatchAnswer → Channel
channel_of account calendar_id ttl now res = record {
  id = res.id;
  resource_id = res.resource_id;
  account = account;
  calendar_id = calendar_id;
  expiry = if is_zero res.expiration then now +ℤ ttl else of_milli res.expiration;
}

-- Package uuid makes the ids, and `time_of` reads the clock.
module _ {W : Type 0} (new_id : W → String × W) (time_of : W → ℤ) where
  unfoldable pub note_answer : String → String → ℤ → Result WatchAnswer × W → Result Channel × W
  note_answer account calendar_id ttl (err e, w) =
      (err (wrapped ("events.watch on " <> account <> "/" <> calendar_id) e), w)
  note_answer account calendar_id ttl (ok res, w) =
      (ok (channel_of account calendar_id ttl (time_of w) res), w)

  unfoldable pub watch_with : ChannelsApi W → String → String → String → String → ℤ → M W Channel
  watch_with svc account calendar_id callback_url token ttl w =
      let (id, w') = new_id w in
      note_answer account calendar_id ttl
        (svc.watch calendar_id (watch_call id callback_url token ttl (time_of w')) w')

  -- An account that has no service.
  abbrev pub no_service : String → Fault
  no_service account = message ("no calendar service for account " <> account)

  unfoldable pub watch : Dict (ChannelsApi W) → String → String → String → String → ℤ → M W Channel
  watch services account calendar_id callback_url token ttl = elim (Dict.lookup account services) [
    | none ↦ fail (no_service account)
    | some svc ↦ watch_with svc account calendar_id callback_url token ttl
  ]

  unfoldable pub stop : Dict (ChannelsApi W) → Channel → M W (Unit {0})
  stop services ch = elim (Dict.lookup ch.account services) [
    | none ↦ fail (no_service ch.account)
    | some svc ↦ svc.stop ch.id ch.resource_id
  ]

  -- `NewGoogleWatcher`
  unfoldable pub new_google_watcher : Dict (ChannelsApi W) → ChannelWatcher W
  new_google_watcher services = record { watch = watch services; stop = stop services }
