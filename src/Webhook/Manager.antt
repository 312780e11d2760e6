-- ===== src/Webhook/Manager.antt =====
-- `Manager` of internal/webhook/manager.go, over a watcher that registers and stops channels. Logging
-- is left out. A tick of `Run` is given by what has happened to the world since the one before.
use calendar_bridge.Base.{
  ◌/◌, String, ◌<>◌, Bool, true, not, Option, none, some, List, [], ◌∷◌, map, ltb, if◌then◌else◌,
}
use calendar_bridge.Base.Int.{ℤ, pos, pos_part, ◌+ℤ◌, ltb_ℤ}
use calendar_bridge.Base.Dict
use calendar_bridge.Base.Dict.{Dict}
use calendar_bridge.Fault.{Fault, wrapped}
use calendar_bridge.Effect.{Result, ok, err, M}

pub record Channel : Type 0 where
  pub id : String
  pub resource_id : String
  pub account : String
  pub calendar_id : String
  pub expiry : ℤ

pub record Target : Type 0 where
  pub account : String
  pub calendar_id : String

-- `ChannelWatcher`
pub record ChannelWatcher (W : Type 0) : Type 0 where
  -- account, calendar, callback URL, token, ttl
  pub watch : String → String → String → String → ℤ → M W Channel
  pub stop : Channel → M W (Unit {0})

pub record Manager (W : Type 0) : Type 0 where
  pub watcher : ChannelWatcher W
  pub callback_url : String
  pub token : String
  pub ttl : ℤ
  pub renew_skew : ℤ
  pub channels : Dict Channel

-- `ttl / 10` truncates towards zero, and a negative quotient is below a minute as well.
unfoldable pub skew_of : ℤ → ℤ
skew_of ttl =
    let skew = pos_part ttl / 10 in if ltb skew 60_000_000_000 then pos 60_000_000_000 else pos skew

unfoldable pub new_manager : {W : Type 0} → ChannelWatcher W → String → String → ℤ → Manager W
new_manager watcher callback_url token ttl = record {
  watcher = watcher;
  callback_url = callback_url;
  token = token;
  ttl = ttl;
  renew_skew = skew_of ttl;
  channels = [];
}

unfoldable pub key : String → String → String
key account calendar_id = account <> "|" <> calendar_id

module _ {W : Type 0} where
  -- What `register` makes of the answer of the watcher.
  unfoldable pub note_channel : Manager W → Target → Result Channel → Option Fault × Manager W
  note_channel m t (err e) = (some (wrapped ("watch " <> t.account <> "/" <> t.calendar_id) e), m)
  note_channel m t (ok ch) =
      (none, record m { channels = Dict.insert (key t.account t.calendar_id) ch m.channels })

  unfoldable pub register : Manager W → Target → W → (Option Fault × Manager W) × W
  register m t w =
      let (r, w') = m.watcher.watch t.account t.calendar_id m.callback_url m.token m.ttl w in
      (note_channel m t r, w')

  -- The first loop of `Run`: an error is only logged.
  unfoldable pub register_all : List Target → Manager W → W → Manager W × W
  register_all [] m w = (m, w)
  register_all (t ∷ targets) m w = let (r, w') = register m t w in register_all targets r.1 w'

  -- Stopping the old channel, if there was one; an error is only logged.
  unfoldable pub stop_old : Manager W → Option Channel → W → W
  stop_old m none w = w
  stop_old m (some ch) w = (m.watcher.stop ch w).1

  unfoldable pub after_register : Option Channel → (Option Fault × Manager W) × W → Manager W × W
  after_register old ((some e, m), w) = (m, w)
  after_register old ((none, m), w) = (m, stop_old m old w)

  unfoldable pub needs_renew : ℤ → Manager W → Option Channel → Bool
  needs_renew now m none = true
  needs_renew now m (some ch) = ltb_ℤ ch.expiry (now +ℤ m.renew_skew)

  unfoldable pub renew_target : ℤ → Target → Manager W → W → Manager W × W
  renew_target now t m w =
      let old = Dict.lookup (key t.account t.calendar_id) m.channels in
      if not (needs_renew now m old) then (m, w) else after_register old (register m t w)

  -- The loop of `renewExpiring`; `now` was read before it.
  unfoldable pub renew_expiring : ℤ → List Target → Manager W → W → Manager W × W
  renew_expiring now [] m w = (m, w)
  renew_expiring now (t ∷ targets) m w =
      let (m', w') = renew_target now t m w in renew_expiring now targets m' w'

  -- The loop of `stopAll`.
  unfoldable pub stop_channels : ChannelWatcher W → List Channel → W → W
  stop_channels watcher [] w = w
  stop_channels watcher (ch ∷ channels) w = stop_channels watcher channels (watcher.stop ch w).1

  unfoldable pub stop_all : Manager W → W → Manager W × W
  stop_all m w =
      (record m { channels = [] }, stop_channels m.watcher (map (λ entry. entry.1) m.channels) w)

  -- The renewals of `Run`, one at each tick; `time_of` reads the clock.
  unfoldable pub renew_at : (W → ℤ) → List Target → List (W → W) → Manager W → W → Manager W × W
  renew_at time_of targets [] m w = (m, w)
  renew_at time_of targets (tick ∷ ticks) m w =
      let (m', w') = renew_expiring (time_of (tick w)) targets m (tick w) in
      renew_at time_of targets ticks m' w'

  -- `Run`, with the ticks before the context is done.
  unfoldable pub run : (W → ℤ) → List Target → List (W → W) → Manager W → W → Manager W × W
  run time_of targets ticks m w =
      let (m', w') = register_all targets m w in
      let (m'', w'') = renew_at time_of targets ticks m' w' in stop_all m'' w''
