-- ===== src/Metrics/Ready.antt =====
-- The answers of /healthz and /readyz in `Handler` of internal/metrics/metrics.go.
use calendar_bridge.Base.{ℕ, String, Option, none, some, if◌then◌else◌}
use calendar_bridge.Base.Int.{ℤ, pos, ◌-ℤ◌, leb_ℤ, ltb_ℤ}
use calendar_bridge.Metrics.{Registry}

-- `LastSuccess`
unfoldable pub last_success : Registry → Option ℤ
last_success r = r.last_success

-- The status code and the text, without the numbers in it.
abbrev pub healthz : ℕ × String
healthz = (200, "ok")

unfoldable pub ready_since : ℤ → ℤ → Option ℤ → ℕ × String
ready_since max_age now none = (503, "no successful sync pass yet")
ready_since max_age now (some last) =
    if ltb_ℤ max_age (now -ℤ last)
    then (503, "last successful sync is over the threshold")
    else (200, "ok")

-- The handler of /readyz, with the option `ReadyMaxAge` and at this time.
unfoldable pub readyz : ℤ → ℤ → Registry → ℕ × String
readyz max_age now r =
    if leb_ℤ max_age (pos 0) then (200, "ok") else ready_since max_age now (last_success r)
