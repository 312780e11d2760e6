-- ===== src/Daemon/State.antt =====
-- `syncState` of cmd/calendar-bridge/state.go: what the process remembers of the last pass. Zero times
-- and the result `sync.Result{}` of a pass that did not begin are `none`.
use calendar_bridge.Base.{
  ℕ, ◌+◌, ◌/◌, String, Bool, true, false, Option, none, some, List, [], ◌++◌, map,
}
use calendar_bridge.Base.Int.{ℤ, pos, negsuc, ◌-ℤ◌}
use calendar_bridge.Fault.{Fault}
use calendar_bridge.Engine.Model.{SyncResult}
use calendar_bridge.WebUi.Http.{AccountStatus, Status}

pub record SyncState : Type 0 where
  pub started : Bool
  pub last_attempt : Option ℤ
  pub last_success : Option ℤ
  pub last_success_dur : ℤ
  pub last_err : String
  pub last : Option SyncResult
  pub push_enabled : Bool

unfoldable pub new_sync_state : Bool → SyncState
new_sync_state push_enabled = record {
  started = false;
  last_attempt = none;
  last_success = none;
  last_success_dur = pos 0;
  last_err = "";
  last = none;
  push_enabled = push_enabled;
}

unfoldable pub mark_running : SyncState → SyncState
mark_running s = record s { started = true }

-- `Result.Duration`, in range.
unfoldable pub duration : SyncResult → ℤ
duration r = r.finished -ℤ r.started

abbrev pub duration_of : Option SyncResult → ℤ
duration_of none = pos 0
duration_of (some r) = duration r

-- When the pass began: the time of its result, or now.
abbrev pub attempt_of : Option SyncResult → ℤ → ℤ
attempt_of none now = now
attempt_of (some r) now = r.started

abbrev note_attempt : Option SyncResult → ℤ → SyncState → SyncState
note_attempt none now s = record s { last_attempt = some now }
note_attempt (some r) now s = record s { last_attempt = some r.started; last = some r }

-- `record`, at this time; `text` is the text of an error.
module _ (text : Fault → String) where
  unfoldable pub note_error : Option SyncResult → Option Fault → SyncState → SyncState
  note_error res (some e) s = record s { last_err = text e }
  note_error res none s = record s {
    last_err = "";
    last_success = s.last_attempt;
    last_success_dur = duration_of res;
  }

  unfoldable pub note_pass : Option SyncResult → Option Fault → ℤ → SyncState → SyncState
  note_pass res error now s = note_error res error (note_attempt res now s)

-- The quotient of `Milliseconds`, which truncates towards zero.
abbrev milliseconds : ℤ → ℤ
milliseconds (pos n) = pos (n / 1_000_000)
milliseconds (negsuc n) = pos 0 -ℤ pos ((1 + n) / 1_000_000)

abbrev pub counted : (SyncResult → ℕ) → Option SyncResult → ℕ
counted field none = 0
counted field (some r) = field r

abbrev pub health : Bool → List String → List AccountStatus
health healthy names = map (λ name. record { name = name; healthy = healthy }) names

abbrev pub accounts_of : Option SyncResult → List AccountStatus
accounts_of none = []
accounts_of (some r) = health true r.healthy_accounts ++ health false r.failed_accounts

-- `Format(time.RFC3339)` of a time that is not zero.
abbrev pub shown : (ℤ → String) → Option ℤ → String
shown format none = ""
shown format (some t) = format t

abbrev duration_shown : Option ℤ → ℤ → ℤ
duration_shown none d = pos 0
duration_shown (some t) d = milliseconds d

-- `status`
unfoldable pub status : (ℤ → String) → ℕ → SyncState → Status
status format accounts s = record {
  running = s.started;
  last_sync = shown format s.last_success;
  last_attempt = shown format s.last_attempt;
  last_duration_ms = duration_shown s.last_success s.last_success_dur;
  last_error = s.last_err;
  accounts_num = accounts;
  accounts = accounts_of s.last;
  created = counted (λ r. r.created) s.last;
  updated = counted (λ r. r.updated) s.last;
  deleted = counted (λ r. r.deleted) s.last;
  skipped = counted (λ r. r.skipped) s.last;
  push_enabled = s.push_enabled;
}
