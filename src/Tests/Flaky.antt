-- ===== src/Tests/Flaky.antt =====
-- A calendar server whose answers get lost, for the tests of internal/sync/retry.go and
-- retrying_client.go. It holds the blocks of one source event on one calendar.
use calendar_bridge.Base.{ℕ, zero, suc, ◌+◌, ◌-◌, Option, none, some, [], eqb, if◌then◌else◌}
use calendar_bridge.Base.Int.{pos}
use calendar_bridge.Fault.{api, deadline_exceeded}
use calendar_bridge.Effect.{Result, ok, err}
use calendar_bridge.Calendar.{GoogleEvent, zero_event, private}
use calendar_bridge.Client.{CalendarClient}
use calendar_bridge.Provider.Neutral.{Ownership}
use calendar_bridge.Provider.Mapping.{ownership_tags}
use calendar_bridge.Retry.{RetryPolicy, Runtime}

-- `busy` answers of 503, then `lost` answers that time out after the work was done.
pub record Flaky : Type 0 where
  pub busy : ℕ
  pub lost : ℕ
  pub blocks : ℕ
  pub slept : ℕ

abbrev pub answer : ℕ → ℕ → Flaky → Result (Option GoogleEvent) × Flaky
answer (suc busy) lost s = (err (api 503), record s { busy = busy })
answer zero (suc lost) s = (err deadline_exceeded, record s { lost = lost; blocks = s.blocks + 1 })
answer zero zero s = (ok (some zero_event), record s { blocks = s.blocks + 1 })

abbrev pub remove : ℕ → ℕ → Flaky → Result (Unit {0}) × Flaky
remove lost (suc blocks) s =
    if eqb lost 0
    then (ok tt, record s { blocks = 0 })
    else (err deadline_exceeded, record s { lost = 0; blocks = 0 })
remove lost zero s = (err (api 410), s)

abbrev pub flaky : CalendarClient Flaky
flaky = record {
  list_events = λ calendar from to s. (ok [], s);
  find_block_by_source =
      λ calendar account event s. (ok (if eqb s.blocks 0 then none else some zero_event), s);
  get_event = λ calendar event s. (ok none, s);
  insert_event = λ calendar ev s. answer s.busy s.lost s;
  update_event = λ calendar event ev tag s. (ok none, s);
  delete_event = λ calendar event tag s. remove s.lost s.blocks s;
}

-- One less than the ceiling is drawn, and nobody cancels.
abbrev pub patient : Runtime Flaky
patient = record {
  ctx_err = λ s. none;
  jitter = λ ceiling s. (ceiling - 1, s);
  sleep = λ d s. (none, record s { slept = s.slept + d });
}

abbrev pub policy : RetryPolicy
policy = record { max_attempts = pos 4; base_backoff = pos 8; max_backoff = pos 20 }

abbrev pub owner : Ownership
owner = record {
  owner = "calendar-bridge";
  source_account = "home";
  source_calendar_id = "primary";
  source_event_id = "e1";
}

abbrev pub payload : GoogleEvent
payload = record zero_event { extended_properties = private (ownership_tags owner) }

abbrev pub flaky_at : ℕ → ℕ → Flaky
flaky_at busy lost = record { busy = busy; lost = lost; blocks = 0; slept = 0 }
