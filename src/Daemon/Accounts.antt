-- ===== src/Daemon/Accounts.antt =====
-- What the status of the UI and the readiness of the metrics say after the poll loop of
-- cmd/calendar-bridge/main.go, against the passes that it has made.
use calendar_bridge.Base.{
  ℕ, ◌≡◌, refl, ap, ◌∙◌, String, Bool, false, ◌⊎◌, inl, inr, Option, none, some, List, [], ◌∷◌,
  Bool-cases, if◌then◌else◌,
}
use calendar_bridge.Base.Int.{ℤ, pos, leb_ℤ}
use calendar_bridge.Fault.{Fault}
use calendar_bridge.Metrics.{
  Registry, new_registry, note_error, note_healthy, note_failed, note_counts, observe,
}
use calendar_bridge.Metrics.Ready.{last_success, ready_since, readyz}
use calendar_bridge.Engine.Model.{Engine, SyncResult}
use calendar_bridge.Engine.Pass.{sync_once}
use calendar_bridge.Daemon.State
use calendar_bridge.Daemon.State.{
  SyncState, new_sync_state, mark_running, duration, note_pass, counted, accounts_of, shown, status,
}
use calendar_bridge.Daemon.Loop.{
  Wake, stop, push, tick, Process, pass_of, observed, note_result, one_pass, after_wait, run_loop,
}

-- The passes that were made, the latest first.
abbrev pub Passes : Type 0
Passes = List (SyncResult × Option Fault)

abbrev pub success_or : Option Fault → SyncResult → Option ℤ → Option ℤ
success_or none r earlier = some r.started
success_or (some e) r earlier = earlier

-- When the latest pass without an error began.
abbrev pub last_success_of : Passes → Option ℤ
last_success_of [] = none
last_success_of ((r, error) ∷ passes) = success_or error r (last_success_of passes)

abbrev pub latest : Passes → Option SyncResult
latest [] = none
latest ((r, error) ∷ passes) = some r

abbrev pub started_of : Option SyncResult → Option ℤ
started_of none = none
started_of (some r) = some r.started

-- The times in a registry.
abbrev times : Registry → Option ℤ × Option ℤ
times r = (r.last_success, r.last_pass)

note_failed-times :
    (accounts : List String) (r : Registry) → times (note_failed accounts r) ≡ times r
unfolding note_failed
note_failed-times [] r = refl
note_failed-times (a ∷ accounts) r = note_failed-times accounts _

note_healthy-times :
    (accounts : List String) (r : Registry) → times (note_healthy accounts r) ≡ times r
unfolding note_healthy
note_healthy-times [] r = refl
note_healthy-times (a ∷ accounts) r = note_healthy-times accounts _

times-eq :
    (r : Registry) (t : Option ℤ × Option ℤ)
    → times r ≡ t
    → (r.last_success ≡ t.0) × (r.last_pass ≡ t.1)
times-eq r t h = (ap (λ (x : Option ℤ × Option ℤ). x.0) h, ap (λ (x : Option ℤ × Option ℤ). x.1) h)

observe-times :
    (res : SyncResult) (error : Option Fault) (r : Registry)
    → times (observe (pass_of res error) r)
      ≡ (success_or error res r.last_success, some res.started)
unfolding observe note_counts note_error pass_of
observe-times res none r =
    note_failed-times res.failed_accounts _ ∙ note_healthy-times res.healthy_accounts _
observe-times res (some e) r =
    note_failed-times res.failed_accounts _ ∙ note_healthy-times res.healthy_accounts _

abbrev Measures : Passes → Option Registry → Type 0
Measures passes none = Unit {0}
Measures passes (some r) =
    (r.last_success ≡ last_success_of passes) × (r.last_pass ≡ started_of (latest passes))

Measures-observed :
    (passes : Passes) (res : SyncResult) (error : Option Fault) (o : Option Registry)
    → Measures passes o
    → Measures ((res, error) ∷ passes) (observed (pass_of res error) o)
Measures-observed passes res error none h = tt
Measures-observed passes res error (some r) (success, pass) =
    let (success', pass') =
      times-eq (observe (pass_of res error) r)
        (success_or error res r.last_success, some res.started) (observe-times res error r) in
    (success' ∙ ap (success_or error res) success, pass')

module _ (text : Fault → String) where
  abbrev pub error_of : Passes → String
  error_of [] = ""
  error_of ((r, none) ∷ passes) = ""
  error_of ((r, some e) ∷ passes) = text e

  -- The state of the process is that of these passes.
  record Remembers {W : Type 0} (passes : Passes) (p : Process W) : Type 0 where
    last_success : p.state.last_success ≡ last_success_of passes
    last_attempt : p.state.last_attempt ≡ started_of (latest passes)
    last : p.state.last ≡ latest passes
    last_err : p.state.last_err ≡ error_of passes
    registry : Measures passes p.registry

  note_result-Remembers :
      {W : Type 0} (now : W → ℤ) (passes : Passes) (res : SyncResult) (error : Option Fault) (w : W)
      (p : Process W)
      → Remembers passes p
      → Remembers ((res, error) ∷ passes) (note_result text now ((res, error), w) p)
  unfolding note_result note_pass State.note_error
  note_result-Remembers now passes res none w p h = record {
    last_success = refl;
    last_attempt = refl;
    last = refl;
    last_err = refl;
    registry = Measures-observed passes res none p.registry h.registry;
  }
  note_result-Remembers now passes res (some e) w p h = record {
    last_success = h.last_success;
    last_attempt = refl;
    last = refl;
    last_err = refl;
    registry = Measures-observed passes res (some e) p.registry h.registry;
  }

  -- What the UI and the readiness probe say of these passes, at this time.
  pub record Told {W : Type 0} (format : ℤ → String) (accounts : ℕ) (max_age time : ℤ)
      (passes : Passes) (p : Process W) : Type 0 where
    pub last_sync :
        (status format accounts p.state).last_sync ≡ shown format (last_success_of passes)
    pub last_attempt :
        (status format accounts p.state).last_attempt ≡ shown format (started_of (latest passes))
    pub last_error : (status format accounts p.state).last_error ≡ error_of passes
    pub account_status : (status format accounts p.state).accounts ≡ accounts_of (latest passes)
    pub created :
        (status format accounts p.state).created ≡ counted (λ r. r.created) (latest passes)
    pub updated :
        (status format accounts p.state).updated ≡ counted (λ r. r.updated) (latest passes)
    pub deleted :
        (status format accounts p.state).deleted ≡ counted (λ r. r.deleted) (latest passes)
    pub skipped :
        (status format accounts p.state).skipped ≡ counted (λ r. r.skipped) (latest passes)
    pub ready :
        (p.registry ≡ none)
        ⊎ ((r : Registry) × (p.registry ≡ some r)
            × (readyz max_age time r ≡ (
                if leb_ℤ max_age (pos 0)
                then (200, "ok")
                else ready_since max_age time (last_success_of passes))))

  Measures-readyz :
      (max_age time : ℤ) (passes : Passes) (o : Option Registry)
      → Measures passes o
      → (o ≡ none)
        ⊎ ((r : Registry) × (o ≡ some r)
            × (readyz max_age time r ≡ (
                if leb_ℤ max_age (pos 0)
                then (200, "ok")
                else ready_since max_age time (last_success_of passes))))
  unfolding readyz last_success
  Measures-readyz max_age time passes none h = inl refl
  Measures-readyz max_age time passes (some r) (success, pass) = inr (r, refl, simp success)

  Remembers-Told :
      {W : Type 0} (format : ℤ → String) (accounts : ℕ) (max_age time : ℤ) (passes : Passes)
      (p : Process W)
      → Remembers passes p
      → Told format accounts max_age time passes p
  unfolding status
  Remembers-Told format accounts max_age time passes p h = record {
    last_sync = ap (shown format) h.last_success;
    last_attempt = ap (shown format) h.last_attempt;
    last_error = h.last_err;
    account_status = ap accounts_of h.last;
    created = ap (counted (λ r. r.created)) h.last;
    updated = ap (counted (λ r. r.updated)) h.last;
    deleted = ap (counted (λ r. r.deleted)) h.last;
    skipped = ap (counted (λ r. r.skipped)) h.last;
    ready = Measures-readyz max_age time passes p.registry h.registry;
  }

-- The passes that the engine makes in a world one after another, each before any signal, and the world
-- after them.
pub data Ran {W : Type 0} (done : W → Bool) (engine : Engine W) (start : W)
    : Passes → W → Type 0 where
  none_yet : Ran done engine start [] start
  then_pass :
      (passes : Passes) (w : W)
      → Ran done engine start passes w
      → done w ≡ false
      → Ran done engine start ((sync_once engine w).0 ∷ passes) (sync_once engine w).1

module _ {W : Type 0} (text : Fault → String) (now : W → ℤ) (done : W → Bool) (engine : Engine W)
    (start : W) where
  -- The passes that have led to this process.
  abbrev After : Process W → Type 0
  After p = (passes : Passes) × Ran done engine start passes p.world × Remembers text passes p

  one_pass-After :
      (p : Process W) → done p.world ≡ false → After p → After (one_pass text now engine p)
  unfolding one_pass note_result
  one_pass-After p running (passes, ran, h) = (
    (sync_once engine p.world).0 ∷ passes,
    then_pass passes p.world ran running,
    note_result-Remembers text now passes (sync_once engine p.world).0.0
        (sync_once engine p.world).0.1 (sync_once engine p.world).1 p h,
  )

  after_wait-After :
      (wake : Wake) (p : Process W) (rest : Process W → Process W)
      → ((q : Process W) → After q → After (rest q))
      → After p
      → After (after_wait wake p rest)
  unfolding after_wait
  after_wait-After stop p rest keep h = h
  after_wait-After push p rest keep h = keep p h
  after_wait-After tick p rest keep h = keep p h

  run_loop-After :
      (wakes : List Wake) (p : Process W) → After p → After (run_loop text now done engine wakes p)
  unfolding run_loop
  run_loop-After [] p h = h
  run_loop-After (wake ∷ wakes) p h = elim (Bool-cases (done p.world)) [
    | inl over ↦ rw over h
    | inr running ↦ rw running (
        after_wait-After wake (one_pass text now engine p) (run_loop text now done engine wakes)
          (run_loop-After wakes) (one_pass-After p running h))
  ]

abbrev pub begin_registry : Option ℤ → Option Registry
begin_registry none = none
begin_registry (some t) = some (new_registry t)

-- The process before its first pass, with metrics since a time or without.
abbrev pub begin : {W : Type 0} → Bool → Option ℤ → W → Process W
begin push_enabled metrics w = record {
  state = mark_running (new_sync_state push_enabled);
  registry = begin_registry metrics;
  world = w;
}

begin_registry-Measures : (metrics : Option ℤ) → Measures [] (begin_registry metrics)
unfolding new_registry
begin_registry-Measures none = tt
begin_registry-Measures (some t) = (refl, refl)

begin-Remembers :
    {W : Type 0} (text : Fault → String) (push_enabled : Bool) (metrics : Option ℤ) (w : W)
    → Remembers text [] (begin push_enabled metrics w)
unfolding mark_running new_sync_state
begin-Remembers text push_enabled metrics w = record {
  last_success = refl;
  last_attempt = refl;
  last = refl;
  last_err = refl;
  registry = begin_registry-Measures metrics;
}

-- Whatever ends the waits of the poll loop, it has made some passes of the engine one after another, each
-- before a signal, and the UI and the readiness probe tell the truth of them: the status has the
-- beginning of the latest pass without an error and of the latest pass, the error of the latest pass or
-- none, and the latest pass's accounts and counts; and /readyz, where the metrics are on, answers by
-- the age of the latest pass without an error.
pub run_loop-Told :
    {W : Type 0} (text : Fault → String) (now : W → ℤ) (done : W → Bool) (engine : Engine W)
    (format : ℤ → String) (accounts : ℕ) (max_age time : ℤ) (push_enabled : Bool)
    (metrics : Option ℤ) (w : W) (wakes : List Wake)
    → (passes : Passes) × Ran done engine w passes
        (run_loop text now done engine wakes (begin push_enabled metrics w)).world
      × Told text format accounts max_age time passes
          (run_loop text now done engine wakes (begin push_enabled metrics w))
run_loop-Told text now done engine format accounts max_age time push_enabled metrics w wakes =
    let (passes, ran, h) =
      run_loop-After text now done engine w wakes (begin push_enabled metrics w)
        ([], none_yet, begin-Remembers text push_enabled metrics w) in
    (passes, ran, Remembers-Told text format accounts max_age time passes _ h)
