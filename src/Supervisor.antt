-- ===== src/Supervisor.antt =====
-- The state of one configuration's KMonad process in internal/manager/service.go, with the phases and
-- the back-off of internal/manager/supervisor.go. Logging is not modelled. What a call does to the
-- operating system is a list of effects; times are nanoseconds, with 0 for the zero time.
mod Process
mod Start
mod Reconcile
mod Backoff
mod Output
mod LastGood
mod Allowed
mod Started
mod Launched
mod Phases
mod Watchdog
mod Sweep
mod Tests
use kmonad_device_manager.Prelude.{
  ℕ, suc, ◌+◌, ◌-◌, ◌*◌, ◌/◌, ◌%◌, ◌^◌, Bool, true, false, ◌&&◌, Option, none, some, List, [], ◌∷◌,
  ◌++◌, Text, ltb, ◌==◌, if◌then◌else◌,
}
use kmonad_device_manager.Prelude.Dict.{Dict}

pub data ConfigPhase : Type 0 where
  phase_discovered phase_validating phase_waiting phase_running : ConfigPhase
  phase_failed phase_duplicate phase_stopped : ConfigPhase

abbrev pub same_phase : ConfigPhase → ConfigPhase → Bool
same_phase phase_discovered phase_discovered = true
same_phase phase_validating phase_validating = true
same_phase phase_waiting phase_waiting = true
same_phase phase_running phase_running = true
same_phase phase_failed phase_failed = true
same_phase phase_duplicate phase_duplicate = true
same_phase phase_stopped phase_stopped = true
same_phase _ _ = false

-- `validPhaseTransitions`
abbrev pub is_valid_transition : ConfigPhase → ConfigPhase → Bool
is_valid_transition phase_discovered phase_validating = true
is_valid_transition phase_discovered phase_duplicate = true
is_valid_transition phase_discovered phase_stopped = true
is_valid_transition phase_validating phase_running = true
is_valid_transition phase_validating phase_failed = true
is_valid_transition phase_validating phase_waiting = true
is_valid_transition phase_validating phase_stopped = true
is_valid_transition phase_waiting phase_validating = true
is_valid_transition phase_waiting phase_stopped = true
is_valid_transition phase_running phase_failed = true
is_valid_transition phase_running phase_stopped = true
is_valid_transition phase_failed phase_waiting = true
is_valid_transition phase_failed phase_validating = true
is_valid_transition phase_failed phase_stopped = true
is_valid_transition phase_duplicate phase_stopped = true
is_valid_transition phase_duplicate phase_validating = true
is_valid_transition phase_stopped phase_validating = true
is_valid_transition _ _ = false

-- The fields of `processState` that are read after a start. The child's handle is its `pid`.
pub record ProcessState : Type 0 where
  pub pid : ℕ
  pub start_tick : ℕ
  pub started_at : ℕ
  pub launch_path : Text
  pub cgroup_path : Text
  pub unhealthy_since : ℕ

pub record ConfigState : Type 0 where
  pub phase : ConfigPhase
  pub signature : Text
  pub device_id : Text
  pub failures : ℕ
  pub retry_after : ℕ
  pub process : Option ProcessState
  pub pending_signature : Text
  pub failure_reason : Text
  pub last_known_good_signature : Text

-- `configState` as `reconcile` makes it.
abbrev pub new_config_state : ConfigState
new_config_state = record {
  phase = phase_discovered;
  signature = [];
  device_id = [];
  failures = 0;
  retry_after = 0;
  process = none;
  pending_signature = [];
  failure_reason = [];
  last_known_good_signature = [];
}

pub record ValidatedConfig : Type 0 where
  pub device : Text
  pub signature : Text
  pub launch_path : Text

-- What the supervisor does to the operating system, and the report of a healthy process to the
-- managed store (`confirmManagedConfigurationActive`).
pub data Effect : Type 0 where
  snapshot_created snapshot_removed cgroup_removed : (path : Text) → Effect
  launched : (path : Text) → (pid : ℕ) → Effect
  terminated killed group_killed handle_closed : (pid : ℕ) → Effect
  confirmed_active : Effect

-- One configuration with the counters and the prevalidated configurations of `manager`, and what was
-- done so far, newest last.
pub record Worker : Type 0 where
  pub state : ConfigState
  pub prevalidated : Dict Text ValidatedConfig
  pub starts : ℕ
  pub failures : ℕ
  pub stops : ℕ
  pub effects : List Effect

abbrev pub perform : List Effect → Worker → Worker
perform effects w = record w { effects = w.effects ++ effects }

-- `Add(1)` on a uint64 counter.
abbrev pub count_up : ℕ → ℕ
count_up n = (n + 1) % 2 ^ 64

-- An invalid transition leaves the phase as it is.
unfoldable pub transition_phase : ConfigPhase → ConfigState → Bool × ConfigState
transition_phase next state =
    if same_phase state.phase next
    then (true, state)
    else if is_valid_transition state.phase next
    then (true, record state { phase = next })
    else (false, state)

abbrev pub second : ℕ
second = 10 ^ 9

unfoldable pub retry_base : ℕ → ℕ
retry_base failures =
    if ltb 0 failures && ltb failures 6 then 2 ^ failures * second else 60 * second

module _ (int63n : ℕ → ℕ) where
  -- `retryJitter`, with the random number generator as a parameter.
  unfoldable pub retry_jitter : ℕ → ℕ
  retry_jitter max = if max == 0 then 0 else int63n (max + 1)

  unfoldable pub retry_delay : ℕ → ℕ
  retry_delay failures =
      let base = retry_base failures in
      let jitter_range = base / 4 in
      if jitter_range == 0 then base else base - jitter_range / 2 + retry_jitter jitter_range

  unfoldable pub schedule_retry : ℕ → Text → ConfigState → ConfigState
  schedule_retry now reason state =
      (transition_phase phase_failed (record state {
        failures = state.failures + 1;
        failure_reason = reason;
        retry_after = now + retry_delay (state.failures + 1);
      })).1
