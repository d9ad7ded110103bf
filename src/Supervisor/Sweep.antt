-- ===== src/Supervisor/Sweep.antt =====
-- A whole pass of `reconcile` in internal/manager/supervisor.go over all configurations, the stop of
-- everything and the shutdown. The refreshes at its head and the publication at its end are not
-- here. What the host reports of each file, device and process in this pass is an argument.
mod Frame
mod Claims
mod Exclusive
mod Listed
mod Clash
mod Shutdown
mod Tests
use kmonad_device_manager.Prelude.{
  ℕ, zero, suc, ◌+◌, Bool, true, false, not, ◌||◌, Option, none, some, List, [], ◌∷◌, ◌++◌, Text,
  Text-eq, text_eq, ltb, if◌then◌else◌, is_some, map,
}
use kmonad_device_manager.Prelude.Dict.{Dict, lookup, insert, delete}
use kmonad_device_manager.Supervisor.{
  ConfigState, ValidatedConfig, Worker, Effect, snapshot_removed, new_config_state, count_up,
  transition_phase, phase_duplicate,
}
use kmonad_device_manager.Supervisor.Process.{Observation, stop_process, to_stopped}
use kmonad_device_manager.Supervisor.Start.{
  ValidationError, config_changed, disappeared, refused, ReadResult, read, unread, ValidationInputs,
  HostInputs,
}
use kmonad_device_manager.Supervisor.Reconcile.{Pass, reconcile_config}

-- The fields of `manager` that a pass reads and writes for all its configurations.
pub record Fleet : Type 0 where
  pub states : Dict Text ConfigState
  pub duplicates : Dict Text Text
  pub prevalidated : Dict Text ValidatedConfig
  pub reconciles : ℕ
  pub starts : ℕ
  pub failures : ℕ
  pub stops : ℕ
  pub effects : List Effect

-- One configuration of the fleet at work, and what that leaves in the fleet.
abbrev pub worker_of : ConfigState → Fleet → Worker
worker_of state f = record {
  state = state;
  prevalidated = f.prevalidated;
  starts = f.starts;
  failures = f.failures;
  stops = f.stops;
  effects = f.effects;
}

abbrev pub counted : Worker → Fleet → Fleet
counted w f = record f {
  prevalidated = w.prevalidated;
  starts = w.starts;
  failures = w.failures;
  stops = w.stops;
  effects = w.effects;
}

abbrev pub put_back : Text → Worker → Fleet → Fleet
put_back config w f = record (counted w f) { states = insert config w.state f.states }

-- A configuration file as this pass finds it: whether other users may write it (`none` is an error),
-- its content, whether its device is ready, the device's identity (`none` is an error), and the
-- answers for a start.
pub record Visit : Type 0 where
  pub config : Text
  pub writable : Option Bool
  pub file : ReadResult
  pub is_ready : Bool
  pub identity : Option Text
  pub exit : Option (Option Text)
  pub validation : ValidationInputs
  pub host : HostInputs

-- What is the same for the whole pass: the clock, `maxConfigs`, the processes as they are observed,
-- and the devices of a running identification and of a running input probe.
pub record Round : Type 0 where
  pub now : ℕ
  pub max_configs : ℕ
  pub observe : Text → Observation
  pub identifying : Option Text
  pub probing : Option Text

abbrev pub is_on : Option Text → Text → Bool
is_on none device = false
is_on (some busy) device = text_eq busy device

-- `activeDevices`
abbrev pub Claims : Type 0
Claims = Dict Text Text

abbrev pub pass_of : Round → Visit → Text → Text → Pass
pass_of round v signature identity = record {
  config = v.config;
  signature = signature;
  identity = identity;
  now = round.now;
  observed = round.observe v.config;
  exit = v.exit;
  validation = v.validation;
  host = v.host;
}

unfoldable pub stop_and_delete : Round → Text → Fleet → Fleet
stop_and_delete round config f = elim (lookup config f.states) [
  | none ↦ f
  | some state ↦
      let w = stop_process (round.observe config) (worker_of state f) in
      record (counted w f) { states = delete config f.states }
]

-- A configuration whose device a client identifies or probes is stopped, and kept.
unfoldable pub pause_config : Round → Text → Fleet → Fleet
pause_config round config f = elim (lookup config f.states) [
  | none ↦ f
  | some state ↦
      let w = stop_process (round.observe config) (worker_of state f) in
      put_back config (record w { state = to_stopped w.state }) f
]

abbrev pub duplicate_of : Option Text → Text → Bool
duplicate_of none identity = text_eq [] identity
duplicate_of (some known) identity = text_eq known identity

unfoldable pub note_duplicate : Text → Text → Fleet → Fleet
note_duplicate config identity f =
    let marked : Fleet = elim (lookup config f.states) [
      | none ↦ f
      | some state ↦ record f {
        states = insert config (transition_phase phase_duplicate state).1 f.states;
      }
    ] in
    if duplicate_of (lookup config f.duplicates) identity
    then marked
    else record marked { duplicates = insert config identity f.duplicates }

abbrev pub state_of : Option ConfigState → ConfigState
state_of none = new_config_state
state_of (some state) = state

module _ (int63n : ℕ → ℕ) (watchdog_timeout : ℕ) (round : Round) where
  -- A configuration that has its device for itself in this pass.
  unfoldable pub run_claimed : Visit → Text → Text → Fleet → Fleet
  run_claimed v signature identity f =
      let w =
        reconcile_config int63n watchdog_timeout (pass_of round v signature identity)
          (worker_of (state_of (lookup v.config f.states)) f) in
      put_back v.config w (record f { duplicates = delete v.config f.duplicates })

  unfoldable pub claim_device : Visit → Text → Text → Claims → Fleet → Claims × Fleet
  claim_device v signature identity active f =
      if is_on round.identifying identity || is_on round.probing identity
      then (active, pause_config round v.config f)
      else if is_some (lookup identity active)
      then (active, stop_and_delete round v.config (note_duplicate v.config identity f))
      else (insert identity v.config active, run_claimed v signature identity f)

  unfoldable pub read_device : Visit → Text → Claims → Fleet → Claims × Fleet
  read_device v signature active f =
      if not v.is_ready then (active, stop_and_delete round v.config f) else elim v.identity [
        | none ↦ (active, stop_and_delete round v.config f)
        | some identity ↦ claim_device v signature identity active f
      ]

  -- A file that changed while it was read is left for the next pass.
  unfoldable pub read_file : Visit → Claims → Fleet → Claims × Fleet
  read_file v active f = elim v.file [
    | unread e ↦ elim e [
      | config_changed ↦ (active, f)
      | disappeared _ ↦ (active, stop_and_delete round v.config f)
      | refused _ ↦ (active, stop_and_delete round v.config f)
    ]
    | read device signature ↦ read_device v signature active f
  ]

  -- The body of the loop; `count` is the number of configurations up to this one.
  unfoldable pub visit : ℕ → Visit → Claims → Fleet → Claims × Fleet
  visit count v active f =
      if ltb round.max_configs count
      then (active, stop_and_delete round v.config f)
      else elim v.writable [
        | none ↦ (active, stop_and_delete round v.config f)
        | some is_unsafe ↦
            if is_unsafe then (active, stop_and_delete round v.config f) else read_file v active f
      ]

  -- The loop, after `count` configurations.
  unfoldable pub visit_all : ℕ → List Visit → Claims → Fleet → Claims × Fleet
  visit_all count [] active f = (active, f)
  visit_all count (v ∷ vs) active f =
      let visited = visit (count + 1) v active f in visit_all (count + 1) vs visited.0 visited.1

-- `activeConfigs`
unfoldable pub is_listed : Text → List Visit → Bool
is_listed config [] = false
is_listed config (v ∷ vs) = if text_eq v.config config then true else is_listed config vs

-- The states whose file is gone are stopped and deleted, one after the other.
unfoldable pub drop_states : Round → List Visit → Dict Text ConfigState → Fleet → Fleet
drop_states round vs [] f = f
drop_states round vs ((config, state) ∷ rest) f =
    drop_states round vs rest (if is_listed config vs then f else stop_and_delete round config f)

unfoldable pub drop_duplicates : List Visit → Dict Text Text → Dict Text Text → Dict Text Text
drop_duplicates vs [] duplicates = duplicates
drop_duplicates vs ((config, device) ∷ rest) duplicates =
    drop_duplicates vs rest (if is_listed config vs then duplicates else delete config duplicates)

unfoldable pub stop_states : Round → Dict Text ConfigState → Fleet → Fleet
stop_states round [] f = f
stop_states round ((config, state) ∷ rest) f =
    stop_states round rest (counted (stop_process (round.observe config) (worker_of state f)) f)

unfoldable pub stop_all : Round → Fleet → Fleet
stop_all round f = stop_states round f.states (record f { states = [] })

-- What is known of the configuration directory: `worldWritable` says no, it says yes or fails, or
-- there is no directory.
pub data DirectoryCheck : Type 0 where
  private_directory missing_directory : DirectoryCheck
  unsafe_directory uninspectable_directory : DirectoryCheck

abbrev pub is_refused : DirectoryCheck → Bool
is_refused private_directory = false
is_refused missing_directory = false
is_refused unsafe_directory = true
is_refused uninspectable_directory = true

-- `none` is a failed enumeration, after which no configuration is listed.
abbrev pub listed : Option (List Visit) → List Visit
listed none = []
listed (some vs) = vs

abbrev pub drop_inactive : Round → List Visit → Fleet → Fleet
drop_inactive round vs f =
    let kept = drop_states round vs f.states f in
    record kept { duplicates = drop_duplicates vs kept.duplicates kept.duplicates }

unfoldable pub reconcile :
    (ℕ → ℕ) → ℕ → Round → DirectoryCheck → Option (List Visit) → Fleet → Fleet
reconcile int63n watchdog_timeout round directory paths f =
    let begun = record f { reconciles = count_up f.reconciles } in
    if is_refused directory
    then stop_all round begun
    else drop_inactive round (listed paths)
        (visit_all int63n watchdog_timeout round 0 (listed paths) [] begun).1

abbrev pub discard_all : Dict Text ValidatedConfig → List Effect
discard_all validations = map (λ e. snapshot_removed e.1.launch_path) validations

-- `cleanup`, behind the end of a running identification or probe and before the status file goes.
unfoldable pub cleanup : Round → Fleet → Fleet
cleanup round f =
    stop_states round f.states (record f {
      states = [];
      prevalidated = [];
      effects = f.effects ++ discard_all f.prevalidated;
    })
