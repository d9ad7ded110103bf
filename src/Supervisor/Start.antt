-- ===== src/Supervisor/Start.antt =====
-- Validating a configuration and starting its process in internal/manager/supervisor.go. What the
-- file system, the dry run and the host answer is an argument.
use kmonad_device_manager.Prelude.{
  ℕ, ◌+◌, Bool, true, not, ◌||◌, ◌&&◌, Option, none, some, List, [], ◌∷◌, ◌++◌, Text, text, text_eq,
  if◌then◌else◌,
}
use kmonad_device_manager.Supervisor.{
  ConfigState, ProcessState, ValidatedConfig, Worker, Effect, snapshot_created, snapshot_removed,
  launched, killed, handle_closed, perform, count_up, second, transition_phase, schedule_retry,
  phase_validating, phase_waiting, phase_failed, phase_running,
}

-- `errConfigChanged`, an error that `os.IsNotExist` accepts, and every other error.
pub data ValidationError : Type 0 where
  config_changed : ValidationError
  disappeared refused : (reason : Text) → ValidationError

pub data ReadResult : Type 0 where
  read : (device signature : Text) → ReadResult
  unread : ValidationError → ReadResult

pub data SnapshotResult : Type 0 where
  snapshot_at : (launch_path : Text) → SnapshotResult
  no_snapshot : ValidationError → SnapshotResult

-- The answers that one validation gets.
pub record ValidationInputs : Type 0 where
  pub first_read : ReadResult
  pub snapshot : SnapshotResult
  pub dry_run : Option ValidationError
  pub final_read : ReadResult

pub data Validation : Type 0 where
  validated : ValidatedConfig → Validation
  invalid : ValidationError → Validation

-- What the second read says of a snapshot that passed its dry run.
abbrev pub confirmed : ReadResult → ValidatedConfig → Validation
confirmed (unread e) v = invalid e
confirmed (read device signature) v =
    if not (text_eq signature v.signature) then invalid config_changed else validated v

abbrev pub dry_run_result : Option ValidationError → ReadResult → ValidatedConfig → Validation
dry_run_result (some e) final v = invalid e
dry_run_result none final v = confirmed final v

-- A snapshot that is not validated is removed.
abbrev pub snapshot_effects : Text → Validation → List Effect
snapshot_effects path (validated v) = snapshot_created path ∷ []
snapshot_effects path (invalid e) = snapshot_created path ∷ snapshot_removed path ∷ []

unfoldable pub validate_config_snapshot : ValidationInputs → Text → Validation × List Effect
validate_config_snapshot inputs expected_signature = elim inputs.first_read [
  | unread e ↦ (invalid e, [])
  | read device actual_signature ↦
      if not (text_eq actual_signature expected_signature)
      then (invalid config_changed, [])
      else elim inputs.snapshot [
        | no_snapshot e ↦ (invalid e, [])
        | snapshot_at path ↦
            let result =
              dry_run_result inputs.dry_run inputs.final_read
                (record { device = device; signature = actual_signature; launch_path = path }) in
            (result, snapshot_effects path result)
      ]
]

pub data ChildResult : Type 0 where
  start_failed : (reason : Text) → ChildResult
  child_started : (pid start_tick : ℕ) → (cgroup_error : Option Text) → ChildResult

-- The answers of the host at a start.
pub record HostInputs : Type 0 where
  pub device_ready : Bool
  pub device_identity : Option Text
  pub child : ChildResult
  pub cgroup_path : Text

abbrev pub new_process_state : ℕ → ℕ → ℕ → Text → Text → ProcessState
new_process_state pid start_tick now launch_path cgroup_path = record {
  pid = pid;
  start_tick = start_tick;
  started_at = now;
  launch_path = launch_path;
  cgroup_path = cgroup_path;
  unhealthy_since = 0;
}

abbrev pub is_other_device : Option Text → Text → Bool
is_other_device none device_id = true
is_other_device (some identity) device_id =
    not (text_eq device_id []) && not (text_eq identity device_id)

abbrev pub move_to : Worker → ConfigState → Worker
move_to w state = record w { state = state }

module _ (int63n : ℕ → ℕ) where
  -- The start of a validated configuration, with the deferred removal of its snapshot.
  unfoldable pub launch : HostInputs → ℕ → Text → ValidatedConfig → Worker → Worker
  launch host now expected_signature v w =
      if not host.device_ready || is_other_device host.device_identity w.state.device_id
      then perform (snapshot_removed v.launch_path ∷ [])
          (move_to w (transition_phase phase_waiting (record (w.state) { retry_after = 0 })).1)
      else elim host.child [
        | start_failed reason ↦ perform (snapshot_removed v.launch_path ∷ []) (record w {
          failures = count_up w.failures;
          state = schedule_retry int63n now (text "process start failed: " ++ reason) w.state;
        })
        | child_started pid start_tick cgroup_error ↦ elim cgroup_error [
          | some reason ↦
              perform
                (launched v.launch_path pid
                  ∷ killed pid
                  ∷ handle_closed pid
                  ∷ snapshot_removed v.launch_path
                  ∷ [])
                (record w {
                  failures = count_up w.failures;
                  state =
                      schedule_retry int63n now (text "cgroup attach failed: " ++ reason) w.state;
                })
          | none ↦ perform (launched v.launch_path pid ∷ []) (record w {
            starts = count_up w.starts;
            state =
                (transition_phase phase_running (record (w.state) {
                  process =
                      some (new_process_state pid start_tick now v.launch_path host.cgroup_path);
                  last_known_good_signature = expected_signature;
                })).1;
          })
        ]
      ]

  -- A validation at the start that did not succeed.
  unfoldable pub validation_failed : ℕ → ValidationError → Worker → Worker
  validation_failed now config_changed w =
      move_to w
        (transition_phase phase_waiting (record (w.state) {
          failure_reason = text "configuration changed during validation";
          retry_after = now + second;
        })).1
  validation_failed now (disappeared reason) w =
      move_to w
        (transition_phase phase_waiting (record (w.state) {
          failure_reason = text "configuration disappeared during validation";
          retry_after = now + second;
        })).1
  validation_failed now (refused reason) w = record w {
    failures = count_up w.failures;
    state =
        schedule_retry int63n now (text "validation failed: " ++ reason)
          (transition_phase phase_failed w.state).1;
  }

  unfoldable pub start_config :
      ValidationInputs → HostInputs → ℕ → Text → Option ValidatedConfig → Worker → Worker
  start_config inputs host now expected_signature validation w =
      let begun = move_to w (transition_phase phase_validating w.state).1 in
      elim validation [
        | some v ↦ launch host now expected_signature v begun
        | none ↦
            let checked = validate_config_snapshot inputs expected_signature in
            elim checked.0 [
              | invalid e ↦ validation_failed now e (perform checked.1 begun)
              | validated v ↦ launch host now expected_signature v (perform checked.1 begun)
            ]
      ]
