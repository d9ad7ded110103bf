-- ===== src/Supervisor/Process.antt =====
-- Stopping a process in internal/manager/supervisor.go, and taking a configuration that was validated
-- before. What the operating system reports of a process is an argument.
use kmonad_device_manager.Prelude.{
  ℕ, Bool, false, not, ◌&&◌, Option, none, some, List, [], ◌∷◌, Text, Text-eq, text_eq, ltb, ◌==◌,
  if◌then◌else◌,
}
use kmonad_device_manager.Prelude.Dict.{lookup, delete}
use kmonad_device_manager.Supervisor.{
  ConfigState, ProcessState, ValidatedConfig, Worker, Effect, snapshot_removed, cgroup_removed,
  terminated, killed, handle_closed, perform, count_up, transition_phase, phase_stopped,
}

-- What the host knows of the process: its start time, whether its command line is the expected one,
-- whether it is in uninterruptible sleep ("D"), and whether it is gone before the deadline.
pub record Observation : Type 0 where
  pub start_time : ℕ
  pub matches_command : Bool
  pub is_blocked : Bool
  pub done_in_time : Bool

unfoldable pub owns_process : Observation → ProcessState → Bool
owns_process o process =
    ltb 0 process.pid
    && not (process.start_tick == 0)
    && o.start_time == process.start_tick
    && o.matches_command

unfoldable pub process_healthy : Observation → ProcessState → Bool
process_healthy o process = if not (owns_process o process) then false else not o.is_blocked

abbrev pub released : ProcessState → List Effect
released process =
    handle_closed process.pid
    ∷ snapshot_removed process.launch_path
    ∷ cgroup_removed process.cgroup_path
    ∷ []

abbrev pub forget_process : ConfigState → ConfigState
forget_process state = record state { process = none }

abbrev pub to_stopped : ConfigState → ConfigState
to_stopped state = (transition_phase phase_stopped state).1

unfoldable pub stop_process : Observation → Worker → Worker
stop_process o w = elim w.state.process [
  | none ↦ record w { state = to_stopped w.state }
  | some process ↦
      let counted = record w { stops = count_up w.stops } in
      if not (owns_process o process)
      then perform (released process)
          (record counted { state = to_stopped (forget_process w.state) })
      else if o.done_in_time
      then perform (terminated process.pid ∷ released process)
          (record counted { state = forget_process w.state })
      else perform (terminated process.pid ∷ killed process.pid ∷ released process)
          (record counted { state = to_stopped (forget_process w.state) })
]

unfoldable pub take_prevalidated : Text → Text → Worker → Option ValidatedConfig × Worker
take_prevalidated config signature w = elim (lookup config w.prevalidated) [
  | none ↦ (none, w)
  | some validation ↦
      let taken = record w { prevalidated = delete config w.prevalidated } in
      if not (text_eq validation.signature signature)
      then (none, perform (snapshot_removed validation.launch_path ∷ []) taken)
      else (some validation, taken)
]
