-- ===== src/Supervisor/Reconcile.antt =====
-- What one pass of `reconcile` in internal/manager/supervisor.go does to one configuration whose file
-- was read and whose device is ready and claimed by no other.
use kmonad_device_manager.Prelude.{
  ℕ, ◌-◌, ◌*◌, Bool, true, not, ◌||◌, ◌&&◌, Option, none, some, List, [], ◌∷◌, ◌++◌, Text, text,
  text_eq, ltb, leb, ◌==◌, if◌then◌else◌, is_some,
}
use kmonad_device_manager.Supervisor.{
  ConfigState, ProcessState, ValidatedConfig, Worker, Effect, snapshot_removed, cgroup_removed,
  group_killed, handle_closed, confirmed_active, perform, second, transition_phase, schedule_retry,
  phase_waiting,
}
use kmonad_device_manager.Supervisor.Process.{
  Observation, process_healthy, stop_process, forget_process, take_prevalidated,
}
use kmonad_device_manager.Supervisor.Start.{
  ValidationError, config_changed, disappeared, refused, invalid, validated, ValidationInputs,
  validate_config_snapshot, HostInputs, move_to, start_config,
}

-- The configuration's path, the file's signature and the device's identity, the clock, and what the
-- host answers in this pass. `exit` is the error that the process exited with, when it has exited.
pub record Pass : Type 0 where
  pub config : Text
  pub signature : Text
  pub identity : Text
  pub now : ℕ
  pub observed : Observation
  pub exit : Option (Option Text)
  pub validation : ValidationInputs
  pub host : HostInputs

abbrev pub has_changed : Pass → ConfigState → Bool
has_changed pass state =
    not (text_eq state.device_id pass.identity) || not (text_eq state.signature pass.signature)

abbrev pub exit_reason : Option Text → Text
exit_reason none = text "process exited"
exit_reason (some e) = text "process exited: " ++ e

-- A changed configuration starts afresh.
abbrev pub reset_state : Pass → ConfigState → ConfigState
reset_state pass state = record state {
  failures = 0;
  retry_after = 0;
  device_id = pass.identity;
  signature = pass.signature;
  pending_signature = [];
  failure_reason = [];
}

abbrev pub set_process : ProcessState → Worker → Worker
set_process process w = record w { state = record (w.state) { process = some process } }

-- The first sight of an unhealthy process, and of a healthy one.
abbrev pub mark : Pass → ProcessState → ProcessState
mark pass process = record process { unhealthy_since = pass.now }

abbrev pub clear : ProcessState → ProcessState
clear process = record process { unhealthy_since = 0 }

abbrev pub restarted : Pass → Worker → Worker
restarted pass w = move_to w (reset_state pass w.state)

module _ (int63n : ℕ → ℕ) (watchdog_timeout : ℕ) where
  abbrev pub retry_with : Pass → Text → Worker → Worker
  retry_with pass reason w = move_to w (schedule_retry int63n pass.now reason w.state)

  -- Behind the check of the process.
  unfoldable pub start_or_wait : Pass → Option ValidatedConfig → Worker → Worker
  start_or_wait pass validation w =
      if ltb pass.now w.state.retry_after
      then move_to w (transition_phase phase_waiting w.state).1
      else start_config int63n pass.validation pass.host pass.now pass.signature validation w

  -- `select` on the process's end.
  unfoldable pub check_exit : Pass → Option ValidatedConfig → ProcessState → Worker → Worker
  check_exit pass validation process w = elim pass.exit [
    | some e ↦ start_or_wait pass validation (
        retry_with pass (exit_reason e) (
          perform
            (group_killed process.pid
              ∷ cgroup_removed process.cgroup_path
              ∷ handle_closed process.pid
              ∷ snapshot_removed process.launch_path
              ∷ [])
            (move_to w (forget_process w.state))))
    | none ↦
        if leb (30 * second) (pass.now - process.started_at)
        then move_to w (record (w.state) { failures = 0; retry_after = 0 })
        else w
  ]

  -- The watchdog, for a configuration with a process.
  unfoldable pub watch : Pass → Option ValidatedConfig → ProcessState → Worker → Worker
  watch pass validation process w =
      if not (process_healthy pass.observed process)
      then if process.unhealthy_since == 0
        then check_exit pass validation (mark pass process) (set_process (mark pass process) w)
        else if leb watchdog_timeout (pass.now - process.unhealthy_since)
        then retry_with pass (text "watchdog timeout") (stop_process pass.observed w)
        else check_exit pass validation process w
      else check_exit pass validation (clear process)
          (perform (confirmed_active ∷ []) (set_process (clear process) w))

  unfoldable pub run_process : Pass → Option ValidatedConfig → Worker → Worker
  run_process pass validation w = elim w.state.process [
    | none ↦ start_or_wait pass validation w
    | some process ↦ watch pass validation process w
  ]

  -- The old process of a changed configuration stops only here, once the new one is validated.
  unfoldable pub apply_change : Pass → Bool → Option ValidatedConfig → Worker → Worker
  apply_change pass changed validation w =
      if changed
      then run_process pass validation (restarted pass (stop_process pass.observed w))
      else run_process pass validation w

  -- A changed configuration with a process whose new form is not valid: the process is kept.
  unfoldable pub keep_last_good : Pass → ValidationError → Worker → Worker
  keep_last_good pass e w = elim e [
    | config_changed ↦
        move_to w
          (record (w.state) { failure_reason = text "configuration changed during validation" })
    | disappeared reason ↦
        retry_with pass (text "configuration update validation failed: " ++ reason)
          (move_to w (record (w.state) { pending_signature = pass.signature }))
    | refused reason ↦
        retry_with pass (text "configuration update validation failed: " ++ reason)
          (move_to w (record (w.state) { pending_signature = pass.signature }))
  ]

  abbrev pub discarded : Option ValidatedConfig → List Effect
  discarded none = []
  discarded (some v) = snapshot_removed v.launch_path ∷ []

  -- A change of a configuration that has a process.
  unfoldable pub update_running : Pass → Option ValidatedConfig → Worker → Worker
  update_running pass validation w =
      if text_eq w.state.pending_signature pass.signature && ltb pass.now w.state.retry_after
      then perform (discarded validation) w
      else elim validation [
        | some v ↦ apply_change pass true (some v) w
        | none ↦
            let checked = validate_config_snapshot pass.validation pass.signature in
            elim checked.0 [
              | validated v ↦ apply_change pass true (some v) (perform checked.1 w)
              | invalid e ↦ keep_last_good pass e (perform checked.1 w)
            ]
      ]

  unfoldable pub reconcile_config : Pass → Worker → Worker
  reconcile_config pass w =
      let changed = has_changed pass w.state in
      let taken = take_prevalidated pass.config pass.signature w in
      if changed && is_some w.state.process
      then update_running pass taken.0 taken.1
      else apply_change pass changed taken.0 taken.1
