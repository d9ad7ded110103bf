-- ===== src/Supervisor/Phases.antt =====
-- The phase of a configuration in internal/manager/supervisor.go against its process.
use kmonad_device_manager.Prelude.{
  ℕ, ◌<◌, ◌≡◌, true, false, none, some, [], ◌∷◌, ◌++◌, Text-eq, text_eq, arith, ◌&&◌, if◌then◌else◌,
}
use kmonad_device_manager.Prelude.Dict.{lookup}
use kmonad_device_manager.Supervisor.{
  ConfigState, ConfigPhase, ProcessState, ValidatedConfig, Worker, phase_running, phase_stopped,
  is_valid_transition, transition_phase, count_up, confirmed_active,
}
use kmonad_device_manager.Supervisor.Process.{
  Observation, owns_process, process_healthy, stop_process, take_prevalidated, to_stopped,
  forget_process,
}
use kmonad_device_manager.Supervisor.Start.{
  validated, validate_config_snapshot, launch, start_config,
}
use kmonad_device_manager.Supervisor.Reconcile.{
  Pass, has_changed, start_or_wait, run_process, apply_change, watch, check_exit, clear,
  update_running, reconcile_config,
}

-- The phase behind a transition to stopped.
abbrev pub stopped_from : ConfigPhase → ConfigPhase
stopped_from phase = if is_valid_transition phase phase_stopped then phase_stopped else phase

to_stopped-phase : (s : ConfigState) → (to_stopped s).phase ≡ stopped_from s.phase
unfolding transition_phase
to_stopped-phase s = ground arith

-- A stopped process is forgotten and counted; the phase becomes stopped when that is a transition,
-- except that a process which ends before the deadline leaves the phase as it was.
stop_process-phase :
    (o : Observation) (w : Worker) (p : ProcessState)
    → w.state.process ≡ some p
    → ((stop_process o w).state.process ≡ none)
      × ((stop_process o w).stops ≡ count_up w.stops)
      × ((stop_process o w).state.phase ≡ (
          if owns_process o p && o.done_in_time then w.state.phase else stopped_from w.state.phase))
unfolding stop_process transition_phase
stop_process-phase o w p e = (
  ground (arith, e),
  ground (arith, e),
  ground (arith, e, to_stopped-phase (forget_process w.state)),
)

-- A configuration without a process that has not changed waits for its retry: before it is due
-- nothing is launched, signalled or validated, and no process appears.
retry_is_awaited :
    (int63n : ℕ → ℕ) (watchdog_timeout : ℕ) (pass : Pass) (w : Worker)
    → w.state.process ≡ none
    → has_changed pass w.state ≡ false
    → lookup pass.config w.prevalidated ≡ none
    → pass.now < w.state.retry_after
    → let after = reconcile_config int63n watchdog_timeout pass w in
      (after.effects ≡ w.effects)
      × (after.state.process ≡ none)
      × (after.starts ≡ w.starts)
      × (after.state.retry_after ≡ w.state.retry_after)
unfolding reconcile_config take_prevalidated apply_change run_process start_or_wait transition_phase
retry_is_awaited int63n watchdog_timeout pass w e c l early = ground (arith, e, c, l, early)

-- A healthy process of a configuration that has not changed is left alone: the pass reports it as
-- active, forgets that it was unhealthy, and neither signals nor starts anything.
healthy_process_is_kept :
    (int63n : ℕ → ℕ) (watchdog_timeout : ℕ) (pass : Pass) (w : Worker) (p : ProcessState)
    → w.state.process ≡ some p
    → has_changed pass w.state ≡ false
    → lookup pass.config w.prevalidated ≡ none
    → process_healthy pass.observed p ≡ true
    → pass.exit ≡ none
    → let after = reconcile_config int63n watchdog_timeout pass w in
      (after.effects ≡ w.effects ++ (confirmed_active ∷ []))
      × (after.state.process ≡ some (clear p))
      × (after.state.phase ≡ w.state.phase)
      × (after.stops ≡ w.stops)
      × (after.starts ≡ w.starts)
unfolding reconcile_config take_prevalidated apply_change run_process watch check_exit
healthy_process_is_kept int63n watchdog_timeout pass w p e c l healthy alive =
    ground (arith, e, c, l, healthy, alive)

-- A running configuration that changes, whose new form is valid, whose process ends in time and
-- whose device is gone when the new process is to start, is left without a process and without a
-- retry, in the phase of a running one.
pub vanished_device-running :
    (int63n : ℕ → ℕ) (watchdog_timeout : ℕ) (pass : Pass) (w : Worker) (p : ProcessState)
    (v : ValidatedConfig)
    → w.state.phase ≡ phase_running
    → w.state.process ≡ some p
    → has_changed pass w.state ≡ true
    → lookup pass.config w.prevalidated ≡ none
    → text_eq w.state.pending_signature pass.signature ≡ false
    → (validate_config_snapshot pass.validation pass.signature).0 ≡ validated v
    → owns_process pass.observed p ≡ true
    → pass.observed.done_in_time ≡ true
    → pass.host.device_ready ≡ false
    → let after = reconcile_config int63n watchdog_timeout pass w in
      (after.state.process ≡ none)
      × (after.state.retry_after ≡ 0)
      × (after.state.phase ≡ phase_running)
unfolding reconcile_config update_running take_prevalidated apply_change run_process start_or_wait
    start_config launch stop_process transition_phase
vanished_device-running int63n watchdog_timeout pass w p v r e c l n valid owned in_time gone =
    ground (arith, e, r, c, l, n, valid, owned, in_time, gone)
