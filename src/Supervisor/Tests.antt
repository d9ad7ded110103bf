-- ===== src/Supervisor/Tests.antt =====
-- Runs of the supervision of internal/manager/supervisor.go at concrete inputs.
use kmonad_device_manager.Prelude.{
  ℕ, ◌+◌, ◌*◌, ◌≡◌, ◌≤◌, refl, Bool, true, false, none, some, [], ◌∷◌, ◌++◌, Text, Text-eq, text,
  take, keep, arith,
}
use kmonad_device_manager.Prelude.Dict.{lookup}
use kmonad_device_manager.Supervisor.{
  ConfigState, ProcessState, Worker, phase_running, new_config_state, second, retry_base,
  schedule_retry, transition_phase, terminated, killed,
}
use kmonad_device_manager.Supervisor.Process.{
  Observation, owns_process, process_healthy, take_prevalidated, stop_process,
}
use kmonad_device_manager.Supervisor.Start.{
  refused, read, snapshot_at, ValidationInputs, child_started, validate_config_snapshot,
}
use kmonad_device_manager.Supervisor.Reconcile.{
  Pass, reconcile_config, apply_change, run_process, watch, check_exit,
}
use kmonad_device_manager.Supervisor.Backoff.{schedule_retry_bounds}
use kmonad_device_manager.Supervisor.Output.{
  LimitedOutputBuffer, write_all, concat, write_all-buffered,
}
use kmonad_device_manager.Supervisor.LastGood.{is_signal, invalid_update_keeps_process}
use kmonad_device_manager.Supervisor.Phases.{vanished_device-running}
use kmonad_device_manager.Supervisor.Watchdog.{IsStoppedIn, unhealthy_process_is_stopped}

abbrev pub no_jitter : ℕ → ℕ
no_jitter n = 0

schedule_retry_bounds_example :
    (8 * 10 + 7 * retry_base 3
      ≤ 8
        * (schedule_retry no_jitter 10
            (text "exited")
            (record new_config_state { failures = 2 })).retry_after)
    × (8
          * (schedule_retry no_jitter 10
              (text "exited")
              (record new_config_state { failures = 2 })).retry_after
        ≤ 8 * 10 + 9 * retry_base 3)
    × (2 * second ≤ retry_base 3)
    × (retry_base 3 ≤ 60 * second)
schedule_retry_bounds_example =
    schedule_retry_bounds no_jitter 10 (text "exited") (record new_config_state { failures = 2 })
      (λ n p. p)

abbrev small_buffer : LimitedOutputBuffer
small_buffer = record { buffered = []; limit = 5 }

write_all-buffered_example :
    (write_all (text "err" ∷ text "or: x" ∷ text "y" ∷ []) small_buffer).buffered
    ≡ take 5 ([] ++ concat (text "err" ∷ text "or: x" ∷ text "y" ∷ []))
write_all-buffered_example =
    write_all-buffered (text "err" ∷ text "or: x" ∷ text "y" ∷ []) small_buffer (omega arith)

abbrev pub running_process : ProcessState
running_process = record {
  pid = 42;
  start_tick = 7;
  started_at = 1000;
  launch_path = text "snapshot-1";
  cgroup_path = [];
  unhealthy_since = 0;
}

abbrev pub running_state : ConfigState
running_state = record new_config_state {
  phase = phase_running;
  signature = text "old";
  device_id = text "keyboard";
  process = some running_process;
}

abbrev worker_with : ConfigState → Worker
worker_with state = record {
  state = state;
  prevalidated = [];
  starts = 0;
  failures = 0;
  stops = 0;
  effects = [];
}

abbrev pub owned : Observation
owned = record { start_time = 7; matches_command = true; is_blocked = false; done_in_time = true }

abbrev lost : Observation
lost = record { start_time = 8; matches_command = true; is_blocked = false; done_in_time = true }

abbrev pub rejected_update : ValidationInputs
rejected_update = record {
  first_read = read (text "/dev/input/event3") (text "new");
  snapshot = snapshot_at (text "snapshot-2");
  dry_run = some (refused (text "parse error"));
  final_read = read (text "/dev/input/event3") (text "new");
}

abbrev pub accepted_update : ValidationInputs
accepted_update = record rejected_update { dry_run = none }

abbrev pass_with : Text → Observation → ValidationInputs → Bool → Pass
pass_with signature observed validation ready = record {
  config = text "keyboard.kbd";
  signature = signature;
  identity = text "keyboard";
  now = 5000;
  observed = observed;
  exit = none;
  validation = validation;
  host = record {
    device_ready = ready;
    device_identity = some (text "keyboard");
    child = child_started 43 9 none;
    cgroup_path = [];
  };
}

abbrev rejected_pass : Pass
rejected_pass = pass_with (text "new") owned rejected_update true

invalid_update_keeps_process_example :
    ((reconcile_config no_jitter 100 rejected_pass (worker_with running_state)).state.process
      ≡ some running_process)
    × ((reconcile_config no_jitter 100 rejected_pass (worker_with running_state)).state.signature
        ≡ text "old")
    × ((reconcile_config no_jitter 100 rejected_pass (worker_with running_state)).state.device_id
        ≡ text "keyboard")
    × ((reconcile_config no_jitter 100 rejected_pass (worker_with running_state)).starts ≡ 0)
    × ((reconcile_config no_jitter 100 rejected_pass (worker_with running_state)).stops ≡ 0)
    × (keep is_signal
          (reconcile_config no_jitter 100 rejected_pass (worker_with running_state)).effects
        ≡ [])
unfolding validate_config_snapshot lookup
invalid_update_keeps_process_example =
    invalid_update_keeps_process no_jitter 100 rejected_pass (worker_with running_state)
      running_process (refused (text "parse error")) refl refl refl refl

abbrev accepted_pass : Pass
accepted_pass = pass_with (text "new") owned accepted_update true

-- The process that was started, in uninterruptible sleep; it does not end in time.
abbrev ill_pass : ℕ → Pass
ill_pass now =
    record (pass_with (text "old") (record owned { is_blocked = true; done_in_time = false })
      accepted_update true) { now = now }

unhealthy_process_is_stopped_example :
    IsStoppedIn no_jitter 100 [] running_process
      (ill_pass 5000 ∷ (ill_pass 5040 ∷ []) ++ ill_pass 5110 ∷ [])
      (worker_with running_state)
unfolding lookup process_healthy owns_process
unhealthy_process_is_stopped_example =
    unhealthy_process_is_stopped no_jitter 100 (worker_with running_state) running_process
      (ill_pass 5000) (ill_pass 5040 ∷ []) (ill_pass 5110) refl (omega arith) (omega arith)
      (omega arith) (refl, refl, refl, refl) ((refl, refl, refl, refl), tt) (refl, refl, refl, refl)

abbrev after_two_passes : Worker
after_two_passes =
    reconcile_config no_jitter 100 (ill_pass 5040)
      (reconcile_config no_jitter 100 (ill_pass 5000) (worker_with running_state))

-- The third pass signals the process.
ill_process_is_killed :
    keep is_signal (reconcile_config no_jitter 100 (ill_pass 5110) after_two_passes).effects
    ≡ terminated running_process.pid ∷ killed running_process.pid ∷ []
unfolding reconcile_config take_prevalidated apply_change run_process watch check_exit stop_process
    schedule_retry transition_phase process_healthy owns_process lookup
ill_process_is_killed = refl

abbrev vanished_pass : Pass
vanished_pass = pass_with (text "new") owned accepted_update false

vanished_device-running_example :
    ((reconcile_config no_jitter 100 vanished_pass (worker_with running_state)).state.process
      ≡ none)
    × ((reconcile_config no_jitter 100 vanished_pass (worker_with running_state)).state.retry_after
        ≡ 0)
    × ((reconcile_config no_jitter 100 vanished_pass (worker_with running_state)).state.phase
        ≡ phase_running)
unfolding lookup validate_config_snapshot owns_process
vanished_device-running_example =
    vanished_device-running no_jitter 100 vanished_pass (worker_with running_state) running_process
      (record {
        device = text "/dev/input/event3";
        signature = text "new";
        launch_path = text "snapshot-2";
      })
      refl refl refl refl refl refl refl refl refl
