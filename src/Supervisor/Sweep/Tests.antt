-- ===== src/Supervisor/Sweep/Tests.antt =====
-- Passes of `reconcile` in internal/manager/supervisor.go over two configurations.

use kmonad_device_manager.Prelude.{
  ◌≡◌, ◌≢◌, refl, true, false, none, some, [], ◌∷◌, Text, Text-eq, text, take, arith,
}
use kmonad_device_manager.Prelude.Dict.{Dict, lookup, insert, delete}
use kmonad_device_manager.Supervisor.{
  ConfigState, new_config_state, phase_running, transition_phase,
}
use kmonad_device_manager.Supervisor.Start.{
  refused, read, ValidationInputs, child_started, new_process_state, validate_config_snapshot,
  start_config, launch,
}
use kmonad_device_manager.Supervisor.Reconcile.{
  reconcile_config, apply_change, run_process, start_or_wait,
}
use kmonad_device_manager.Supervisor.Process.{take_prevalidated, stop_process}
use kmonad_device_manager.Supervisor.Tests.{
  no_jitter, running_process, running_state, owned, rejected_update, accepted_update,
}
use kmonad_device_manager.Supervisor.Sweep.{
  Fleet, is_on, Visit, Round, is_listed, private_directory, reconcile, cleanup, visit_all, visit,
  read_file, read_device, claim_device, run_claimed, note_duplicate, stop_and_delete, drop_states,
  drop_duplicates,
}
use kmonad_device_manager.Supervisor.Sweep.Claims.{IsSettled}
use kmonad_device_manager.Supervisor.Sweep.Exclusive.{
  one_process_per_device, session_device_is_free,
}
use kmonad_device_manager.Supervisor.Sweep.Listed.{kept_states_are_listed}
use kmonad_device_manager.Supervisor.Sweep.Clash.{
  process_of, device_of, rejected_update_shares_device,
}
use kmonad_device_manager.Supervisor.Sweep.Shutdown.{AllReleased, AllDiscarded, cleanup-AllReleased}

abbrev round : Round
round = record {
  now = 5000;
  max_configs = 2;
  observe = λ _. owned;
  identifying = none;
  probing = none;
}

abbrev visit_of : Text → Text → Text → ValidationInputs → Visit
visit_of config signature identity validation = record {
  config = config;
  writable = some false;
  file = read (text "/dev/input/event3") signature;
  is_ready = true;
  identity = some identity;
  exit = none;
  validation = validation;
  host = record {
    device_ready = true;
    device_identity = some identity;
    child = child_started 43 9 none;
    cgroup_path = [];
  };
}

abbrev fleet_with : Dict Text ConfigState → Fleet
fleet_with states = record {
  states = states;
  duplicates = [];
  prevalidated = [];
  reconciles = 0;
  starts = 0;
  failures = 0;
  stops = 0;
  effects = [];
}

abbrev first_fleet : Fleet
first_fleet = fleet_with ((text "a.kbd", running_state) ∷ [])

abbrev moved_visit : Visit
moved_visit = visit_of (text "a.kbd") (text "new") (text "mouse") rejected_update

abbrev second_visit : Visit
second_visit = visit_of (text "b.kbd") (text "new") (text "keyboard") accepted_update

rejected_update_shares_device_example :
    (process_of (text "a.kbd") (
        reconcile no_jitter 100 round private_directory
          (some (moved_visit ∷ second_visit ∷ []))
          first_fleet)
      ≡ some (some running_process))
    × (device_of (text "a.kbd") (
          reconcile no_jitter 100 round private_directory
            (some (moved_visit ∷ second_visit ∷ []))
            first_fleet)
        ≡ some (text "keyboard"))
    × (process_of (text "b.kbd") (
          reconcile no_jitter 100 round private_directory
            (some (moved_visit ∷ second_visit ∷ []))
            first_fleet)
        ≡ some (some (new_process_state 43 9 5000 (text "snapshot-2") [])))
    × (device_of (text "b.kbd") (
          reconcile no_jitter 100 round private_directory
            (some (moved_visit ∷ second_visit ∷ []))
            first_fleet)
        ≡ some (text "keyboard"))
unfolding lookup validate_config_snapshot
rejected_update_shares_device_example =
    rejected_update_shares_device no_jitter 100 round moved_visit second_visit first_fleet
      running_state running_process (refused (text "parse error"))
      (record {
        device = text "/dev/input/event3";
        signature = text "new";
        launch_path = text "snapshot-2";
      })
      43 9 (text "new") (text "mouse") (text "new") (omega arith) refl refl refl refl refl refl
      (record {
        path = text "/dev/input/event3";
        is_private = refl;
        is_read = refl;
        is_present = refl;
        is_device = refl;
        not_identified = refl;
        not_probed = refl;
      })
      refl refl
      (record {
        path = text "/dev/input/event3";
        is_private = refl;
        is_read = refl;
        is_present = refl;
        is_device = refl;
        not_identified = refl;
        not_probed = refl;
      })
      refl refl refl refl

abbrev keyboard_visit : Visit
keyboard_visit = visit_of (text "a.kbd") (text "new") (text "keyboard") accepted_update

abbrev mouse_visit : Visit
mouse_visit = visit_of (text "m.kbd") (text "new") (text "mouse") accepted_update

abbrev after_pass : Visit → Fleet
after_pass other =
    reconcile no_jitter 100 round private_directory (some (keyboard_visit ∷ other ∷ []))
      (fleet_with [])

abbrev started_on : Text → ConfigState
started_on device = record new_config_state {
  phase = phase_running;
  signature = text "new";
  device_id = device;
  process = some (new_process_state 43 9 5000 (text "snapshot-2") []);
  last_known_good_signature = text "new";
}

abbrev keyboard_settled : IsSettled keyboard_visit (after_pass mouse_visit)
unfolding reconcile visit_all visit read_file read_device claim_device run_claimed note_duplicate
    stop_and_delete reconcile_config take_prevalidated apply_change run_process start_or_wait
    start_config launch validate_config_snapshot transition_phase drop_states is_listed lookup
    insert delete drop_duplicates stop_process
keyboard_settled = record {
  state = started_on (text "keyboard");
  process = new_process_state 43 9 5000 (text "snapshot-2") [];
  device = text "/dev/input/event3";
  signature = text "new";
  is_kept = refl;
  is_running = refl;
  is_read = refl;
  is_same = refl;
}

abbrev mouse_settled : IsSettled mouse_visit (after_pass mouse_visit)
unfolding reconcile visit_all visit read_file read_device claim_device run_claimed note_duplicate
    stop_and_delete reconcile_config take_prevalidated apply_change run_process start_or_wait
    start_config launch validate_config_snapshot transition_phase drop_states is_listed lookup
    insert delete drop_duplicates stop_process
mouse_settled = record {
  state = started_on (text "mouse");
  process = new_process_state 43 9 5000 (text "snapshot-2") [];
  device = text "/dev/input/event3";
  signature = text "new";
  is_kept = refl;
  is_running = refl;
  is_read = refl;
  is_same = refl;
}

one_process_per_device_example :
    (started_on (text "keyboard")).device_id ≢ (started_on (text "mouse")).device_id
unfolding reconcile visit_all visit read_file read_device claim_device run_claimed note_duplicate
    stop_and_delete reconcile_config take_prevalidated apply_change run_process start_or_wait
    start_config launch validate_config_snapshot transition_phase drop_states is_listed lookup
    insert delete drop_duplicates stop_process
one_process_per_device_example =
    one_process_per_device no_jitter 100 round private_directory (keyboard_visit ∷ mouse_visit ∷ [])
      (fleet_with []) 0 1 keyboard_visit mouse_visit (refl, (refl, tt)) refl refl keyboard_settled
      mouse_settled (λ e. ground arith)

abbrev mouse_round : Round
mouse_round = record round { probing = some (text "trackpad") }

session_device_is_free_example :
    (is_on mouse_round.identifying (text "mouse") ≡ false)
    × (is_on mouse_round.probing (text "mouse") ≡ false)
unfolding reconcile visit_all visit read_file read_device claim_device run_claimed note_duplicate
    stop_and_delete reconcile_config take_prevalidated apply_change run_process start_or_wait
    start_config launch validate_config_snapshot transition_phase drop_states is_listed lookup
    insert delete drop_duplicates stop_process
session_device_is_free_example =
    session_device_is_free no_jitter 100 mouse_round private_directory (mouse_visit ∷ [])
      (fleet_with []) 0 mouse_visit (refl, tt) refl
      (record {
        state = started_on (text "mouse");
        process = new_process_state 43 9 5000 (text "snapshot-2") [];
        device = text "/dev/input/event3";
        signature = text "new";
        is_kept = refl;
        is_running = refl;
        is_read = refl;
        is_same = refl;
      })

kept_states_are_listed_example :
    is_listed (text "m.kbd") (take 2 (keyboard_visit ∷ mouse_visit ∷ [])) ≡ true
unfolding reconcile visit_all visit read_file read_device claim_device run_claimed note_duplicate
    stop_and_delete reconcile_config take_prevalidated apply_change run_process start_or_wait
    start_config launch validate_config_snapshot transition_phase drop_states is_listed lookup
    insert delete drop_duplicates stop_process
kept_states_are_listed_example =
    kept_states_are_listed no_jitter 100 round private_directory
      (some (keyboard_visit ∷ mouse_visit ∷ [])) (fleet_with []) (text "m.kbd")
      (started_on (text "mouse")) refl

-- The second configuration of a device is noted as a duplicate, and not started.
duplicate_is_not_started :
    (lookup (text "b.kbd") (after_pass second_visit).states ≡ none)
    × ((after_pass second_visit).duplicates ≡ (text "b.kbd", text "keyboard") ∷ [])
    × ((after_pass second_visit).starts ≡ 1)
unfolding reconcile visit_all visit read_file read_device claim_device run_claimed note_duplicate
    stop_and_delete reconcile_config take_prevalidated apply_change run_process start_or_wait
    start_config launch validate_config_snapshot transition_phase drop_states is_listed lookup
    insert delete drop_duplicates stop_process
duplicate_is_not_started = (refl, refl, refl)

abbrev full_fleet : Fleet
full_fleet = record first_fleet {
  prevalidated =
      (text "b.kbd", record { device = []; signature = []; launch_path = text "snapshot-3" }) ∷ [];
}

cleanup-AllReleased_example :
    ((cleanup round full_fleet).states ≡ [])
    × ((cleanup round full_fleet).prevalidated ≡ [])
    × AllReleased (cleanup round full_fleet).effects full_fleet.states
    × AllDiscarded (cleanup round full_fleet).effects full_fleet.prevalidated
cleanup-AllReleased_example = cleanup-AllReleased round full_fleet
