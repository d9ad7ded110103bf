-- ===== src/Supervisor/Sweep/Clash.antt =====
-- Two processes on one device after a pass of `reconcile` in internal/manager/supervisor.go: a
-- configuration that keeps its last good process claims the device that its new file names.
use mathlib.Core.Option
use kmonad_device_manager.Prelude.{
  ℕ, ◌≡◌, ◌≤◌, refl, inl, inr, true, false, Option, none, some, [], ◌∷◌, List, Text, Text-eq,
  text_eq, text_eq_iff, arith, Bool-cases, ap,
}
use kmonad_device_manager.Prelude.Dict.{Dict, lookup, insert, lookup-insert}
use kmonad_device_manager.Supervisor.{
  ConfigState, ProcessState, ValidatedConfig, Worker, new_config_state, count_up, perform,
  transition_phase,
}
use kmonad_device_manager.Supervisor.Start.{
  ValidationError, config_changed, disappeared, refused, read, validated, invalid,
  validate_config_snapshot, child_started, new_process_state, start_config, launch,
}
use kmonad_device_manager.Supervisor.Reconcile.{
  Pass, has_changed, reconcile_config, update_running, keep_last_good, apply_change, run_process,
  start_or_wait,
}
use kmonad_device_manager.Supervisor.Process.{take_prevalidated, stop_process}
use kmonad_device_manager.Supervisor.LastGood.{invalid_update_keeps_process}
use kmonad_device_manager.Supervisor.Sweep.Frame.{run_claimed-SameFor, lookup-stop_and_delete}
use kmonad_device_manager.Supervisor.Sweep.{
  Fleet, Visit, Round, Claims, pass_of, worker_of, is_on, visit, visit_all, is_listed, drop_states,
  private_directory, reconcile, stop_and_delete, run_claimed, claim_device, read_device, read_file,
}

-- A configuration file that the pass reads whole, whose device is ready and used by no client.
pub record IsReadable (round : Round) (v : Visit) (signature device : Text) : Type 0 where
  pub path : Text
  pub is_private : v.writable ≡ some false
  pub is_read : v.file ≡ read path signature
  pub is_present : v.is_ready ≡ true
  pub is_device : v.identity ≡ some device
  pub not_identified : is_on round.identifying device ≡ false
  pub not_probed : is_on round.probing device ≡ false

-- The process and the device of one configuration, if it has a state.
abbrev pub process_of : Text → Fleet → Option (Option ProcessState)
process_of config f = Option.map (λ (t : ConfigState). t.process) (lookup config f.states)

abbrev pub device_of : Text → Fleet → Option Text
device_of config f = Option.map (λ (t : ConfigState). t.device_id) (lookup config f.states)

module _ (int63n : ℕ → ℕ) (watchdog_timeout : ℕ) where
  keep_last_good-prevalidated :
      (pass : Pass) (e : ValidationError) (w : Worker)
      → (keep_last_good int63n watchdog_timeout pass e w).prevalidated ≡ w.prevalidated
  unfolding keep_last_good
  keep_last_good-prevalidated pass config_changed w = refl
  keep_last_good-prevalidated pass (disappeared reason) w = refl
  keep_last_good-prevalidated pass (refused reason) w = refl

  invalid_update-prevalidated :
      (pass : Pass) (w : Worker) (p : ProcessState) (e : ValidationError)
      → w.state.process ≡ some p
      → has_changed pass w.state ≡ true
      → lookup pass.config w.prevalidated ≡ none
      → (validate_config_snapshot pass.validation pass.signature).0 ≡ invalid e
      → (reconcile_config int63n watchdog_timeout pass w).prevalidated ≡ w.prevalidated
  unfolding reconcile_config update_running take_prevalidated
  invalid_update-prevalidated pass w p e h c l v =
      let checked = validate_config_snapshot pass.validation pass.signature in
      ground (arith, h, c, l, v, keep_last_good-prevalidated pass e (perform checked.1 w))

  first_start :
      (pass : Pass) (w : Worker) (x : ValidatedConfig) (pid start_tick : ℕ)
      → w.state ≡ new_config_state
      → lookup pass.config w.prevalidated ≡ none
      → (validate_config_snapshot pass.validation pass.signature).0 ≡ validated x
      → pass.host.device_ready ≡ true
      → pass.host.device_identity ≡ some pass.identity
      → pass.host.child ≡ child_started pid start_tick none
      → let after = reconcile_config int63n watchdog_timeout pass w in
        (after.state.process
          ≡ some (new_process_state pid start_tick pass.now x.launch_path pass.host.cgroup_path))
        × (after.state.device_id ≡ pass.identity)
  unfolding reconcile_config take_prevalidated apply_change run_process start_or_wait start_config
      launch stop_process transition_phase
  first_start pass w x pid start_tick fresh l valid ready device child =
      ground (arith, fresh, l, valid, ready, device, child, text_eq_iff pass.identity pass.identity)

  module _ (round : Round) where
    rejected_claim :
        (u : Visit) (f : Fleet) (s : ConfigState) (p : ProcessState) (e : ValidationError)
        (signature device : Text)
        → lookup u.config f.states ≡ some s
        → s.process ≡ some p
        → lookup u.config f.prevalidated ≡ none
        → text_eq device s.device_id ≡ false
        → (validate_config_snapshot u.validation signature).0 ≡ invalid e
        → let after = run_claimed int63n watchdog_timeout round u signature device f in
          (process_of u.config after ≡ some (some p))
          × (device_of u.config after ≡ some s.device_id)
          × (after.prevalidated ≡ f.prevalidated)
    unfolding run_claimed
    rejected_claim u f s p e signature device at running none_taken moved rejected =
        let pass = pass_of round u signature device in
        let w = worker_of s f in
        let after = reconcile_config int63n watchdog_timeout pass w in
        let changed : has_changed pass s ≡ true =
          ground (arith, text_eq_iff device s.device_id, text_eq_iff s.device_id device) in
        ground (
          arith,
          at,
          invalid_update_keeps_process int63n watchdog_timeout pass w p e,
          invalid_update-prevalidated pass w p e,
          changed,
          lookup-insert u.config u.config after.state f.states,
          text_eq_iff u.config u.config,
        )

    fresh_claim :
        (v : Visit) (f : Fleet) (x : ValidatedConfig) (pid start_tick : ℕ) (signature device : Text)
        → lookup v.config f.states ≡ none
        → lookup v.config f.prevalidated ≡ none
        → (validate_config_snapshot v.validation signature).0 ≡ validated x
        → v.host.device_ready ≡ true
        → v.host.device_identity ≡ some device
        → v.host.child ≡ child_started pid start_tick none
        → let after = run_claimed int63n watchdog_timeout round v signature device f in
          (process_of v.config after
            ≡ some (
                some (new_process_state pid start_tick round.now x.launch_path v.host.cgroup_path)))
          × (device_of v.config after ≡ some device)
    unfolding run_claimed
    fresh_claim v f x pid start_tick signature device at none_taken valid ready present child =
        let pass = pass_of round v signature device in
        let w = worker_of new_config_state f in
        let after = reconcile_config int63n watchdog_timeout pass w in
        ground (
          arith,
          at,
          first_start pass w x pid start_tick,
          lookup-insert v.config v.config after.state f.states,
          text_eq_iff v.config v.config,
        )

    drop_states-listed :
        (vs : List Visit) (gone : Dict Text ConfigState) (k : Text) (f : Fleet)
        → is_listed k vs ≡ true
        → lookup k (drop_states round vs gone f).states ≡ lookup k f.states
    unfolding drop_states
    drop_states-listed vs [] k f active = refl
    drop_states-listed vs ((config, state) ∷ rest) k f active =
        let dropped = stop_and_delete round config f in
        elim (Bool-cases (text_eq config k)) [
          | inl here ↦
              let same : config ≡ k = (text_eq_iff config k).0 here in
              ground (
                arith,
                ap (λ (c : Text). is_listed c vs) same,
                drop_states-listed vs rest k f active,
              )
          | inr other ↦ ground (
            arith,
            drop_states-listed vs rest k f active,
            drop_states-listed vs rest k dropped active,
            lookup-stop_and_delete round config k f,
          )
        ]

    -- A visit of a readable configuration whose device is not claimed yet.
    visit_readable :
        (count : ℕ) (v : Visit) (signature device : Text) (active : Claims) (f : Fleet)
        → count ≤ round.max_configs
        → IsReadable round v signature device
        → lookup device active ≡ none
        → visit int63n watchdog_timeout round count v active f ≡ (
          insert device v.config active,
          run_claimed int63n watchdog_timeout round v signature device f,
        )
    unfolding visit read_file read_device claim_device
    visit_readable count v signature device active f within r free =
        ground (
          arith, r.is_private, r.is_read, r.is_present, r.is_device, r.not_identified, r.not_probed,
        )

  -- A configuration that runs on one device, and whose file now names another one but is not valid,
  -- keeps its process. If a second configuration names the first device and can start, then after
  -- the pass both have a process on that device.
  pub rejected_update_shares_device :
      (round : Round) (u v : Visit) (f : Fleet) (s : ConfigState) (p : ProcessState)
      (e : ValidationError) (x : ValidatedConfig) (pid start_tick : ℕ)
      (new_signature new_device signature : Text)
      → 2 ≤ round.max_configs
      → text_eq u.config v.config ≡ false
      → lookup u.config f.states ≡ some s
      → s.process ≡ some p
      → lookup u.config f.prevalidated ≡ none
      → lookup v.config f.states ≡ none
      → lookup v.config f.prevalidated ≡ none
      → IsReadable round u new_signature new_device
      → text_eq new_device s.device_id ≡ false
      → (validate_config_snapshot u.validation new_signature).0 ≡ invalid e
      → IsReadable round v signature s.device_id
      → (validate_config_snapshot v.validation signature).0 ≡ validated x
      → v.host.device_ready ≡ true
      → v.host.device_identity ≡ some s.device_id
      → v.host.child ≡ child_started pid start_tick none
      → let after =
          reconcile int63n watchdog_timeout round private_directory (some (u ∷ v ∷ [])) f in
        (process_of u.config after ≡ some (some p))
        × (device_of u.config after ≡ some s.device_id)
        × (process_of v.config after
            ≡ some (
                some (new_process_state pid start_tick round.now x.launch_path v.host.cgroup_path)))
        × (device_of v.config after ≡ some s.device_id)
  unfolding reconcile visit_all is_listed lookup
  rejected_update_shares_device round u v f s p e x pid start_tick new_signature new_device
        signature limit other at_u running no_u at_v no_v reads_u moved rejected reads_v valid ready
        device child =
      let begun = record f { reconciles = count_up f.reconciles } in
      let first = run_claimed int63n watchdog_timeout round u new_signature new_device begun in
      let last = run_claimed int63n watchdog_timeout round v signature s.device_id first in
      let claimed : Claims = insert new_device u.config [] in
      ground (
        arith,
        visit_readable round 1 u new_signature new_device [] begun,
        visit_readable round 2 v signature s.device_id claimed first,
        rejected_claim round u begun s p e new_signature new_device,
        fresh_claim round v first x pid start_tick signature s.device_id,
        run_claimed-SameFor int63n watchdog_timeout round u new_signature new_device v.config begun,
        run_claimed-SameFor int63n watchdog_timeout round v signature s.device_id u.config first,
        lookup-insert new_device s.device_id u.config [],
        drop_states-listed round (u ∷ v ∷ []) last.states u.config last,
        drop_states-listed round (u ∷ v ∷ []) last.states v.config last,
        text_eq_iff u.config u.config,
        text_eq_iff v.config v.config,
        text_eq_iff v.config u.config,
      )
