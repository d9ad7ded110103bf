-- ===== src/Supervisor/LastGood.antt =====
-- An update of a configuration that is not valid keeps the last known-good process, in
-- internal/manager/supervisor.go.
use kmonad_device_manager.Prelude.{
  ℕ, ◌≡◌, Bool, true, false, refl, none, some, List, [], ◌∷◌, ◌++◌, Text, Text-eq, arith,
  append-nil, keep,
}
use kmonad_device_manager.Prelude.Dict.{lookup}
use kmonad_device_manager.Supervisor.{
  ProcessState, Worker, Effect, terminated, killed, group_killed, perform, schedule_retry,
  transition_phase,
}
use kmonad_device_manager.Supervisor.Process.{take_prevalidated}
use kmonad_device_manager.Supervisor.Start.{
  ValidationError, config_changed, disappeared, refused, invalid, ValidationInputs,
  validate_config_snapshot,
}
use kmonad_device_manager.Supervisor.Reconcile.{
  Pass, has_changed, keep_last_good, update_running, reconcile_config,
}

abbrev pub is_signal : Effect → Bool
is_signal (terminated pid) = true
is_signal (killed pid) = true
is_signal (group_killed pid) = true
is_signal _ = false

keep-append :
    (xs ys : List Effect) → keep is_signal (xs ++ ys) ≡ keep is_signal xs ++ keep is_signal ys
keep-append [] ys = refl
keep-append (x ∷ xs) ys = ground (arith, keep-append xs ys)

validation_is_quiet :
    (inputs : ValidationInputs) (signature : Text)
    → keep is_signal (validate_config_snapshot inputs signature).1 ≡ []
unfolding validate_config_snapshot
validation_is_quiet inputs signature = ground arith

-- The same process, under the same signature and device, after the same effects.
abbrev SameWork : Worker → Worker → Type 0
SameWork a b =
    (a.state.process ≡ b.state.process)
    × (a.state.signature ≡ b.state.signature)
    × (a.state.device_id ≡ b.state.device_id)
    × (a.starts ≡ b.starts)
    × (a.stops ≡ b.stops)
    × (a.effects ≡ b.effects)

keep_last_good-SameWork :
    (int63n : ℕ → ℕ) (watchdog_timeout : ℕ) (pass : Pass) (e : ValidationError) (w : Worker)
    → SameWork (keep_last_good int63n watchdog_timeout pass e w) w
unfolding keep_last_good schedule_retry transition_phase
keep_last_good-SameWork int63n watchdog_timeout pass config_changed w = ground arith
keep_last_good-SameWork int63n watchdog_timeout pass (disappeared reason) w = ground arith
keep_last_good-SameWork int63n watchdog_timeout pass (refused reason) w = ground arith

-- A configuration with a process, whose file or device has changed, and whose new form was not
-- validated before and is not valid now, keeps its process, its signature and its device, so that
-- the next pass tries again; nothing is started or signalled.
pub invalid_update_keeps_process :
    (int63n : ℕ → ℕ) (watchdog_timeout : ℕ) (pass : Pass) (w : Worker) (p : ProcessState)
    (e : ValidationError)
    → w.state.process ≡ some p
    → has_changed pass w.state ≡ true
    → lookup pass.config w.prevalidated ≡ none
    → (validate_config_snapshot pass.validation pass.signature).0 ≡ invalid e
    → let after = reconcile_config int63n watchdog_timeout pass w in
      (after.state.process ≡ some p)
      × (after.state.signature ≡ w.state.signature)
      × (after.state.device_id ≡ w.state.device_id)
      × (after.starts ≡ w.starts)
      × (after.stops ≡ w.stops)
      × (keep is_signal after.effects ≡ keep is_signal w.effects)
unfolding reconcile_config update_running take_prevalidated
invalid_update_keeps_process int63n watchdog_timeout pass w p e h c l v =
    let checked = validate_config_snapshot pass.validation pass.signature in
    ground (
      arith,
      h,
      c,
      l,
      v,
      append-nil w.effects,
      validation_is_quiet pass.validation pass.signature,
      keep-append w.effects checked.1,
      append-nil (keep is_signal w.effects),
      keep_last_good-SameWork int63n watchdog_timeout pass e (perform checked.1 w),
    )
