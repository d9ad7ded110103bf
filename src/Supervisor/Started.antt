-- ===== src/Supervisor/Started.antt =====
-- A start and an exit in internal/manager/supervisor.go do only what is allowed.
use kmonad_device_manager.Prelude.{
  ℕ, inl, inr, refl, Option, none, some, Text-eq, arith, ltb, Option-cases, Bool-cases,
}
use kmonad_device_manager.Supervisor.{
  ProcessState, ValidatedConfig, Worker, perform, transition_phase, phase_validating,
}
use kmonad_device_manager.Supervisor.Process.{forget_process}
use kmonad_device_manager.Supervisor.Start.{
  validate_config_snapshot, launch, validation_failed, start_config, move_to,
}
use kmonad_device_manager.Supervisor.Reconcile.{
  Pass, start_or_wait, check_exit, retry_with, exit_reason,
}
use kmonad_device_manager.Supervisor.Allowed.{
  Validation-cases, exit_effects, IsApproved, HasPid, Allows, quiet, Allows-trans, same_worker,
  launch-Allows, validated_signature, validation-Allows, ApprovedOption, failed-Allows,
}

module _ (pass : Pass) (w : Worker) where
  pub launch_after :
      (int63n : ℕ → ℕ) (v : ValidatedConfig) (x y : Worker)
      → IsApproved pass w v
      → Allows pass w x y
      → Allows pass w x (launch int63n pass.host pass.now pass.signature v y)
  launch_after int63n v x y approved a =
      Allows-trans pass w x y (launch int63n pass.host pass.now pass.signature v y) a
        (launch-Allows pass w int63n v y approved)

  pub start_config-Allows :
      (int63n : ℕ → ℕ) (validation : Option ValidatedConfig) (x : Worker)
      → ApprovedOption pass w validation
      → Allows pass w x
          (start_config int63n pass.validation pass.host pass.now pass.signature validation x)
  unfolding start_config
  start_config-Allows int63n (some v) x approved =
      let begun = move_to x (transition_phase phase_validating x.state).1 in
      launch_after int63n v x begun approved (quiet pass w x begun refl)
  start_config-Allows int63n none x approved =
      let begun = move_to x (transition_phase phase_validating x.state).1 in
      let checked = validate_config_snapshot pass.validation pass.signature in
      let read = perform checked.1 begun in
      let a = validation-Allows pass w begun in
      elim (Validation-cases checked.0) [
        | inl (e, f) ↦
            same_worker pass w x (validation_failed int63n pass.now e read)
              (start_config int63n pass.validation pass.host pass.now pass.signature none x)
              (ground (arith, f))
              (Allows-trans pass w x read (validation_failed int63n pass.now e read) a
                (failed-Allows pass w int63n e read))
        | inr (v, f) ↦
            same_worker pass w x (launch int63n pass.host pass.now pass.signature v read)
              (start_config int63n pass.validation pass.host pass.now pass.signature none x)
              (ground (arith, f))
              (launch_after int63n v x read (inr f, validated_signature pass w v f) a)
      ]

  pub start_or_wait-Allows :
      (int63n : ℕ → ℕ) (timeout : ℕ) (validation : Option ValidatedConfig) (x : Worker)
      → ApprovedOption pass w validation
      → Allows pass w x (start_or_wait int63n timeout pass validation x)
  unfolding start_or_wait
  start_or_wait-Allows int63n timeout validation x approved =
      elim (Bool-cases (ltb pass.now x.state.retry_after)) [
        | inl early ↦
            quiet pass w x (start_or_wait int63n timeout pass validation x) (ground (arith, early))
        | inr due ↦
            same_worker pass w x
              (start_config int63n pass.validation pass.host pass.now pass.signature validation x)
              (start_or_wait int63n timeout pass validation x) (ground (arith, due))
              (start_config-Allows int63n validation x approved)
      ]

  pub check_exit-Allows :
      (int63n : ℕ → ℕ) (timeout : ℕ) (validation : Option ValidatedConfig) (p : ProcessState)
      (x : Worker)
      → ApprovedOption pass w validation
      → HasPid w p.pid
      → Allows pass w x (check_exit int63n timeout pass validation p x)
  unfolding check_exit
  check_exit-Allows int63n timeout validation p x approved mine = elim (Option-cases pass.exit) [
    | inl alive ↦
        quiet pass w x (check_exit int63n timeout pass validation p x) (ground (arith, alive))
    | inr (e, gone) ↦
        let ended = perform (exit_effects p) (move_to x (forget_process x.state)) in
        let retried = retry_with int63n timeout pass (exit_reason e) ended in
        same_worker pass w x (start_or_wait int63n timeout pass validation retried)
          (check_exit int63n timeout pass validation p x) (ground (arith, gone))
          (Allows-trans pass w x retried (start_or_wait int63n timeout pass validation retried)
            (exit_effects p, refl, ((mine, ground (arith, gone)), (tt, (tt, (tt, tt)))))
            (start_or_wait-Allows int63n timeout validation retried approved))
  ]
