-- ===== src/Supervisor/Launched.antt =====
-- What one pass of internal/manager/supervisor.go may do to processes: the launches and the signals.
use kmonad_device_manager.Prelude.{ℕ, ◌≡◌, true, Option, none, some, Text-eq}
use kmonad_device_manager.Supervisor.{ValidatedConfig, Worker, perform}
use kmonad_device_manager.Supervisor.Start.{validated, invalid, validate_config_snapshot}
use kmonad_device_manager.Supervisor.Reconcile.{Pass, apply_change, keep_last_good}
use kmonad_device_manager.Supervisor.Allowed.{Allows, ApprovedOption}

module _ (pass : Pass) (w : Worker) where
  abbrev revalidate : (ℕ → ℕ) → ℕ → Option ValidatedConfig → Worker → Worker
  revalidate int63n timeout (some v) x = apply_change int63n timeout pass true (some v) x
  revalidate int63n timeout none x =
      let checked = validate_config_snapshot pass.validation pass.signature in
      elim checked.0 [
        | validated v ↦ apply_change int63n timeout pass true (some v) (perform checked.1 x)
        | invalid e ↦ keep_last_good int63n timeout pass e (perform checked.1 x)
      ]

  -- What was validated before is approved when it is taken.
  abbrev Takes : Option ValidatedConfig × Worker → Type 0
  Takes (validation, after) =
      Allows pass w w after × ApprovedOption pass w validation × (after.state ≡ w.state)
