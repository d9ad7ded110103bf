-- ===== src/Supervisor/Allowed.antt =====
-- What a pass of internal/manager/supervisor.go may do to processes, and its validation and launch.
use kmonad_device_manager.Prelude.{
  ℕ, ◌≡◌, ◌⊎◌, ◌||◌, not, inl, inr, refl, sym, ap, ◌∙◌, subst, true, Option, none, some, List, [],
  ◌∷◌, ◌++◌, Text, Text-eq, text_eq, text_eq_iff, arith, append-nil, append_assoc, All,
  Option-cases, Bool-cases, is_some,
}
use kmonad_device_manager.Prelude.Dict.{lookup}
use kmonad_device_manager.Supervisor.{
  ProcessState, ValidatedConfig, Worker, Effect, snapshot_removed, cgroup_removed, launched,
  terminated, killed, group_killed, handle_closed, perform,
}
use kmonad_device_manager.Supervisor.Process.{owns_process, stop_process, released}
use kmonad_device_manager.Supervisor.Start.{
  ValidationError, config_changed, disappeared, refused, Validation, validated, invalid,
  ValidationInputs, ReadResult, read, unread, SnapshotResult, snapshot_at, no_snapshot,
  snapshot_effects, dry_run_result, validate_config_snapshot, ChildResult, child_started,
  start_failed, launch, validation_failed, is_other_device,
}
use kmonad_device_manager.Supervisor.Reconcile.{Pass}

pub ChildResult-cases :
    (c : ChildResult)
    → ((reason : Text) × (c ≡ start_failed reason))
      ⊎ ((pid : ℕ) × (start_tick : ℕ) × (cgroup_error : Option Text) × (c
            ≡ child_started pid start_tick cgroup_error))
ChildResult-cases (start_failed reason) = inl (reason, refl)
ChildResult-cases (child_started pid start_tick cgroup_error) =
    inr (pid, start_tick, cgroup_error, refl)

pub ReadResult-cases :
    (r : ReadResult)
    → ((e : ValidationError) × (r ≡ unread e))
      ⊎ ((device : Text) × (signature : Text) × (r ≡ read device signature))
ReadResult-cases (unread e) = inl (e, refl)
ReadResult-cases (read device signature) = inr (device, signature, refl)

pub SnapshotResult-cases :
    (t : SnapshotResult)
    → ((e : ValidationError) × (t ≡ no_snapshot e)) ⊎ ((path : Text) × (t ≡ snapshot_at path))
SnapshotResult-cases (no_snapshot e) = inl (e, refl)
SnapshotResult-cases (snapshot_at path) = inr (path, refl)

pub Validation-cases :
    (r : Validation)
    → ((e : ValidationError) × (r ≡ invalid e)) ⊎ ((v : ValidatedConfig) × (r ≡ validated v))
Validation-cases (invalid e) = inl (e, refl)
Validation-cases (validated v) = inr (v, refl)

abbrev pub exit_effects : ProcessState → List Effect
exit_effects p =
    group_killed p.pid
    ∷ cgroup_removed p.cgroup_path
    ∷ handle_closed p.pid
    ∷ snapshot_removed p.launch_path
    ∷ []

-- A validation makes no snapshot, or one that it keeps or removes.
pub validation_effects :
    (inputs : ValidationInputs) (signature : Text)
    → ((validate_config_snapshot inputs signature).1 ≡ [])
      ⊎ ((path : Text) × (r : Validation) × ((validate_config_snapshot inputs signature).1
            ≡ snapshot_effects path r))
unfolding validate_config_snapshot
validation_effects inputs signature = elim (ReadResult-cases inputs.first_read) [
  | inl (e, f) ↦ inl (ground (arith, f))
  | inr (device, actual, f) ↦ elim (Bool-cases (text_eq actual signature)) [
    | inr other ↦ inl (ground (arith, f, other))
    | inl same ↦ elim (SnapshotResult-cases inputs.snapshot) [
      | inl (e, t) ↦ inl (ground (arith, f, same, t))
      | inr (path, t) ↦ inr (
        path,
        dry_run_result inputs.dry_run inputs.final_read
            (record { device = device; signature = actual; launch_path = path }),
        ground (arith, f, same, t),
      )
    ]
  ]
]

-- A configuration that was validated before, or in this pass, with the signature that the pass read.
abbrev pub IsApproved : Pass → Worker → ValidatedConfig → Type 0
IsApproved pass w v =
    ((lookup pass.config w.prevalidated ≡ some v)
      ⊎ ((validate_config_snapshot pass.validation pass.signature).0 ≡ validated v))
    × (v.signature ≡ pass.signature)

-- The process that the configuration has when the pass begins, still the one that was started.
abbrev pub IsOwned : Pass → Worker → ℕ → Type 0
IsOwned pass w pid =
    (p : ProcessState) × (w.state.process ≡ some p)
    × (p.pid ≡ pid)
    × (owns_process pass.observed p ≡ true)

-- A child that was started in this pass and could not be isolated.
abbrev pub IsUnisolated : Pass → ℕ → Type 0
IsUnisolated pass pid =
    (start_tick : ℕ) × (reason : Text) × (pass.host.child
      ≡ child_started pid start_tick (some reason))

-- The process ID that the configuration has when the pass begins.
abbrev pub HasPid : Worker → ℕ → Type 0
HasPid w pid = (p : ProcessState) × (w.state.process ≡ some p) × (p.pid ≡ pid)

abbrev pub IsAllowed : Pass → Worker → Effect → Type 0
IsAllowed pass w (launched path pid) =
    (v : ValidatedConfig) × IsApproved pass w v × (path ≡ v.launch_path)
IsAllowed pass w (terminated pid) = IsOwned pass w pid
IsAllowed pass w (killed pid) = IsOwned pass w pid ⊎ IsUnisolated pass pid
IsAllowed pass w (group_killed pid) = HasPid w pid × (is_some pass.exit ≡ true)
IsAllowed pass w _ = Unit

-- The effects between two workers are allowed.
abbrev pub Allows : Pass → Worker → Worker → Worker → Type 0
Allows pass w before after =
    (new : List Effect) × (after.effects ≡ before.effects ++ new) × All (IsAllowed pass w) new

pub All-append :
    (pass : Pass) (w : Worker) (xs ys : List Effect)
    → All (IsAllowed pass w) xs
    → All (IsAllowed pass w) ys
    → All (IsAllowed pass w) (xs ++ ys)
All-append pass w [] ys a b = b
All-append pass w (x ∷ xs) ys a b = (a.0, All-append pass w xs ys a.1 b)

module _ (pass : Pass) (w : Worker) where
  pub quiet : (before after : Worker) → after.effects ≡ before.effects → Allows pass w before after
  quiet before after e = ([], e ∙ sym (append-nil before.effects), tt)

  pub Allows-trans : (a b c : Worker) → Allows pass w a b → Allows pass w b c → Allows pass w a c
  Allows-trans a b c (xs, ex, ax) (ys, ey, ay) = (
    xs ++ ys,
    ey ∙ ap (λ es. es ++ ys) ex ∙ append_assoc a.effects xs ys,
    All-append pass w xs ys ax ay,
  )

  pub released-IsAllowed : (p : ProcessState) → All (IsAllowed pass w) (released p)
  released-IsAllowed p = (tt, (tt, (tt, tt)))

  pub same_worker : (a b c : Worker) → b ≡ c → Allows pass w a b → Allows pass w a c
  same_worker a b c e = subst (λ x. Allows pass w a x) e

  pub stop_process-Allows :
      (x : Worker)
      → x.state.process ≡ w.state.process
      → Allows pass w x (stop_process pass.observed x)
  unfolding stop_process
  stop_process-Allows x same = elim (Option-cases x.state.process) [
    | inl e ↦ quiet x (stop_process pass.observed x) (ground (arith, e))
    | inr (p, e) ↦ elim (Bool-cases (owns_process pass.observed p)) [
      | inr lost ↦ (released p, ground (arith, e, lost), released-IsAllowed p)
      | inl owned ↦
          let mine : IsOwned pass w p.pid = (p, sym same ∙ e, refl, owned) in
          elim (Bool-cases pass.observed.done_in_time) [
            | inl in_time ↦ (
              terminated p.pid ∷ released p,
              ground (arith, e, owned, in_time),
              (mine, released-IsAllowed p),
            )
            | inr late ↦ (
              terminated p.pid ∷ killed p.pid ∷ released p,
              ground (arith, e, owned, late),
              (mine, (inl mine, released-IsAllowed p)),
            )
          ]
    ]
  ]

  pub launch-Allows :
      (int63n : ℕ → ℕ) (v : ValidatedConfig) (x : Worker)
      → IsApproved pass w v
      → Allows pass w x (launch int63n pass.host pass.now pass.signature v x)
  unfolding launch
  launch-Allows int63n v x approved =
      elim (Bool-cases (
        not pass.host.device_ready
        || is_other_device pass.host.device_identity x.state.device_id)) [
          | inl gone ↦ (snapshot_removed v.launch_path ∷ [], ground (arith, gone), (tt, tt))
          | inr here ↦ elim (ChildResult-cases pass.host.child) [
            | inl (reason, e) ↦
                (snapshot_removed v.launch_path ∷ [], ground (arith, here, e), (tt, tt))
            | inr (pid, start_tick, cgroup_error, e) ↦ elim (Option-cases cgroup_error) [
              | inl isolated ↦ (
                launched v.launch_path pid ∷ [],
                ground (arith, here, e, isolated),
                ((v, approved, refl), tt),
              )
              | inr (reason, f) ↦ (
                launched v.launch_path pid
                    ∷ killed pid
                    ∷ handle_closed pid
                    ∷ snapshot_removed v.launch_path
                    ∷ [],
                ground (arith, here, e, f),
                (
                  (v, approved, refl),
                  (
                    inr (start_tick, reason, e ∙ ap (child_started pid start_tick) f),
                    (tt, (tt, tt)),
                  ),
                ),
              )
            ]
          ]
        ]

  pub validated_signature :
      (v : ValidatedConfig)
      → (validate_config_snapshot pass.validation pass.signature).0 ≡ validated v
      → v.signature ≡ pass.signature
  unfolding validate_config_snapshot
  validated_signature v e = elim (ReadResult-cases pass.validation.first_read) [
    | inl (reason, f) ↦ absurd (ground (arith, f))
    | inr (device, signature, f) ↦ ground (arith, f, text_eq_iff signature pass.signature)
  ]

  pub snapshot_effects-IsAllowed :
      (path : Text) (r : Validation) → All (IsAllowed pass w) (snapshot_effects path r)
  snapshot_effects-IsAllowed path (validated v) = (tt, tt)
  snapshot_effects-IsAllowed path (invalid e) = (tt, (tt, tt))

  pub validation-Allows :
      (x : Worker)
      → Allows pass w x (perform (validate_config_snapshot pass.validation pass.signature).1 x)
  validation-Allows x = elim (validation_effects pass.validation pass.signature) [
    | inl none_made ↦ ([], ap (λ es. x.effects ++ es) none_made, tt)
    | inr (path, r, made) ↦ (
      snapshot_effects path r,
      ap (λ es. x.effects ++ es) made,
      snapshot_effects-IsAllowed path r,
    )
  ]

  abbrev pub ApprovedOption : Option ValidatedConfig → Type 0
  ApprovedOption none = Unit
  ApprovedOption (some v) = IsApproved pass w v

  pub failed-Allows :
      (int63n : ℕ → ℕ) (e : ValidationError) (x : Worker)
      → Allows pass w x (validation_failed int63n pass.now e x)
  unfolding validation_failed
  failed-Allows int63n config_changed x =
      quiet x (validation_failed int63n pass.now config_changed x) refl
  failed-Allows int63n (disappeared reason) x =
      quiet x (validation_failed int63n pass.now (disappeared reason) x) refl
  failed-Allows int63n (refused reason) x =
      quiet x (validation_failed int63n pass.now (refused reason) x) refl
