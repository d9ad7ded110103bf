-- ===== src/Supervisor/Watchdog.antt =====
-- The watchdog of internal/manager/supervisor.go over several passes: what becomes of a process that
-- every pass finds unhealthy.
use kmonad_device_manager.Prelude.{
  ℕ, ◌+◌, ◌-◌, ◌≤◌, ◌<◌, ◌≡◌, ◌⊎◌, inl, inr, refl, subst, true, false, none, some, List, [], ◌∷◌,
  ◌++◌, Text-eq, arith, leb, ◌==◌, if◌then◌else◌, Bool-cases, All,
}
use kmonad_device_manager.Prelude.Dict.{lookup}
use kmonad_device_manager.Supervisor.{
  ProcessState, Worker, Effect, terminated, killed, snapshot_removed, cgroup_removed, handle_closed,
  transition_phase, schedule_retry, retry_delay,
}
use kmonad_device_manager.Supervisor.Process.{
  owns_process, process_healthy, stop_process, take_prevalidated,
}
use kmonad_device_manager.Supervisor.Reconcile.{
  Pass, has_changed, run_process, apply_change, watch, check_exit, reconcile_config,
}

-- The pass finds the configuration as it was, and its process unhealthy and not ended.
abbrev pub FindsIll : Worker → ProcessState → Pass → Type 0
FindsIll w p pass =
    (has_changed pass w.state ≡ false)
    × (lookup pass.config w.prevalidated ≡ none)
    × (process_healthy pass.observed p ≡ false)
    × (pass.exit ≡ none)

-- A process that is still the one that was started is told to end, and killed if it does not end in
-- time; then its handle is closed, and its snapshot and its cgroup are removed.
abbrev pub stop_effects : Pass → ProcessState → List Effect
stop_effects pass p =
    (if owns_process pass.observed p
      then (if pass.observed.done_in_time
          then terminated p.pid ∷ []
          else terminated p.pid ∷ killed p.pid ∷ [])
      else [])
    ++ (handle_closed p.pid ∷ snapshot_removed p.launch_path ∷ cgroup_removed p.cgroup_path ∷ [])

abbrev since : ℕ → ProcessState → ProcessState
since n p = record p { unhealthy_since = n }

-- The configuration is as it was at first, but for the time since when its process is unhealthy, and
-- for a back-off that a long run has reset.
record Keeps (w : Worker) (p : ProcessState) (n : ℕ) (x : Worker) : Type 0 where
  has_process : x.state.process ≡ some (since n p)
  same_device : x.state.device_id ≡ w.state.device_id
  same_signature : x.state.signature ≡ w.state.signature
  same_prevalidated : x.prevalidated ≡ w.prevalidated
  is_silent : x.effects ≡ w.effects

module _ (int63n : ℕ → ℕ) (watchdog_timeout : ℕ) where
  -- The pass stops the process, and has done nothing else since the effects `before`; the next start
  -- waits for a retry.
  abbrev pub Stops : List Effect → ProcessState → Pass → Worker → Type 0
  Stops before p pass after =
      (after.effects ≡ before ++ stop_effects pass p)
      × (after.state.process ≡ none)
      × (0 < after.state.failures)
      × (after.state.retry_after ≡ pass.now + retry_delay int63n after.state.failures)

  -- One of the passes stops the process.
  abbrev pub IsStoppedIn : List Effect → ProcessState → List Pass → Worker → Type 0
  IsStoppedIn before p [] x = ⊥
  IsStoppedIn before p (pass ∷ passes) x =
      let after = reconcile_config int63n watchdog_timeout pass x in
      Stops before p pass after ⊎ IsStoppedIn before p passes after

  overdue-Stops :
      (w x : Worker) (p : ProcessState) (n : ℕ) (pass : Pass)
      → Keeps w p n x
      → FindsIll w p pass
      → 0 < n
      → leb watchdog_timeout (pass.now - n) ≡ true
      → Stops w.effects p pass (reconcile_config int63n watchdog_timeout pass x)
  unfolding reconcile_config take_prevalidated apply_change run_process watch stop_process
      schedule_retry transition_phase process_healthy owns_process
  overdue-Stops w x p n pass k ill positive late = ground (
    arith, k.has_process, k.same_device, k.same_signature, k.same_prevalidated, k.is_silent, ill,
    positive, late,
  )

  early-Keeps :
      (w x : Worker) (p : ProcessState) (n : ℕ) (pass : Pass)
      → Keeps w p n x
      → FindsIll w p pass
      → 0 < n
      → leb watchdog_timeout (pass.now - n) ≡ false
      → Keeps w p n (reconcile_config int63n watchdog_timeout pass x)
  unfolding reconcile_config take_prevalidated apply_change run_process watch check_exit
      process_healthy owns_process
  early-Keeps w x p n pass k ill positive early = record {
    has_process = ground (
      arith, k.has_process, k.same_device, k.same_signature, k.same_prevalidated, k.is_silent, ill,
      positive, early,
    );
    same_device = ground (
      arith, k.has_process, k.same_device, k.same_signature, k.same_prevalidated, k.is_silent, ill,
      positive, early,
    );
    same_signature = ground (
      arith, k.has_process, k.same_device, k.same_signature, k.same_prevalidated, k.is_silent, ill,
      positive, early,
    );
    same_prevalidated = ground (
      arith, k.has_process, k.same_device, k.same_signature, k.same_prevalidated, k.is_silent, ill,
      positive, early,
    );
    is_silent = ground (
      arith, k.has_process, k.same_device, k.same_signature, k.same_prevalidated, k.is_silent, ill,
      positive, early,
    );
  }

  first-Keeps :
      (w x : Worker) (p : ProcessState) (pass : Pass)
      → Keeps w p 0 x
      → FindsIll w p pass
      → Keeps w p pass.now (reconcile_config int63n watchdog_timeout pass x)
  unfolding reconcile_config take_prevalidated apply_change run_process watch check_exit
      process_healthy owns_process
  first-Keeps w x p pass k ill = record {
    has_process = ground (
      arith, k.has_process, k.same_device, k.same_signature, k.same_prevalidated, k.is_silent, ill,
    );
    same_device = ground (
      arith, k.has_process, k.same_device, k.same_signature, k.same_prevalidated, k.is_silent, ill,
    );
    same_signature = ground (
      arith, k.has_process, k.same_device, k.same_signature, k.same_prevalidated, k.is_silent, ill,
    );
    same_prevalidated = ground (
      arith, k.has_process, k.same_device, k.same_signature, k.same_prevalidated, k.is_silent, ill,
    );
    is_silent = ground (
      arith, k.has_process, k.same_device, k.same_signature, k.same_prevalidated, k.is_silent, ill,
    );
  }

  stopped_later :
      (w x : Worker) (p : ProcessState) (n : ℕ) (passes : List Pass) (last : Pass)
      → Keeps w p n x
      → 0 < n
      → n + watchdog_timeout ≤ last.now
      → All (FindsIll w p) passes
      → FindsIll w p last
      → IsStoppedIn w.effects p (passes ++ last ∷ []) x
  stopped_later w x p n [] last k positive long ills ill =
      inl (overdue-Stops w x p n last k ill positive (ground (arith, long)))
  stopped_later w x p n (pass ∷ passes) last k positive long ills ill =
      let after = reconcile_config int63n watchdog_timeout pass x in
      elim (Bool-cases (leb watchdog_timeout (pass.now - n))) [
        | inl late ↦ inl (overdue-Stops w x p n pass k ills.0 positive late)
        | inr early ↦ inr (
            stopped_later w after p n passes last (early-Keeps w x p n pass k ills.0 positive early)
              positive long ills.1 ill)
      ]

  -- A process that every pass finds unhealthy, and not ended, in a configuration that does not change,
  -- is stopped by one of the passes at the latest when the watchdog's time has gone by since the
  -- first of them: until then nothing is done, and then the process is told to end if it is still
  -- the one that was started, killed if it does not end in time, and its handle, snapshot and cgroup
  -- are released; the configuration has no process and waits for a retry.
  pub unhealthy_process_is_stopped :
      (w : Worker) (p : ProcessState) (first : Pass) (between : List Pass) (last : Pass)
      → w.state.process ≡ some p
      → 0 < first.now
      → p.unhealthy_since ≤ first.now
      → first.now + watchdog_timeout ≤ last.now
      → FindsIll w p first
      → All (FindsIll w p) between
      → FindsIll w p last
      → IsStoppedIn w.effects p (first ∷ (between ++ last ∷ [])) w
  unhealthy_process_is_stopped w p first between last busy positive earlier long ill ills still =
      let begun : Keeps w p p.unhealthy_since w = record {
        has_process = busy;
        same_device = refl;
        same_signature = refl;
        same_prevalidated = refl;
        is_silent = refl;
      } in
      elim (Bool-cases (p.unhealthy_since == 0)) [
        | inl healthy ↦
            let fresh : Keeps w p 0 w =
              subst (λ (n : ℕ). Keeps w p n w) (ground (arith, healthy)) begun in
            inr (
              stopped_later w (reconcile_config int63n watchdog_timeout first w) p first.now between
                last (first-Keeps w w p first fresh ill) positive long ills still)
        | inr unhealthy ↦
            stopped_later w w p p.unhealthy_since (first ∷ between) last begun
              (ground (arith, unhealthy)) (omega (arith, earlier, long)) (ill, ills) still
      ]
