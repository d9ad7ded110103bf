-- ===== src/Supervisor/Sweep/Frame.antt =====
-- What one step of the loop in `reconcile` of internal/manager/supervisor.go leaves alone: the states
-- of the other configurations.
use kmonad_device_manager.Prelude.{
  ℕ, ◌≡◌, inl, inr, false, none, Text, Text-eq, text_eq, text_eq_iff, arith, Option-cases,
  if◌then◌else◌,
}
use kmonad_device_manager.Prelude.Dict.{Dict, lookup, insert, lookup-insert, lookup-delete}
use kmonad_device_manager.Supervisor.{ConfigState, transition_phase, phase_duplicate}
use kmonad_device_manager.Supervisor.Process.{stop_process, to_stopped}
use kmonad_device_manager.Supervisor.Allowed.{ReadResult-cases}
use kmonad_device_manager.Supervisor.Sweep.{
  Fleet, worker_of, Visit, Round, Claims, stop_and_delete, pause_config, note_duplicate,
  run_claimed, claim_device, read_device, read_file, visit,
}

pub lookup-stop_and_delete :
    (round : Round) (config k : Text) (f : Fleet)
    → lookup k (stop_and_delete round config f).states
      ≡ (if text_eq config k then none else lookup k f.states)
unfolding stop_and_delete
lookup-stop_and_delete round config k f = elim (Option-cases (lookup config f.states)) [
  | inl e ↦ ground (arith, e, text_eq_iff config k)
  | inr (s, e) ↦ ground (arith, e, lookup-delete config k f.states)
]

-- A visit concerns one configuration.
abbrev pub SameFor : Text → Fleet → Fleet → Type 0
SameFor k f g = lookup k g.states ≡ lookup k f.states

lookup-put :
    (config k : Text) (s : ConfigState) (states : Dict Text ConfigState)
    → text_eq config k ≡ false
    → lookup k (insert config s states) ≡ lookup k states
lookup-put config k s states other = ground (arith, lookup-insert config k s states)

pub stop_and_delete-SameFor :
    (round : Round) (config k : Text) (f : Fleet)
    → text_eq config k ≡ false
    → SameFor k f (stop_and_delete round config f)
stop_and_delete-SameFor round config k f other =
    ground (arith, lookup-stop_and_delete round config k f)

pub pause_config-SameFor :
    (round : Round) (config k : Text) (f : Fleet)
    → text_eq config k ≡ false
    → SameFor k f (pause_config round config f)
unfolding pause_config
pause_config-SameFor round config k f other = elim (Option-cases (lookup config f.states)) [
  | inl e ↦ ground (arith, e)
  | inr (s, e) ↦
      let w = stop_process (round.observe config) (worker_of s f) in
      ground (arith, e, lookup-put config k (to_stopped w.state) f.states other)
]

note_duplicate-SameFor :
    (config identity k : Text) (f : Fleet)
    → text_eq config k ≡ false
    → SameFor k f (note_duplicate config identity f)
unfolding note_duplicate
note_duplicate-SameFor config identity k f other = elim (Option-cases (lookup config f.states)) [
  | inl e ↦ ground (arith, e)
  | inr (s, e) ↦
      ground (arith, e, lookup-put config k (transition_phase phase_duplicate s).1 f.states other)
]

module _ (int63n : ℕ → ℕ) (watchdog_timeout : ℕ) (round : Round) where
  pub run_claimed-SameFor :
      (v : Visit) (signature identity k : Text) (f : Fleet)
      → text_eq v.config k ≡ false
      → SameFor k f (run_claimed int63n watchdog_timeout round v signature identity f)
  unfolding run_claimed
  run_claimed-SameFor v signature identity k f other = lookup-put v.config k _ f.states other

  claim_device-SameFor :
      (v : Visit) (signature identity k : Text) (active : Claims) (f : Fleet)
      → text_eq v.config k ≡ false
      → SameFor k f (claim_device int63n watchdog_timeout round v signature identity active f).1
  unfolding claim_device
  claim_device-SameFor v signature identity k active f other =
      let noted = note_duplicate v.config identity f in
      ground (
        arith,
        pause_config-SameFor round v.config k f other,
        stop_and_delete-SameFor round v.config k noted other,
        note_duplicate-SameFor v.config identity k f other,
        run_claimed-SameFor v signature identity k f other,
      )

  read_device-SameFor :
      (v : Visit) (signature k : Text) (active : Claims) (f : Fleet)
      → text_eq v.config k ≡ false
      → SameFor k f (read_device int63n watchdog_timeout round v signature active f).1
  unfolding read_device
  read_device-SameFor v signature k active f other = elim (Option-cases v.identity) [
    | inl e ↦ ground (arith, e, stop_and_delete-SameFor round v.config k f other)
    | inr (identity, e) ↦ ground (
      arith,
      e,
      stop_and_delete-SameFor round v.config k f other,
      claim_device-SameFor v signature identity k active f other,
    )
  ]

  read_file-SameFor :
      (v : Visit) (k : Text) (active : Claims) (f : Fleet)
      → text_eq v.config k ≡ false
      → SameFor k f (read_file int63n watchdog_timeout round v active f).1
  unfolding read_file
  read_file-SameFor v k active f other = elim (ReadResult-cases v.file) [
    | inr (device, signature, e) ↦
        ground (arith, e, read_device-SameFor v signature k active f other)
    | inl (failure, e) ↦ ground (arith, e, stop_and_delete-SameFor round v.config k f other)
  ]

  pub visit-SameFor :
      (count : ℕ) (v : Visit) (k : Text) (active : Claims) (f : Fleet)
      → text_eq v.config k ≡ false
      → SameFor k f (visit int63n watchdog_timeout round count v active f).1
  unfolding visit
  visit-SameFor count v k active f other = ground (
    arith,
    stop_and_delete-SameFor round v.config k f other,
    read_file-SameFor v k active f other,
  )
