-- ===== src/Supervisor/Sweep/Claims.antt =====
-- What `activeDevices` in `reconcile` of internal/manager/supervisor.go knows after each visit: the
-- configuration of every process whose device is the one that its file names.
use kmonad_device_manager.Prelude.{
  false, ℕ, ◌+◌, ◌≡◌, ◌≢◌, inl, inr, none, some, [], ◌∷◌, List, Text, Text-eq, text_eq_iff, arith,
  Option-cases,
}
use kmonad_device_manager.Prelude.Dict.{lookup, lookup-insert}
use kmonad_device_manager.Supervisor.{ConfigState, ProcessState, Worker, transition_phase}
use kmonad_device_manager.Supervisor.Process.{Observation, stop_process, to_stopped}
use kmonad_device_manager.Supervisor.Start.{read}
use kmonad_device_manager.Supervisor.Allowed.{ReadResult-cases}
use kmonad_device_manager.Supervisor.Sweep.{
  is_on, Fleet, worker_of, Visit, Round, Claims, stop_and_delete, pause_config, note_duplicate,
  claim_device, read_device, read_file, visit, visit_all,
}
use kmonad_device_manager.Supervisor.Sweep.Frame.{lookup-stop_and_delete}

-- The configuration has a process, on the device that its file, read whole, names.
pub record IsSettled (v : Visit) (f : Fleet) : Type 0 where
  pub state : ConfigState
  pub process : ProcessState
  pub device : Text
  pub signature : Text
  pub is_kept : lookup v.config f.states ≡ some state
  pub is_running : state.process ≡ some process
  pub is_read : v.file ≡ read device signature
  pub is_same : v.identity ≡ some state.device_id

-- Nothing that is claimed is given away.
abbrev pub Extends : Claims → Claims → Type 0
Extends before after =
    (device config : Text) → lookup device before ≡ some config → lookup device after ≡ some config

stop_process-idle : (o : Observation) (w : Worker) → (stop_process o w).state.process ≡ none
unfolding stop_process transition_phase
stop_process-idle o w = ground arith

paused_is_idle :
    (round : Round) (config : Text) (f : Fleet) (s : ConfigState)
    → lookup config (pause_config round config f).states ≡ some s
    → s.process ≡ none
unfolding pause_config transition_phase
paused_is_idle round config f s e = elim (Option-cases (lookup config f.states)) [
  | inl absent ↦ ground (arith, absent)
  | inr (t, present) ↦
      let w = stop_process (round.observe config) (worker_of t f) in
      ground (
        arith,
        present,
        lookup-insert config config (to_stopped w.state) f.states,
        stop_process-idle (round.observe config) (worker_of t f),
        text_eq_iff config config,
      )
]

stopped_is_unsettled :
    (round : Round) (v : Visit) (f : Fleet) (s : ConfigState)
    → lookup v.config (stop_and_delete round v.config f).states ≢ some s
stopped_is_unsettled round v f s e =
    ground (arith, lookup-stop_and_delete round v.config v.config f, text_eq_iff v.config v.config)

module _ (int63n : ℕ → ℕ) (watchdog_timeout : ℕ) (round : Round) where
  claim_device-Extends :
      (v : Visit) (signature identity : Text) (active : Claims) (f : Fleet)
      → Extends active (claim_device int63n watchdog_timeout round v signature identity active f).0
  unfolding claim_device
  claim_device-Extends v signature identity active f device config e =
      ground (arith, lookup-insert identity device v.config active, text_eq_iff identity device)

  visit-Extends :
      (count : ℕ) (v : Visit) (active : Claims) (f : Fleet)
      → Extends active (visit int63n watchdog_timeout round count v active f).0
  unfolding visit read_file read_device
  visit-Extends count v active f device config e = elim (ReadResult-cases v.file) [
    | inl (failure, unreadable) ↦ ground (arith, unreadable)
    | inr (path, signature, readable) ↦ elim (Option-cases v.identity) [
      | inl unknown ↦ ground (arith, readable, unknown)
      | inr (identity, known) ↦ ground (
        arith,
        readable,
        known,
        claim_device-Extends v signature identity active f device config e,
      )
    ]
  ]

  pub visit_all-Extends :
      (vs : List Visit) (count : ℕ) (active : Claims) (f : Fleet)
      → Extends active (visit_all int63n watchdog_timeout round count vs active f).0
  unfolding visit_all
  visit_all-Extends [] count active f device config e = e
  visit_all-Extends (v ∷ vs) count active f device config e =
      let (active', f') = visit int63n watchdog_timeout round (count + 1) v active f in
      visit_all-Extends vs (count + 1) active' f' device config
        (visit-Extends (count + 1) v active f device config e)

  claim_device-claimed :
      (v : Visit) (signature identity : Text) (active : Claims) (f : Fleet) (s : ConfigState)
      (p : ProcessState)
      → let claimed = claim_device int63n watchdog_timeout round v signature identity active f in
        lookup v.config claimed.1.states ≡ some s
        → s.process ≡ some p
        → lookup identity claimed.0 ≡ some v.config
  unfolding claim_device
  claim_device-claimed v signature identity active f s p kept running =
      let noted = note_duplicate v.config identity f in
      ground (
        arith,
        paused_is_idle round v.config f s,
        stopped_is_unsettled round v noted s,
        lookup-insert identity identity v.config active,
        text_eq_iff identity identity,
      )

  -- A process that is settled after its visit has its device claimed.
  pub visit-claimed :
      (count : ℕ) (v : Visit) (active : Claims) (f : Fleet)
      (settled : IsSettled v (visit int63n watchdog_timeout round count v active f).1)
      → lookup settled.state.device_id (visit int63n watchdog_timeout round count v active f).0
        ≡ some v.config
  unfolding visit read_file read_device
  visit-claimed count v active f settled =
      let s = settled.state in
      ground (
        arith,
        settled.is_kept,
        settled.is_running,
        settled.is_read,
        settled.is_same,
        stopped_is_unsettled round v f s,
        claim_device-claimed v settled.signature s.device_id active f s settled.process,
      )

  claim_device-unused :
      (v : Visit) (signature identity : Text) (active : Claims) (f : Fleet) (s : ConfigState)
      (p : ProcessState)
      → let claimed = claim_device int63n watchdog_timeout round v signature identity active f in
        lookup v.config claimed.1.states ≡ some s
        → s.process ≡ some p
        → (is_on round.identifying identity ≡ false) × (is_on round.probing identity ≡ false)
  unfolding claim_device
  claim_device-unused v signature identity active f s p kept running =
      ground (arith, paused_is_idle round v.config f s)

  -- The device of a process that is settled after its visit is used by no client.
  pub visit-unused :
      (count : ℕ) (v : Visit) (active : Claims) (f : Fleet)
      (settled : IsSettled v (visit int63n watchdog_timeout round count v active f).1)
      → (is_on round.identifying settled.state.device_id ≡ false)
        × (is_on round.probing settled.state.device_id ≡ false)
  unfolding visit read_file read_device
  visit-unused count v active f settled =
      let s = settled.state in
      ground (
        arith,
        settled.is_kept,
        settled.is_running,
        settled.is_read,
        settled.is_same,
        stopped_is_unsettled round v f s,
        claim_device-unused v settled.signature s.device_id active f s settled.process,
      )
