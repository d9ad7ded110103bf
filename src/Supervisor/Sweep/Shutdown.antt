-- ===== src/Supervisor/Sweep/Shutdown.antt =====
-- What `cleanup` of internal/manager/supervisor.go leaves behind at the end of the service.
use kmonad_device_manager.Prelude.{
  ◌≡◌, refl, inl, inr, Option, none, some, [], ◌∷◌, ◌++◌, List, Text, arith, Option-cases, All,
  if◌then◌else◌, not, append-nil, append_assoc, ◌∙◌, ap, subst, sym,
}
use kmonad_device_manager.Prelude.Dict.{Dict}
use kmonad_device_manager.Supervisor.{
  ConfigState, ProcessState, ValidatedConfig, Worker, Effect, snapshot_removed, cgroup_removed,
  handle_closed, terminated, killed,
}
use kmonad_device_manager.Supervisor.Process.{Observation, owns_process, stop_process, released}
use kmonad_device_manager.Supervisor.Sweep.{
  Fleet, worker_of, counted, Round, stop_states, discard_all, cleanup,
}
use kmonad_device_manager.Supervisor.Sweep.Exclusive.{stop_states-states}

-- The effect is one of those that were performed.
pub data Performed (e : Effect) : List Effect → Type 0 where
  here : {rest : List Effect} → Performed e (e ∷ rest)
  later : {x : Effect} {rest : List Effect} → Performed e rest → Performed e (x ∷ rest)

Performed-before :
    (e : Effect) (before after : List Effect) → Performed e before → Performed e (before ++ after)
Performed-before e [] after p = elim p [ ]
Performed-before e (_ ∷ rest) after here = here
Performed-before e (_ ∷ rest) after (later p) = later (Performed-before e rest after p)

Performed-after :
    (e : Effect) (before after : List Effect) → Performed e after → Performed e (before ++ after)
Performed-after e [] after p = p
Performed-after e (x ∷ rest) after p = later (Performed-after e rest after p)

-- The handle, the snapshot and the cgroup of the process are given back.
pub record IsReleased (p : ProcessState) (effects : List Effect) : Type 0 where
  pub handle : Performed (handle_closed p.pid) effects
  pub snapshot : Performed (snapshot_removed p.launch_path) effects
  pub cgroup : Performed (cgroup_removed p.cgroup_path) effects

-- What a process that is stopped is sent first.
abbrev signals : Observation → ProcessState → List Effect
signals o p =
    if not (owns_process o p)
    then []
    else if o.done_in_time
    then terminated p.pid ∷ []
    else terminated p.pid ∷ killed p.pid ∷ []

stop_process-effects :
    (o : Observation) (w : Worker) (p : ProcessState)
    → w.state.process ≡ some p
    → (stop_process o w).effects ≡ w.effects ++ (signals o p ++ released p)
unfolding stop_process
stop_process-effects o w p running = ground (arith, running)

released-IsReleased : (p : ProcessState) → IsReleased p (released p)
released-IsReleased p = record { handle = here; snapshot = later here; cgroup = later (later here) }

IsReleased-before :
    (p : ProcessState) (before after : List Effect)
    → IsReleased p before
    → IsReleased p (before ++ after)
IsReleased-before p before after r = record {
  handle = Performed-before _ before after r.handle;
  snapshot = Performed-before _ before after r.snapshot;
  cgroup = Performed-before _ before after r.cgroup;
}

IsReleased-after :
    (p : ProcessState) (before after : List Effect)
    → IsReleased p after
    → IsReleased p (before ++ after)
IsReleased-after p before after r = record {
  handle = Performed-after _ before after r.handle;
  snapshot = Performed-after _ before after r.snapshot;
  cgroup = Performed-after _ before after r.cgroup;
}

stop_process-prevalidated :
    (o : Observation) (w : Worker) → (stop_process o w).prevalidated ≡ w.prevalidated
unfolding stop_process
stop_process-prevalidated o w = ground arith

stop_states-prevalidated :
    (round : Round) (doomed : Dict Text ConfigState) (f : Fleet)
    → (stop_states round doomed f).prevalidated ≡ f.prevalidated
unfolding stop_states
stop_states-prevalidated round [] f = refl
stop_states-prevalidated round ((config, state) ∷ rest) f =
    let w = stop_process (round.observe config) (worker_of state f) in
    stop_states-prevalidated round rest (counted w f)
    ∙ stop_process-prevalidated (round.observe config) (worker_of state f)

-- A stop adds to what was done.
stop_process-adds :
    (o : Observation) (w : Worker)
    → (added : List Effect) × ((stop_process o w).effects ≡ w.effects ++ added)
stop_process-adds o w = elim (Option-cases w.state.process) [
  | inl idle ↦ ([], unfold stop_process in ground (arith, idle, append-nil w.effects))
  | inr (p, running) ↦ (signals o p ++ released p, stop_process-effects o w p running)
]

stop_states-adds :
    (round : Round) (doomed : Dict Text ConfigState) (f : Fleet)
    → (added : List Effect) × ((stop_states round doomed f).effects ≡ f.effects ++ added)
unfolding stop_states
stop_states-adds round [] f = ([], sym (append-nil f.effects))
stop_states-adds round ((config, state) ∷ rest) f =
    let w = stop_process (round.observe config) (worker_of state f) in
    let (now_done, e) = stop_process-adds (round.observe config) (worker_of state f) in
    let (then_done, d) = stop_states-adds round rest (counted w f) in
    (
      now_done ++ then_done,
      d ∙ ap (λ (es : List Effect). es ++ then_done) e ∙ append_assoc f.effects now_done then_done,
    )

-- A configuration with no process has nothing to give back.
abbrev pub IsReleasedOption : List Effect → Option ProcessState → Type 0
IsReleasedOption effects none = Unit {0}
IsReleasedOption effects (some p) = IsReleased p effects

stop_process-IsReleasedOption :
    (o : Observation) (w : Worker) → IsReleasedOption (stop_process o w).effects w.state.process
stop_process-IsReleasedOption o w = elim (Option-cases w.state.process) [
  | inl idle ↦ subst (IsReleasedOption (stop_process o w).effects) (sym idle) tt
  | inr (p, running) ↦ subst (IsReleasedOption (stop_process o w).effects) (sym running) (
      subst (IsReleased p) (sym (stop_process-effects o w p running)) (
        IsReleased-after p w.effects (signals o p ++ released p)
          (IsReleased-after p (signals o p) (released p) (released-IsReleased p))))
]

IsReleasedOption-before :
    (process : Option ProcessState) (before after : List Effect)
    → IsReleasedOption before process
    → IsReleasedOption (before ++ after) process
IsReleasedOption-before none before after r = tt
IsReleasedOption-before (some p) before after r = IsReleased-before p before after r

abbrev pub AllReleased : List Effect → Dict Text ConfigState → Type 0
AllReleased effects states =
    All (λ (entry : Text × ConfigState). IsReleasedOption effects entry.1.process) states

stop_states-AllReleased :
    (round : Round) (doomed : Dict Text ConfigState) (f : Fleet)
    → AllReleased (stop_states round doomed f).effects doomed
unfolding stop_states
stop_states-AllReleased round [] f = tt
stop_states-AllReleased round ((config, state) ∷ rest) f =
    let o = round.observe config in
    let w = stop_process o (worker_of state f) in
    let (more, d) = stop_states-adds round rest (counted w f) in
    (
      subst (λ (es : List Effect). IsReleasedOption es state.process) (sym d)
          (IsReleasedOption-before state.process w.effects more
            (stop_process-IsReleasedOption o (worker_of state f))),
      stop_states-AllReleased round rest (counted w f),
    )

abbrev pub AllDiscarded : List Effect → Dict Text ValidatedConfig → Type 0
AllDiscarded effects validations =
    All
      (λ (entry : Text × ValidatedConfig). Performed (snapshot_removed entry.1.launch_path) effects)
      validations

discard_all-AllDiscarded :
    (validations : Dict Text ValidatedConfig) (before after : List Effect)
    → AllDiscarded ((before ++ discard_all validations) ++ after) validations
discard_all-AllDiscarded [] before after = tt
discard_all-AllDiscarded ((config, v) ∷ rest) before after =
    let first : List Effect = snapshot_removed v.launch_path ∷ [] in
    (
      Performed-before _ (before ++ discard_all ((config, v) ∷ rest)) after
          (Performed-after _ before (discard_all ((config, v) ∷ rest)) here),
      subst (λ (es : List Effect). AllDiscarded (es ++ after) rest)
          (append_assoc before first (discard_all rest))
          (discard_all-AllDiscarded rest (before ++ first) after),
    )

-- After the shutdown the manager has no configuration and no validated snapshot; every process that
-- it had has its handle closed and its snapshot and cgroup removed, and every snapshot that was
-- validated and not yet started is removed.
pub cleanup-AllReleased :
    (round : Round) (f : Fleet)
    → ((cleanup round f).states ≡ [])
      × ((cleanup round f).prevalidated ≡ [])
      × AllReleased (cleanup round f).effects f.states
      × AllDiscarded (cleanup round f).effects f.prevalidated
unfolding cleanup
cleanup-AllReleased round f =
    let emptied = record f {
      states = [];
      prevalidated = [];
      effects = f.effects ++ discard_all f.prevalidated;
    } in
    let (more, d) = stop_states-adds round f.states emptied in
    (
      stop_states-states round f.states emptied,
      stop_states-prevalidated round f.states emptied,
      stop_states-AllReleased round f.states emptied,
      subst (λ (es : List Effect). AllDiscarded es f.prevalidated) (sym d)
          (discard_all-AllDiscarded f.prevalidated f.effects more),
    )
