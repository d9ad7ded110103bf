-- ===== src/Supervisor/Sweep/Exclusive.antt =====
-- At most one process for each device after a pass of `reconcile` in internal/manager/supervisor.go.
use kmonad_device_manager.Prelude.{
  ℕ, zero, suc, ◌+◌, ◌≡◌, ◌≢◌, refl, false, some, [], ◌∷◌, List, Text, Text-eq, arith, get_elem?,
  sym, subst, ◌∙◌,
}
use kmonad_device_manager.Prelude.Dict.{Dict, lookup}
use kmonad_device_manager.Supervisor.{ConfigState, count_up}
use kmonad_device_manager.Supervisor.Process.{stop_process}
use kmonad_device_manager.Supervisor.Sweep.{
  Fleet, worker_of, counted, Visit, Round, Claims, stop_and_delete, visit, visit_all, is_listed,
  drop_states, stop_states, stop_all, DirectoryCheck, is_on, reconcile,
}
use kmonad_device_manager.Supervisor.Sweep.Frame.{SameFor, lookup-stop_and_delete, visit-SameFor}
use kmonad_device_manager.Supervisor.Sweep.Claims.{
  IsSettled, Extends, visit-claimed, visit-unused, visit_all-Extends,
}

-- `configurationPaths` lists no path twice.
abbrev pub AreDistinct : List Visit → Type 0
AreDistinct [] = Unit
AreDistinct (v ∷ vs) = (is_listed v.config vs ≡ false) × AreDistinct vs

pub stop_and_delete-keeps :
    (round : Round) (config k : Text) (f : Fleet) (s : ConfigState)
    → lookup k (stop_and_delete round config f).states ≡ some s
    → lookup k f.states ≡ some s
stop_and_delete-keeps round config k f s e = ground (arith, lookup-stop_and_delete round config k f)

pub drop_states-keeps :
    (round : Round) (vs : List Visit) (gone : Dict Text ConfigState) (k : Text) (f : Fleet)
    (s : ConfigState)
    → lookup k (drop_states round vs gone f).states ≡ some s
    → lookup k f.states ≡ some s
unfolding drop_states
drop_states-keeps round vs [] k f s e = e
drop_states-keeps round vs ((config, state) ∷ rest) k f s e =
    let dropped = stop_and_delete round config f in
    ground (
      arith,
      drop_states-keeps round vs rest k f s,
      drop_states-keeps round vs rest k dropped s,
      stop_and_delete-keeps round config k f s,
    )

pub stop_states-states :
    (round : Round) (doomed : Dict Text ConfigState) (f : Fleet)
    → (stop_states round doomed f).states ≡ f.states
unfolding stop_states
stop_states-states round [] f = refl
stop_states-states round ((config, state) ∷ rest) f =
    stop_states-states round rest
      (counted (stop_process (round.observe config) (worker_of state f)) f)

-- Everything is forgotten.
pub stop_all-states : (round : Round) (f : Fleet) → (stop_all round f).states ≡ []
unfolding stop_all
stop_all-states round f = stop_states-states round f.states (record f { states = [] })

-- What is settled later was settled before, if the state is the same.
abbrev settled_in :
    (v : Visit) (f g : Fleet) (settled : IsSettled v g)
    → lookup v.config f.states ≡ some settled.state
    → IsSettled v f
settled_in v f g settled e = record {
  state = settled.state;
  process = settled.process;
  device = settled.device;
  signature = settled.signature;
  is_kept = e;
  is_running = settled.is_running;
  is_read = settled.is_read;
  is_same = settled.is_same;
}

module _ (int63n : ℕ → ℕ) (watchdog_timeout : ℕ) (round : Round) where
  pub visit_all-SameFor :
      (vs : List Visit) (count : ℕ) (k : Text) (active : Claims) (f : Fleet)
      → is_listed k vs ≡ false
      → SameFor k f (visit_all int63n watchdog_timeout round count vs active f).1
  unfolding visit_all is_listed
  visit_all-SameFor [] count k active f other = refl
  visit_all-SameFor (v ∷ vs) count k active f other =
      let visited = visit int63n watchdog_timeout round (count + 1) v active f in
      visit_all-SameFor vs (count + 1) k visited.0 visited.1 (ground arith)
      ∙ visit-SameFor int63n watchdog_timeout round (count + 1) v k active f (ground arith)

  -- The visit of one configuration within the loop: what it leaves of that configuration is what the
  -- loop leaves, and its claims are kept.
  abbrev LastsFrom : Visit → ConfigState → Claims × Fleet → Type 0
  LastsFrom v s last =
      (count : ℕ) × (active : Claims) × (f : Fleet) × (lookup v.config
          (visit int63n watchdog_timeout round count v active f).1.states
        ≡ some s)
      × Extends (visit int63n watchdog_timeout round count v active f).0 last.0

  visit_all-LastsFrom :
      (vs : List Visit) (count : ℕ) (active : Claims) (f : Fleet) (i : ℕ) (v : Visit)
      (s : ConfigState)
      → AreDistinct vs
      → get_elem? vs i ≡ some v
      → lookup v.config (visit_all int63n watchdog_timeout round count vs active f).1.states
        ≡ some s
      → LastsFrom v s (visit_all int63n watchdog_timeout round count vs active f)
  unfolding visit_all
  visit_all-LastsFrom [] count active f i v s distinct at e = cc
  visit_all-LastsFrom (u ∷ us) count active f zero v s distinct at e =
      let last = visit_all int63n watchdog_timeout round count (u ∷ us) active f in
      let visited = visit int63n watchdog_timeout round (count + 1) u active f in
      let same : u ≡ v = ground arith in
      let mine = subst (λ (x : Visit). lookup x.config last.1.states ≡ some s) (sym same) e in
      subst (λ (x : Visit). LastsFrom x s last) same
        (
          count + 1,
          active,
          f,
          sym (visit_all-SameFor us (count + 1) u.config visited.0 visited.1 distinct.0) ∙ mine,
          visit_all-Extends int63n watchdog_timeout round us (count + 1) visited.0 visited.1,
        )
  visit_all-LastsFrom (u ∷ us) count active f (suc i) v s distinct at e =
      let visited = visit int63n watchdog_timeout round (count + 1) u active f in
      visit_all-LastsFrom us (count + 1) visited.0 visited.1 i v s distinct.1 at e

  abbrev visited_fleet : List Visit → Fleet → Claims × Fleet
  visited_fleet vs f =
      visit_all int63n watchdog_timeout round 0 vs []
        (record f { reconciles = count_up f.reconciles })

  -- A state after the pass is the state after the loop.
  pub reconcile-keeps :
      (directory : DirectoryCheck) (vs : List Visit) (f : Fleet) (k : Text) (s : ConfigState)
      → lookup k (reconcile int63n watchdog_timeout round directory (some vs) f).states ≡ some s
      → lookup k (visited_fleet vs f).1.states ≡ some s
  unfolding reconcile lookup
  reconcile-keeps directory vs f k s e =
      let begun = record f { reconciles = count_up f.reconciles } in
      let visited = visit_all int63n watchdog_timeout round 0 vs [] begun in
      ground (
        arith,
        stop_all-states round begun,
        drop_states-keeps round vs visited.1.states k visited.1 s,
      )

  reconcile-LastsFrom :
      (directory : DirectoryCheck) (vs : List Visit) (f : Fleet) (i : ℕ) (v : Visit)
      (s : ConfigState)
      → AreDistinct vs
      → get_elem? vs i ≡ some v
      → lookup v.config (reconcile int63n watchdog_timeout round directory (some vs) f).states
        ≡ some s
      → LastsFrom v s (visited_fleet vs f)
  reconcile-LastsFrom directory vs f i v s distinct at e =
      visit_all-LastsFrom vs 0 [] (record f { reconciles = count_up f.reconciles }) i v s distinct
        at (reconcile-keeps directory vs f v.config s e)

  reconcile-claimed :
      (directory : DirectoryCheck) (vs : List Visit) (f : Fleet) (i : ℕ) (v : Visit)
      → AreDistinct vs
      → get_elem? vs i ≡ some v
      → (settled : IsSettled v (reconcile int63n watchdog_timeout round directory (some vs) f))
      → lookup settled.state.device_id (visited_fleet vs f).0 ≡ some v.config
  reconcile-claimed directory vs f i v distinct at settled =
      let (count, active, g, mine, extends) =
        reconcile-LastsFrom directory vs f i v settled.state distinct at settled.is_kept in
      let after = reconcile int63n watchdog_timeout round directory (some vs) f in
      let visited = visit int63n watchdog_timeout round count v active g in
      extends settled.state.device_id v.config (
        visit-claimed int63n watchdog_timeout round count v active g
          (settled_in v visited.1 after settled mine))

  -- While a client identifies a device or probes its keys, no configuration whose file, read whole,
  -- names that device has a process on it after a pass over distinct paths.
  pub session_device_is_free :
      (directory : DirectoryCheck) (vs : List Visit) (f : Fleet) (i : ℕ) (v : Visit)
      → AreDistinct vs
      → get_elem? vs i ≡ some v
      → (settled : IsSettled v (reconcile int63n watchdog_timeout round directory (some vs) f))
      → (is_on round.identifying settled.state.device_id ≡ false)
        × (is_on round.probing settled.state.device_id ≡ false)
  session_device_is_free directory vs f i v distinct at settled =
      let (count, active, g, mine, extends) =
        reconcile-LastsFrom directory vs f i v settled.state distinct at settled.is_kept in
      let after = reconcile int63n watchdog_timeout round directory (some vs) f in
      let visited = visit int63n watchdog_timeout round count v active g in
      visit-unused int63n watchdog_timeout round count v active g
        (settled_in v visited.1 after settled mine)

  -- After a pass over distinct paths, two different configurations that both have a process on the
  -- device that their file, read whole, names do not share that device.
  pub one_process_per_device :
      (directory : DirectoryCheck) (vs : List Visit) (f : Fleet) (i j : ℕ) (u v : Visit)
      → AreDistinct vs
      → get_elem? vs i ≡ some u
      → get_elem? vs j ≡ some v
      → (su : IsSettled u (reconcile int63n watchdog_timeout round directory (some vs) f))
      → (sv : IsSettled v (reconcile int63n watchdog_timeout round directory (some vs) f))
      → u.config ≢ v.config
      → su.state.device_id ≢ sv.state.device_id
  one_process_per_device directory vs f i j u v distinct at_i at_j su sv differ same =
      let mine = reconcile-claimed directory vs f i u distinct at_i su in
      let other = reconcile-claimed directory vs f j v distinct at_j sv in
      let both = sym (rw same at mine) ∙ other in differ (cc both)
