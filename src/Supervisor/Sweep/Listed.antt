-- ===== src/Supervisor/Sweep/Listed.antt =====
-- The configurations that keep a state after a pass of `reconcile` in internal/manager/supervisor.go.
use kmonad_device_manager.Prelude.{
  ℕ, suc, ◌+◌, ◌-◌, ◌≡◌, inl, inr, true, false, Option, none, some, [], ◌∷◌, List, Text, Text-eq,
  text_eq, text_eq_iff, arith, Bool-cases, Option-cases, is_some, take, ltb, ap,
}
use kmonad_device_manager.Prelude.Dict.{Dict, lookup}
use kmonad_device_manager.Supervisor.{ConfigState, count_up}
use kmonad_device_manager.Supervisor.Sweep.{
  Fleet, Visit, Round, Claims, stop_and_delete, visit, visit_all, is_listed, drop_states,
  DirectoryCheck, reconcile, listed,
}
use kmonad_device_manager.Supervisor.Sweep.Frame.{lookup-stop_and_delete}
use kmonad_device_manager.Supervisor.Sweep.Exclusive.{
  drop_states-keeps, stop_all-states, visit_all-SameFor,
}

drop_states-none :
    (round : Round) (vs : List Visit) (gone : Dict Text ConfigState) (k : Text) (f : Fleet)
    → lookup k f.states ≡ none
    → lookup k (drop_states round vs gone f).states ≡ none
drop_states-none round vs gone k f e =
    elim (Option-cases (lookup k (drop_states round vs gone f).states)) [
      | inl absent ↦ absent
      | inr (s, present) ↦ cc (drop_states-keeps round vs gone k f s present)
    ]

drop_states-unlisted :
    (round : Round) (vs : List Visit) (gone : Dict Text ConfigState) (k : Text) (f : Fleet)
    → is_listed k vs ≡ false
    → is_some (lookup k gone) ≡ true
    → lookup k (drop_states round vs gone f).states ≡ none
unfolding drop_states lookup
drop_states-unlisted round vs [] k f unlisted known = cc
drop_states-unlisted round vs ((config, state) ∷ rest) k f unlisted known =
    let dropped = stop_and_delete round config f in
    elim (Bool-cases (text_eq config k)) [
      | inl here ↦
          let same : config ≡ k = (text_eq_iff config k).0 here in
          ground (
            arith,
            same,
            ap (λ (c : Text). is_listed c vs) same,
            lookup-stop_and_delete round config k f,
            drop_states-none round vs rest k dropped,
          )
      | inr other ↦ ground (
        arith,
        other,
        drop_states-unlisted round vs rest k f unlisted,
        drop_states-unlisted round vs rest k dropped unlisted,
      )
    ]

module _ (int63n : ℕ → ℕ) (watchdog_timeout : ℕ) (round : Round) where
  -- Past the limit a visit deletes the state.
  visit_past_limit :
      (count : ℕ) (v : Visit) (k : Text) (active : Claims) (f : Fleet)
      → ltb round.max_configs count ≡ true
      → text_eq v.config k ≡ true
      → lookup k (visit int63n watchdog_timeout round count v active f).1.states ≡ none
  unfolding visit
  visit_past_limit count v k active f past here =
      ground (arith, lookup-stop_and_delete round v.config k f)

  visit_all-listed :
      (vs : List Visit) (count : ℕ) (k : Text) (active : Claims) (f : Fleet) (s : ConfigState)
      → is_listed k vs ≡ true
      → lookup k (visit_all int63n watchdog_timeout round count vs active f).1.states ≡ some s
      → is_listed k (take (round.max_configs - count) vs) ≡ true
  unfolding visit_all is_listed
  visit_all-listed [] count k active f s member e = cc
  visit_all-listed (v ∷ vs) count k active f s member e =
      let visited = visit int63n watchdog_timeout round (count + 1) v active f in
      elim (Bool-cases (ltb round.max_configs (count + 1))) [
        | inr within ↦
            let room : round.max_configs - count ≡ suc (round.max_configs - (count + 1)) =
              ground arith in
            rw room (ground (arith, visit_all-listed vs (count + 1) k visited.0 visited.1 s))
        | inl past ↦
            let full : round.max_configs - (count + 1) ≡ 0 = ground arith in
            let later = visit_all-listed vs (count + 1) k visited.0 visited.1 s in
            ground (
              arith,
              past,
              later,
              ap (λ (n : ℕ). is_listed k (take n vs)) full,
              visit_past_limit (count + 1) v k active f past,
              visit_all-SameFor int63n watchdog_timeout round vs (count + 1) k visited.0 visited.1,
            )
      ]

  -- A configuration has a state after a pass, and so may have a process, only if its path is one of
  -- the first `maxConfigs` listed; after a failed enumeration none has.
  pub kept_states_are_listed :
      (directory : DirectoryCheck) (paths : Option (List Visit)) (f : Fleet) (k : Text)
      (s : ConfigState)
      → lookup k (reconcile int63n watchdog_timeout round directory paths f).states ≡ some s
      → is_listed k (take round.max_configs (listed paths)) ≡ true
  unfolding reconcile lookup
  kept_states_are_listed directory paths f k s e =
      let vs = listed paths in
      let begun = record f { reconciles = count_up f.reconciles } in
      let visited = visit_all int63n watchdog_timeout round 0 vs [] begun in
      let all : round.max_configs - 0 ≡ round.max_configs = omega arith in
      let within = visit_all-listed vs 0 k [] begun s in
      ground (
        arith,
        stop_all-states round begun,
        within,
        ap (λ (n : ℕ). is_listed k (take n vs)) all,
        drop_states-keeps round vs visited.1.states k visited.1 s,
        drop_states-none round vs visited.1.states k visited.1,
        drop_states-unlisted round vs visited.1.states k visited.1,
      )
