-- ===== src/Operations/Valid.antt =====
-- The invariant of the sessions of internal/manager/identify.go and internal/manager/inputscan.go: the
-- operation of a running session is there, and waits.
use kmonad_device_manager.Prelude.{
  ◌≡◌, ◌⊎◌, ltb, length, inl, inr, refl, Bool, true, false, not, Option, some, none, List, [], ◌∷◌,
  Text, Text-eq, arith, leb, text_eq, text_eq_iff, if◌then◌else◌, sym, subst,
}
use kmonad_device_manager.Prelude.Dict.{
  Dict, lookup, insert, delete, lookup-insert, IsDistinct, insert-IsDistinct, delete-IsDistinct,
}
use kmonad_device_manager.Domain.{Operation, OperationState, waiting}
use kmonad_device_manager.Idempotency.{IdempotencyRecord}
use kmonad_device_manager.Operations.{IdentificationSession, ProbeSession, Sessions}
use kmonad_device_manager.Operations.Prune.{
  max_retained_operations, is_protected, candidates, sort_by_age, drop_oldest, prune_operations,
}
use kmonad_device_manager.Operations.Retained.{
  AreKeyedById, prune_keeps_protected, drop_oldest-keeps,
}

abbrev pub is_waiting : OperationState → Bool
is_waiting waiting = true
is_waiting _ = false

abbrev pub waits : Option Operation → Bool
waits none = false
waits (some operation) = is_waiting operation.state

abbrev pub Waits : Option Text → Dict Text Operation → Type 0
Waits none operations = Unit {0}
Waits (some id) operations = waits (lookup id operations) ≡ true

abbrev pub are_apart : Option Text → Option Text → Bool
are_apart none b = true
are_apart (some a) none = true
are_apart (some a) (some b) = not (text_eq a b)

abbrev pub identified_by : Option IdentificationSession → Option Text
identified_by none = none
identified_by (some session) = some session.operation_id

abbrev pub probed_by : Option ProbeSession → Option Text
probed_by none = none
probed_by (some session) = some session.operation_id

-- Of two kinds of session, one is `mine`, the other `theirs`.
pub record IsSound (operations : Dict Text Operation) (mine theirs : Option Text) : Type 0 where
  pub keyed : AreKeyedById operations
  pub distinct : IsDistinct operations
  pub mine_waits : Waits mine operations
  pub theirs_waits : Waits theirs operations
  pub apart : are_apart mine theirs ≡ true

abbrev pub IsValid : Sessions → Type 0
IsValid s = IsSound s.operations (identified_by s.identification) (probed_by s.probe)

are_apart_comm : (a b : Option Text) → are_apart a b ≡ true → are_apart b a ≡ true
are_apart_comm none none h = refl
are_apart_comm none (some b) h = refl
are_apart_comm (some a) none h = refl
are_apart_comm (some a) (some b) h = ground (arith, text_eq_iff a b, text_eq_iff b a)

pub IsSound-comm :
    {operations : Dict Text Operation} {mine theirs : Option Text}
    → IsSound operations mine theirs
    → IsSound operations theirs mine
IsSound-comm {mine} {theirs} sound = record {
  keyed = sound.keyed;
  distinct = sound.distinct;
  mine_waits = sound.theirs_waits;
  theirs_waits = sound.mine_waits;
  apart = are_apart_comm mine theirs sound.apart;
}

insert-AreKeyedById :
    (id : Text) (x : Operation) (operations : Dict Text Operation)
    → x.id ≡ id
    → AreKeyedById operations
    → AreKeyedById (insert id x operations)
unfolding insert
insert-AreKeyedById id x [] named keyed = (named, tt)
insert-AreKeyedById id x ((k, y) ∷ rest) named keyed =
    elim (text_eq k id)
      as (λ b. AreKeyedById (if b then (id, x) ∷ rest else (k, y) ∷ insert id x rest)) [
        | true ↦ (named, keyed.1)
        | false ↦ (keyed.0, insert-AreKeyedById id x rest named keyed.1)
      ]

delete-AreKeyedById :
    (id : Text) (operations : Dict Text Operation)
    → AreKeyedById operations
    → AreKeyedById (delete id operations)
unfolding delete
delete-AreKeyedById id [] keyed = tt
delete-AreKeyedById id ((k, y) ∷ rest) keyed =
    elim (text_eq k id)
      as (λ b. AreKeyedById (if b then delete id rest else (k, y) ∷ delete id rest)) [
        | true ↦ delete-AreKeyedById id rest keyed.1
        | false ↦ (keyed.0, delete-AreKeyedById id rest keyed.1)
      ]

Waits-insert :
    (session : Option Text) (id : Text) (x : Operation) (operations : Dict Text Operation)
    → Waits session operations
    → (is_waiting x.state ≡ true) ⊎ (are_apart (some id) session ≡ true)
    → Waits session (insert id x operations)
Waits-insert none id x operations w how = tt
Waits-insert (some k) id x operations w how =
    ground (arith, lookup-insert id k x operations, text_eq_iff id k)

-- The start of a session under an ID that no operation has.
pub begins-IsSound :
    (operations : Dict Text Operation) (theirs : Option Text) (id : Text) (x : Operation)
    → IsSound operations none theirs
    → x.id ≡ id
    → x.state ≡ waiting
    → lookup id operations ≡ none
    → IsSound (insert id x operations) (some id) theirs
begins-IsSound operations theirs id x sound named waits_too new = record {
  keyed = insert-AreKeyedById id x operations named sound.keyed;
  distinct = insert-IsDistinct id x operations sound.distinct;
  mine_waits = ground (arith, lookup-insert id id x operations, text_eq_iff id id);
  theirs_waits = Waits-insert theirs id x operations sound.theirs_waits (inl (ground arith));
  apart = fresh_apart theirs sound.theirs_waits;
}
  where
    fresh_apart : (t : Option Text) → Waits t operations → are_apart (some id) t ≡ true
    fresh_apart none w = refl
    fresh_apart (some k) w = ground (arith, text_eq_iff id k)

drop_oldest-AreKeyedById :
    (xs : List Operation) (operations : Dict Text Operation)
    → AreKeyedById operations
    → AreKeyedById (drop_oldest xs operations)
unfolding drop_oldest
drop_oldest-AreKeyedById [] operations keyed = keyed
drop_oldest-AreKeyedById (x ∷ xs) operations keyed =
    elim (ltb max_retained_operations (length operations))
      as (λ b. AreKeyedById (if b then drop_oldest xs (delete x.id operations) else operations)) [
        | true ↦
            drop_oldest-AreKeyedById xs (delete x.id operations)
              (delete-AreKeyedById x.id operations keyed)
        | false ↦ keyed
      ]

drop_oldest-IsDistinct :
    (xs : List Operation) (operations : Dict Text Operation)
    → IsDistinct operations
    → IsDistinct (drop_oldest xs operations)
unfolding drop_oldest
drop_oldest-IsDistinct [] operations distinct = distinct
drop_oldest-IsDistinct (x ∷ xs) operations distinct =
    elim (ltb max_retained_operations (length operations))
      as (λ b. IsDistinct (if b then drop_oldest xs (delete x.id operations) else operations)) [
        | true ↦
            drop_oldest-IsDistinct xs (delete x.id operations)
              (delete-IsDistinct x.id operations distinct)
        | false ↦ distinct
      ]

module _ (records : Dict Text IdempotencyRecord) (s : Sessions) where
  prune_operations-AreKeyedById :
      AreKeyedById s.operations → AreKeyedById (prune_operations records s).operations
  unfolding prune_operations
  prune_operations-AreKeyedById keyed =
      let xs = sort_by_age (candidates records s s.operations) in
      elim (leb (length s.operations) max_retained_operations)
        as (λ b.
          AreKeyedById
            (if b then s else record s { operations = drop_oldest xs s.operations }).operations) [
              | true ↦ keyed
              | false ↦ drop_oldest-AreKeyedById xs s.operations keyed
            ]

  prune_operations-IsDistinct :
      IsDistinct s.operations → IsDistinct (prune_operations records s).operations
  unfolding prune_operations
  prune_operations-IsDistinct distinct =
      let xs = sort_by_age (candidates records s s.operations) in
      elim (leb (length s.operations) max_retained_operations)
        as (λ b.
          IsDistinct
            (if b then s else record s { operations = drop_oldest xs s.operations }).operations) [
              | true ↦ distinct
              | false ↦ drop_oldest-IsDistinct xs s.operations distinct
            ]

  pub prune_operations-keeps :
      (id : Text) (a : Operation)
      → lookup id (prune_operations records s).operations ≡ some a
      → lookup id s.operations ≡ some a
  unfolding prune_operations
  prune_operations-keeps id a kept =
      ground (
        arith,
        drop_oldest-keeps (sort_by_age (candidates records s s.operations)) s.operations id a,
      )

  prune_operations-Waits :
      (t : Option Text)
      → ((id : Text) → t ≡ some id → is_protected records s id ≡ true)
      → Waits t s.operations
      → Waits t (prune_operations records s).operations
  prune_operations-Waits none held w = tt
  prune_operations-Waits (some id) held w =
      ground (arith, prune_keeps_protected records s id (held id refl))

  probe_is_protected : (id : Text) → probed_by s.probe ≡ some id → is_protected records s id ≡ true
  unfolding is_protected
  probe_is_protected id e = ground (arith, text_eq_iff id id)

  identification_is_protected :
      (id : Text) → identified_by s.identification ≡ some id → is_protected records s id ≡ true
  unfolding is_protected
  identification_is_protected id e = ground (arith, text_eq_iff id id)

  pub pruned_identification : (prune_operations records s).identification ≡ s.identification
  unfolding prune_operations
  pruned_identification = ground arith

  pub pruned_probe : (prune_operations records s).probe ≡ s.probe
  unfolding prune_operations
  pruned_probe = ground arith

  -- Pruning keeps the invariant: the operation of a running session is protected.
  pub prune_operations-IsValid : IsValid s → IsValid (prune_operations records s)
  prune_operations-IsValid valid =
      let after = prune_operations records s in
      let same_i : after.identification ≡ s.identification = pruned_identification in
      let same_p : after.probe ≡ s.probe = pruned_probe in
      subst
        (λ (i : Option IdentificationSession).
          IsSound after.operations (identified_by i) (probed_by after.probe))
        (sym same_i)
        (subst
          (λ (p : Option ProbeSession).
            IsSound after.operations (identified_by s.identification) (probed_by p))
          (sym same_p)
          (record {
            keyed = prune_operations-AreKeyedById valid.keyed;
            distinct = prune_operations-IsDistinct valid.distinct;
            mine_waits =
                prune_operations-Waits (identified_by s.identification) identification_is_protected
                  valid.mine_waits;
            theirs_waits =
                prune_operations-Waits (probed_by s.probe) probe_is_protected valid.theirs_waits;
            apart = valid.apart;
          }))

-- A session ends: its operation changes and waits no more, and the session is gone.
pub ends-IsSound :
    (operations : Dict Text Operation) (id : Text) (theirs : Option Text) (x : Operation)
    → IsSound operations (some id) theirs
    → x.id ≡ id
    → IsSound (insert id x operations) none theirs
ends-IsSound operations id theirs x sound named = record {
  keyed = insert-AreKeyedById id x operations named sound.keyed;
  distinct = insert-IsDistinct id x operations sound.distinct;
  mine_waits = tt;
  theirs_waits = Waits-insert theirs id x operations sound.theirs_waits (inr sound.apart);
  apart = refl;
}
