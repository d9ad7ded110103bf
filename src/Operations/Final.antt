-- ===== src/Operations/Final.antt =====
-- Runs of the session commands of internal/manager/identify.go and internal/manager/inputscan.go: the
-- invariant, and that an operation that has ended never changes again.
use kmonad_device_manager.Prelude.{
  ℕ, ◌≡◌, ◌⊎◌, inl, inr, refl, true, false, Option, some, none, List, [], ◌∷◌, Text, Text-eq, arith,
  Bool-cases, Option-cases, text_eq, text_eq_iff, sym, subst, ap,
}
use kmonad_device_manager.Prelude.Dict.{Dict, lookup, insert, lookup-insert}
use kmonad_device_manager.Domain.{Operation}
use kmonad_device_manager.Idempotency.{IdempotencyRecord}
use kmonad_device_manager.Operations.{Sessions, published, reconciled, wait_cancelled, is_terminal}
use kmonad_device_manager.Operations.Prune.{prune_operations}
use kmonad_device_manager.Operations.Identify.{
  StartInputs, EndInputs, WaitResult, context_canceled, act, operation_or_zero,
  identification_outcome, start_identification, end_identification, finish_identification,
  cancel_identification_operation, cancel_identification,
}
use kmonad_device_manager.Operations.Probe.{
  ProbeParams, start_probe, probe_outcome, end_probe, finish_probe, cancel_probe_operation,
  cancel_probe,
}
use kmonad_device_manager.Operations.Valid.{
  identified_by, probed_by, Waits, IsSound, IsSound-comm, IsValid, prune_operations-keeps,
}
use kmonad_device_manager.Operations.Begun.{
  IsFresh, Begins, same-IsValid, IsValid-by, start_identification-IsValid,
  start_identification-Begins, start_probe-IsValid, start_probe-Begins,
}
use kmonad_device_manager.Operations.Ended.{
  finish_identification-IsValid, finish_probe-IsValid, cancel_identification_operation_cases,
  cancel_probe_operation_cases,
}

-- What reaches the owner of the sessions: the requests of clients, the ends of the waits, and the end
-- of the service.
pub data SessionCall : Type 0 where
  identify_start : StartInputs → (device_id : Text) → (timeout_ms : ℕ) → SessionCall
  identify_ended : EndInputs → (id : Text) → WaitResult → SessionCall
  identify_cancel : EndInputs → (id : Text) → SessionCall
  probe_start : StartInputs → ProbeParams → SessionCall
  probe_ended : EndInputs → (id : Text) → WaitResult → SessionCall
  probe_cancel : EndInputs → (id : Text) → SessionCall
  shut_down : SessionCall

-- The operation is as it was, or gone.
abbrev pub Stays : Text → Operation → Sessions → Type 0
Stays id x s = (lookup id s.operations ≡ some x) ⊎ (lookup id s.operations ≡ none)

pruned-Stays :
    (records : Dict Text IdempotencyRecord) (id : Text) (x : Operation) (s : Sessions)
    → lookup id s.operations ≡ some x
    → Stays id x (prune_operations records s)
pruned-Stays records id x s e =
    elim (Option-cases (lookup id (prune_operations records s).operations)) [
      | inl gone ↦ inr gone
      | inr (y, kept) ↦ inl (cc (prune_operations-keeps records s id y kept))
    ]

-- An operation that has ended is not that of a session.
ended_is_other :
    (operations : Dict Text Operation) (mine theirs : Option Text) (k id : Text) (x : Operation)
    → IsSound operations mine theirs
    → mine ≡ some k
    → lookup id operations ≡ some x
    → is_terminal x.state ≡ true
    → text_eq k id ≡ false
ended_is_other operations mine theirs k id x sound running e ended =
    let w : Waits (some k) operations = rw running at sound.mine_waits in
    ground (arith, w, text_eq_iff k id)

module _ (records : Dict Text IdempotencyRecord) (inputs : EndInputs) where
  finish_identification-Stays :
      (k : Text) (result : WaitResult) (s : Sessions) (id : Text) (x : Operation)
      → IsValid s
      → lookup id s.operations ≡ some x
      → is_terminal x.state ≡ true
      → Stays id x (finish_identification records inputs k result s)
  unfolding finish_identification end_identification
  finish_identification-Stays k result s id x valid e ended =
      let after = finish_identification records inputs k result s in
      elim (Option-cases s.identification) [
        | inl idle ↦ inl (ground (arith, idle))
        | inr (session, running) ↦ elim (Bool-cases (text_eq session.operation_id k)) [
          | inr other ↦ inl (ground (arith, running, other))
          | inl mine ↦
              let i = session.operation_id in
              let y =
                identification_outcome result inputs.availability inputs.now
                  (operation_or_zero (lookup i s.operations)) in
              let inner =
                act (published y ∷ wait_cancelled i ∷ [])
                  (record s { operations = insert i y s.operations; identification = none }) in
              let apart =
                ended_is_other s.operations (identified_by s.identification) (probed_by s.probe) i
                  id x valid (ap identified_by running) e ended in
              let kept : lookup id inner.operations ≡ some x =
                ground (arith, lookup-insert i id y s.operations, apart) in
              subst (Stays id x)
                (sym (
                  let same : after ≡ act (reconciled ∷ []) (prune_operations records inner) =
                    ground (arith, running, mine) in
                  same))
                (pruned-Stays records id x inner kept)
        ]
      ]

  finish_probe-Stays :
      (k : Text) (result : WaitResult) (s : Sessions) (id : Text) (x : Operation)
      → IsValid s
      → lookup id s.operations ≡ some x
      → is_terminal x.state ≡ true
      → Stays id x (finish_probe records inputs k result s)
  unfolding finish_probe end_probe
  finish_probe-Stays k result s id x valid e ended =
      let after = finish_probe records inputs k result s in
      elim (Option-cases s.probe) [
        | inl idle ↦ inl (ground (arith, idle))
        | inr (session, running) ↦ elim (Bool-cases (text_eq session.operation_id k)) [
          | inr other ↦ inl (ground (arith, running, other))
          | inl mine ↦
              let i = session.operation_id in
              let y =
                probe_outcome result session.token inputs.availability inputs.now
                  (operation_or_zero (lookup i s.operations)) in
              let inner =
                act (published y ∷ wait_cancelled i ∷ [])
                  (record s { operations = insert i y s.operations; probe = none }) in
              let apart =
                ended_is_other s.operations (probed_by s.probe) (identified_by s.identification) i
                  id x (IsSound-comm valid) (ap probed_by running) e ended in
              let kept : lookup id inner.operations ≡ some x =
                ground (arith, lookup-insert i id y s.operations, apart) in
              subst (Stays id x)
                (sym (
                  let same : after ≡ act (reconciled ∷ []) (prune_operations records inner) =
                    ground (arith, running, mine) in
                  same))
                (pruned-Stays records id x inner kept)
        ]
      ]

start-Stays :
    (inputs : StartInputs) (s after : Sessions) (id : Text) (x : Operation)
    → Begins inputs s after
    → IsFresh inputs.operation_id s
    → lookup id s.operations ≡ some x
    → Stays id x after
start-Stays inputs s after id x begins fresh e = elim begins [
  | inl same ↦ inl (ground (arith, same))
  | inr (k, y, new, grown) ↦
      let unused : lookup k s.operations ≡ none = rw new at fresh in
      inl (ground (arith, grown, unused, lookup-insert k id y s.operations, text_eq_iff k id))
]

module _ (records : Dict Text IdempotencyRecord) where
  abbrev pub step : SessionCall → Sessions → Sessions
  step (identify_start inputs device_id timeout_ms) s =
      (start_identification inputs device_id timeout_ms s).1
  step (identify_ended inputs id result) s = finish_identification records inputs id result s
  step (identify_cancel inputs id) s = (cancel_identification_operation records inputs id s).1
  step (probe_start inputs params) s = (start_probe inputs params s).1
  step (probe_ended inputs id result) s = finish_probe records inputs id result s
  step (probe_cancel inputs id) s = (cancel_probe_operation records inputs id s).1
  step shut_down s = cancel_probe (cancel_identification s)

  abbrev pub run : List SessionCall → Sessions → Sessions
  run [] s = s
  run (c ∷ cs) s = run cs (step c s)

  -- Every start finds its random ID unused.
  abbrev pub StartsFresh : SessionCall → Sessions → Type 0
  StartsFresh (identify_start inputs device_id timeout_ms) s = IsFresh inputs.operation_id s
  StartsFresh (probe_start inputs params) s = IsFresh inputs.operation_id s
  StartsFresh _ s = Unit {0}

  abbrev pub AreFresh : List SessionCall → Sessions → Type 0
  AreFresh [] s = Unit {0}
  AreFresh (c ∷ cs) s = StartsFresh c s × AreFresh cs (step c s)

  shut_down-IsValid : (s : Sessions) → IsValid s → IsValid (cancel_probe (cancel_identification s))
  unfolding cancel_probe cancel_identification
  shut_down-IsValid s valid =
      IsValid-by (cancel_probe (cancel_identification s)) s.operations none none (ground arith)
        (ground arith) (ground arith)
        (record {
          keyed = valid.keyed;
          distinct = valid.distinct;
          mine_waits = tt;
          theirs_waits = tt;
          apart = refl;
        })

  pub step-IsValid :
      (c : SessionCall) (s : Sessions) → StartsFresh c s → IsValid s → IsValid (step c s)
  step-IsValid (identify_start inputs device_id timeout_ms) s fresh valid =
      start_identification-IsValid inputs device_id timeout_ms s fresh valid
  step-IsValid (identify_ended inputs id result) s fresh valid =
      finish_identification-IsValid records inputs id result s valid
  step-IsValid (identify_cancel inputs id) s fresh valid =
      let after = (cancel_identification_operation records inputs id s).1 in
      let cancelling = act (wait_cancelled id ∷ []) s in
      elim (cancel_identification_operation_cases records inputs id s) [
        | inl e ↦ same-IsValid s after e valid
        | inr e ↦
            same-IsValid (finish_identification records inputs id context_canceled cancelling) after
              e (finish_identification-IsValid records inputs id context_canceled cancelling valid)
      ]
  step-IsValid (probe_start inputs params) s fresh valid =
      start_probe-IsValid inputs params s fresh valid
  step-IsValid (probe_ended inputs id result) s fresh valid =
      finish_probe-IsValid records inputs id result s valid
  step-IsValid (probe_cancel inputs id) s fresh valid =
      let after = (cancel_probe_operation records inputs id s).1 in
      let cancelling = act (wait_cancelled id ∷ []) s in
      elim (cancel_probe_operation_cases records inputs id s) [
        | inl e ↦ same-IsValid s after e valid
        | inr e ↦
            same-IsValid (finish_probe records inputs id context_canceled cancelling) after e
              (finish_probe-IsValid records inputs id context_canceled cancelling valid)
      ]
  step-IsValid shut_down s fresh valid = shut_down-IsValid s valid

  -- An operation that has ended is the same after every step, until it is pruned.
  pub ended_operation-Stays :
      (c : SessionCall) (s : Sessions) (id : Text) (x : Operation)
      → StartsFresh c s
      → IsValid s
      → lookup id s.operations ≡ some x
      → is_terminal x.state ≡ true
      → Stays id x (step c s)
  unfolding cancel_probe cancel_identification
  ended_operation-Stays (identify_start inputs device_id timeout_ms) s id x fresh valid e ended =
      start-Stays inputs s (start_identification inputs device_id timeout_ms s).1 id x
        (start_identification-Begins inputs device_id timeout_ms s) fresh e
  ended_operation-Stays (identify_ended inputs k result) s id x fresh valid e ended =
      finish_identification-Stays records inputs k result s id x valid e ended
  ended_operation-Stays (identify_cancel inputs k) s id x fresh valid e ended =
      let cancelling = act (wait_cancelled k ∷ []) s in
      elim (cancel_identification_operation_cases records inputs k s) [
        | inl same ↦ inl (ground (arith, same))
        | inr same ↦ subst (Stays id x) (sym same) (
            finish_identification-Stays records inputs k context_canceled cancelling id x valid e
              ended)
      ]
  ended_operation-Stays (probe_start inputs params) s id x fresh valid e ended =
      start-Stays inputs s (start_probe inputs params s).1 id x (start_probe-Begins inputs params s)
        fresh e
  ended_operation-Stays (probe_ended inputs k result) s id x fresh valid e ended =
      finish_probe-Stays records inputs k result s id x valid e ended
  ended_operation-Stays (probe_cancel inputs k) s id x fresh valid e ended =
      let cancelling = act (wait_cancelled k ∷ []) s in
      elim (cancel_probe_operation_cases records inputs k s) [
        | inl same ↦ inl (ground (arith, same))
        | inr same ↦
            subst (Stays id x) (sym same)
              (finish_probe-Stays records inputs k context_canceled cancelling id x valid e ended)
      ]
  ended_operation-Stays shut_down s id x fresh valid e ended = inl (ground arith)

  -- Whatever clients ask and however the waits end, the operations stay distinct and under their own
  -- IDs, and the operation of each running session is there and waits; the two sessions never share
  -- an operation. A start is to find its random ID unused.
  pub run-IsValid :
      (calls : List SessionCall) (s : Sessions)
      → AreFresh calls s
      → IsValid s
      → IsValid (run calls s)
  run-IsValid [] s fresh valid = valid
  run-IsValid (c ∷ cs) s fresh valid =
      run-IsValid cs (step c s) fresh.1 (step-IsValid c s fresh.0 valid)
