-- ===== src/Operations/Ended.antt =====
-- The ends of sessions in internal/manager/identify.go and internal/manager/inputscan.go keep the
-- invariant, and change no operation that had ended.
use kmonad_device_manager.Prelude.{
  ℕ, ◌≡◌, ◌⊎◌, inl, inr, refl, true, Option, some, none, [], ◌∷◌, Text, Text-eq, arith, Bool-cases,
  Option-cases, text_eq, is_some, ◌∙◌,
}
use kmonad_device_manager.Prelude.Dict.{Dict, lookup, insert}
use kmonad_device_manager.Domain.{Operation}
use kmonad_device_manager.Domain.Resources.{DeviceAvailability}
use kmonad_device_manager.Idempotency.{IdempotencyRecord}
use kmonad_device_manager.Operations.{
  IdentificationSession, ProbeSession, Sessions, published, wait_cancelled, is_terminal,
}
use kmonad_device_manager.Operations.Identify.{
  EndInputs, WaitResult, pressed, context_canceled, act, operation_or_zero, identification_outcome,
  end_identification, finish_identification, cancel_identification_operation,
}
use kmonad_device_manager.Operations.Probe.{
  probe_outcome, end_probe, finish_probe, cancel_probe_operation,
}
use kmonad_device_manager.Operations.Retained.{keyed_id}
use kmonad_device_manager.Operations.Valid.{
  identified_by, probed_by, IsSound, IsSound-comm, IsValid, ends-IsSound, prune_operations-IsValid,
}
use kmonad_device_manager.Operations.Begun.{same-IsValid}

pub identification_outcome-id :
    (result : WaitResult) (a : DeviceAvailability) (now : ℕ) (x : Operation)
    → ((identification_outcome result a now x).id ≡ x.id)
      × (is_terminal (identification_outcome result a now x).state ≡ true)
unfolding identification_outcome
identification_outcome-id pressed a now x = (refl, refl)
identification_outcome-id _ a now x = (refl, refl)

pub probe_outcome-id :
    (result : WaitResult) (token : Text) (a : DeviceAvailability) (now : ℕ) (x : Operation)
    → ((probe_outcome result token a now x).id ≡ x.id)
      × (is_terminal (probe_outcome result token a now x).state ≡ true)
unfolding probe_outcome
probe_outcome-id pressed token a now x = (refl, refl)
probe_outcome-id _ token a now x = (refl, refl)

-- The operation of a session that waits is in the map, under its ID.
pub waiting_operation :
    (operations : Dict Text Operation) (id : Text) (theirs : Option Text)
    → IsSound operations (some id) theirs
    → (operation_or_zero (lookup id operations)).id ≡ id
waiting_operation operations id theirs sound = elim (Option-cases (lookup id operations)) [
  | inl absent ↦ ground (arith, sound.mine_waits, absent)
  | inr (x, present) ↦ ground (arith, present, keyed_id operations id x sound.keyed present)
]

module _ (records : Dict Text IdempotencyRecord) (inputs : EndInputs) where
  end_identification-IsValid :
      (result : WaitResult) (session : IdentificationSession) (s : Sessions)
      → s.identification ≡ some session
      → IsValid s
      → IsValid (end_identification records inputs result session s)
  unfolding end_identification
  end_identification-IsValid result session s running valid =
      let id = session.operation_id in
      let old = operation_or_zero (lookup id s.operations) in
      let x = identification_outcome result inputs.availability inputs.now old in
      let sound : IsSound s.operations (some id) (probed_by s.probe) = rw running at valid in
      let named : x.id ≡ id =
        (identification_outcome-id result inputs.availability inputs.now old).0
        ∙ waiting_operation s.operations id (probed_by s.probe) sound in
      let ended =
        act (published x ∷ wait_cancelled id ∷ [])
          (record s { operations = insert id x s.operations; identification = none }) in
      prune_operations-IsValid records ended
        (ends-IsSound s.operations id (probed_by s.probe) x sound named)

  end_probe-IsValid :
      (result : WaitResult) (session : ProbeSession) (s : Sessions)
      → s.probe ≡ some session
      → IsValid s
      → IsValid (end_probe records inputs result session s)
  unfolding end_probe
  end_probe-IsValid result session s running valid =
      let id = session.operation_id in
      let theirs = identified_by s.identification in
      let old = operation_or_zero (lookup id s.operations) in
      let x = probe_outcome result session.token inputs.availability inputs.now old in
      let sound : IsSound s.operations (some id) theirs = rw running at (IsSound-comm valid) in
      let named : x.id ≡ id =
        (probe_outcome-id result session.token inputs.availability inputs.now old).0
        ∙ waiting_operation s.operations id theirs sound in
      let ended =
        act (published x ∷ wait_cancelled id ∷ [])
          (record s { operations = insert id x s.operations; probe = none }) in
      prune_operations-IsValid records ended
        (IsSound-comm (ends-IsSound s.operations id theirs x sound named))

  pub finish_identification-IsValid :
      (id : Text) (result : WaitResult) (s : Sessions)
      → IsValid s
      → IsValid (finish_identification records inputs id result s)
  unfolding finish_identification
  finish_identification-IsValid id result s valid =
      let after = finish_identification records inputs id result s in
      elim (Option-cases s.identification) [
        | inl idle ↦ same-IsValid s after (ground (arith, idle)) valid
        | inr (session, running) ↦ elim (Bool-cases (text_eq session.operation_id id)) [
          | inr other ↦ same-IsValid s after (ground (arith, running, other)) valid
          | inl mine ↦
              same-IsValid (end_identification records inputs result session s) after
                (ground (arith, running, mine))
                (end_identification-IsValid result session s running valid)
        ]
      ]

  pub finish_probe-IsValid :
      (id : Text) (result : WaitResult) (s : Sessions)
      → IsValid s
      → IsValid (finish_probe records inputs id result s)
  unfolding finish_probe
  finish_probe-IsValid id result s valid =
      let after = finish_probe records inputs id result s in
      elim (Option-cases s.probe) [
        | inl idle ↦ same-IsValid s after (ground (arith, idle)) valid
        | inr (session, running) ↦ elim (Bool-cases (text_eq session.operation_id id)) [
          | inr other ↦ same-IsValid s after (ground (arith, running, other)) valid
          | inl mine ↦
              same-IsValid (end_probe records inputs result session s) after
                (ground (arith, running, mine)) (end_probe-IsValid result session s running valid)
        ]
      ]

  -- A cancel does nothing, or ends the session.
  pub cancel_identification_operation_cases :
      (id : Text) (s : Sessions)
      → let after = (cancel_identification_operation records inputs id s).1 in
        (after ≡ s)
        ⊎ (after
            ≡ finish_identification records inputs id context_canceled
                (act (wait_cancelled id ∷ []) s))
  unfolding cancel_identification_operation
  cancel_identification_operation_cases id s =
      let ended =
        finish_identification records inputs id context_canceled (act (wait_cancelled id ∷ []) s) in
      elim (Bool-cases (is_some (lookup id s.operations))) [
        | inr absent ↦ inl (ground (arith, absent))
        | inl present ↦ elim (Option-cases s.identification) [
          | inl idle ↦ inl (ground (arith, present, idle))
          | inr (session, running) ↦ elim (Bool-cases (text_eq session.operation_id id)) [
            | inr other ↦ inl (ground (arith, present, running, other))
            | inl mine ↦ inr (ground (arith, present, running, mine))
          ]
        ]
      ]

  pub cancel_probe_operation_cases :
      (id : Text) (s : Sessions)
      → let after = (cancel_probe_operation records inputs id s).1 in
        (after ≡ s)
        ⊎ (after ≡ finish_probe records inputs id context_canceled (act (wait_cancelled id ∷ []) s))
  unfolding cancel_probe_operation
  cancel_probe_operation_cases id s = elim (Bool-cases (is_some (lookup id s.operations))) [
    | inr absent ↦ inl (ground (arith, absent))
    | inl present ↦ elim (Option-cases s.probe) [
      | inl idle ↦ inl (ground (arith, present, idle))
      | inr (session, running) ↦ elim (Bool-cases (text_eq session.operation_id id)) [
        | inr other ↦ inl (ground (arith, present, running, other))
        | inl mine ↦ inr (ground (arith, present, running, mine))
      ]
    ]
  ]
