-- ===== src/Operations/Begun.antt =====
-- The starts of sessions in internal/manager/identify.go and internal/manager/inputscan.go keep the
-- invariant.
use kmonad_device_manager.Prelude.{
  ℕ, ◌≡◌, ◌⊎◌, inl, inr, refl, Option, some, none, [], Text, Text-eq, arith, Bool-cases,
  Option-cases, text_eq, sym, subst,
}
use kmonad_device_manager.Prelude.Dict.{Dict, lookup, insert}
use kmonad_device_manager.Domain.{Operation, ApiError}
use kmonad_device_manager.Operations.Scan.{kmonad_v1_token_code}
use kmonad_device_manager.Operations.{Sessions}
use kmonad_device_manager.Operations.Target.{
  DiscoveredKeyboard, Target, target_of, no_target, input_device_target, session_timeout,
}
use kmonad_device_manager.Operations.Identify.{
  identify_operation, StartInputs, begin_identification, identify_target, start_identification,
}
use kmonad_device_manager.Operations.Probe.{
  probe_operation, ProbeParams, begin_probe, probe_target, check_probe, start_probe,
}
use kmonad_device_manager.Operations.Valid.{
  identified_by, probed_by, IsSound, IsSound-comm, IsValid, begins-IsSound,
}

-- The ID of a start is random: no operation has it.
abbrev pub IsFresh : Option Text → Sessions → Type 0
IsFresh none s = Unit {0}
IsFresh (some id) s = lookup id s.operations ≡ none

pub same-IsValid : (s t : Sessions) → t ≡ s → IsValid s → IsValid t
same-IsValid s t e = subst IsValid (sym e)

pub IsValid-by :
    (t : Sessions) (operations : Dict Text Operation) (mine theirs : Option Text)
    → t.operations ≡ operations
    → identified_by t.identification ≡ mine
    → probed_by t.probe ≡ theirs
    → IsSound operations mine theirs
    → IsValid t
IsValid-by t operations mine theirs e i p sound = rw (e, i, p) sound

begin_identification-IsValid :
    (inputs : StartInputs) (timeout : ℕ) (target : DiscoveredKeyboard) (platform_id : Text)
    (s : Sessions)
    → s.identification ≡ none
    → IsFresh inputs.operation_id s
    → IsValid s
    → IsValid (begin_identification inputs timeout target platform_id s).1
unfolding begin_identification
begin_identification-IsValid inputs timeout target platform_id s idle fresh valid =
    let after = begin_identification inputs timeout target platform_id s in
    elim (Option-cases inputs.operation_id) [
      | inl e ↦ same-IsValid s after.1 (ground (arith, e)) valid
      | inr (id, e) ↦ elim (Bool-cases inputs.is_observable) [
        | inr blind ↦ same-IsValid s after.1 (ground (arith, e, blind)) valid
        | inl seen ↦
            let x = identify_operation id target.device.id inputs.now in
            let new : lookup id s.operations ≡ none = rw e at fresh in
            IsValid-by after.1 (insert id x s.operations) (some id) (probed_by s.probe)
              (ground (arith, e, seen)) (ground (arith, e, seen)) (ground (arith, e, seen))
              (begins-IsSound s.operations (probed_by s.probe) id x (rw idle at valid) refl refl
                new)
      ]
    ]

begin_probe-IsValid :
    (inputs : StartInputs) (timeout : ℕ) (token : Text) (code : ℕ) (target : DiscoveredKeyboard)
    (platform_id : Text) (s : Sessions)
    → s.probe ≡ none
    → IsFresh inputs.operation_id s
    → IsValid s
    → IsValid (begin_probe inputs timeout token code target platform_id s).1
unfolding begin_probe
begin_probe-IsValid inputs timeout token code target platform_id s idle fresh valid =
    let after = begin_probe inputs timeout token code target platform_id s in
    elim (Option-cases inputs.operation_id) [
      | inl e ↦ same-IsValid s after.1 (ground (arith, e)) valid
      | inr (id, e) ↦ elim (Bool-cases inputs.is_observable) [
        | inr blind ↦ same-IsValid s after.1 (ground (arith, e, blind)) valid
        | inl seen ↦
            let x = probe_operation id target.device.id token inputs.now in
            let new : lookup id s.operations ≡ none = rw e at fresh in
            IsValid-by after.1 (insert id x s.operations) (identified_by s.identification) (some id)
              (ground (arith, e, seen)) (ground (arith, e, seen)) (ground (arith, e, seen))
              (IsSound-comm (
                begins-IsSound s.operations (identified_by s.identification) id x
                  (rw idle at (IsSound-comm valid)) refl refl new))
      ]
    ]

Target-cases :
    (t : Target)
    → ((e : ApiError) × (t ≡ no_target e))
      ⊎ ((k : DiscoveredKeyboard) × (platform_id : Text) × (t ≡ target_of k platform_id))
Target-cases (no_target e) = inl (e, refl)
Target-cases (target_of k platform_id) = inr (k, platform_id, refl)

-- A start is refused and changes nothing, or a session begins.
abbrev pub Begins : StartInputs → Sessions → Sessions → Type 0
Begins inputs s after =
    (after ≡ s)
    ⊎ ((id : Text) × (x : Operation) × (inputs.operation_id ≡ some id)
        × (after.operations ≡ insert id x s.operations))

begin_identification-Begins :
    (inputs : StartInputs) (timeout : ℕ) (target : DiscoveredKeyboard) (platform_id : Text)
    (s : Sessions)
    → Begins inputs s (begin_identification inputs timeout target platform_id s).1
unfolding begin_identification
begin_identification-Begins inputs timeout target platform_id s =
    elim (Option-cases inputs.operation_id) [
      | inl e ↦ inl (ground (arith, e))
      | inr (id, e) ↦ elim (Bool-cases inputs.is_observable) [
        | inr blind ↦ inl (ground (arith, e, blind))
        | inl seen ↦
            inr (id, identify_operation id target.device.id inputs.now, e, ground (arith, e, seen))
      ]
    ]

begin_probe-Begins :
    (inputs : StartInputs) (timeout : ℕ) (token : Text) (code : ℕ) (target : DiscoveredKeyboard)
    (platform_id : Text) (s : Sessions)
    → Begins inputs s (begin_probe inputs timeout token code target platform_id s).1
unfolding begin_probe
begin_probe-Begins inputs timeout token code target platform_id s =
    elim (Option-cases inputs.operation_id) [
      | inl e ↦ inl (ground (arith, e))
      | inr (id, e) ↦ elim (Bool-cases inputs.is_observable) [
        | inr blind ↦ inl (ground (arith, e, blind))
        | inl seen ↦
            inr
              (id, probe_operation id target.device.id token inputs.now, e, ground (arith, e, seen))
      ]
    ]

start_identification_cases :
    (inputs : StartInputs) (device_id : Text) (timeout_ms : ℕ) (s : Sessions)
    → let after = (start_identification inputs device_id timeout_ms s).1 in
      (after ≡ s)
      ⊎ ((timeout : ℕ) × (target : DiscoveredKeyboard) × (platform_id : Text) × (s.identification
            ≡ none)
          × (after ≡ (begin_identification inputs timeout target platform_id s).1))
unfolding start_identification identify_target
start_identification_cases inputs device_id timeout_ms s = elim (Bool-cases inputs.is_expired) [
  | inl e ↦ inl (ground (arith, e))
  | inr e ↦ elim (Bool-cases (text_eq device_id [])) [
    | inl f ↦ inl (ground (arith, e, f))
    | inr f ↦ elim (Option-cases s.identification) [
      | inr (session, g) ↦ inl (ground (arith, e, f, g))
      | inl idle ↦ elim (Option-cases (session_timeout timeout_ms)) [
        | inl h ↦ inl (ground (arith, e, f, idle, h))
        | inr (timeout, h) ↦ elim (Target-cases (input_device_target inputs.discovery device_id)) [
          | inl (why, k) ↦ inl (ground (arith, e, f, idle, h, k))
          | inr (target, platform_id, k) ↦
              inr (timeout, target, platform_id, idle, ground (arith, e, f, idle, h, k))
        ]
      ]
    ]
  ]
]

check_probe_cases :
    (inputs : StartInputs) (params : ProbeParams) (code : ℕ) (s : Sessions)
    → let after = (check_probe inputs params code s).1 in
      (after ≡ s)
      ⊎ ((timeout : ℕ) × (target : DiscoveredKeyboard) × (platform_id : Text) × (s.probe ≡ none)
          × (after ≡ (begin_probe inputs timeout params.token code target platform_id s).1))
unfolding check_probe probe_target
check_probe_cases inputs params code s = elim (Option-cases (session_timeout params.timeout_ms)) [
  | inl h ↦ inl (ground (arith, h))
  | inr (timeout, h) ↦ elim (Option-cases s.probe) [
    | inr (session, g) ↦ inl (ground (arith, h, g))
    | inl idle ↦ elim (Target-cases (input_device_target inputs.discovery params.device_id)) [
      | inl (why, k) ↦ inl (ground (arith, idle, h, k))
      | inr (target, platform_id, k) ↦
          inr (timeout, target, platform_id, idle, ground (arith, idle, h, k))
    ]
  ]
]

start_probe_cases :
    (inputs : StartInputs) (params : ProbeParams) (s : Sessions)
    → let after = (start_probe inputs params s).1 in
      (after ≡ s) ⊎ ((code : ℕ) × (after ≡ (check_probe inputs params code s).1))
unfolding start_probe
start_probe_cases inputs params s = elim (Bool-cases inputs.is_expired) [
  | inl e ↦ inl (ground (arith, e))
  | inr e ↦ elim (Bool-cases (text_eq params.device_id [])) [
    | inl f ↦ inl (ground (arith, e, f))
    | inr f ↦ elim (Bool-cases (text_eq params.token [])) [
      | inl g ↦ inl (ground (arith, e, f, g))
      | inr g ↦ elim (Option-cases (kmonad_v1_token_code params.token)) [
        | inl h ↦ inl (ground (arith, e, f, g, h))
        | inr (code, h) ↦ inr (code, ground (arith, e, f, g, h))
      ]
    ]
  ]
]

pub start_identification-IsValid :
    (inputs : StartInputs) (device_id : Text) (timeout_ms : ℕ) (s : Sessions)
    → IsFresh inputs.operation_id s
    → IsValid s
    → IsValid (start_identification inputs device_id timeout_ms s).1
start_identification-IsValid inputs device_id timeout_ms s fresh valid =
    let after = (start_identification inputs device_id timeout_ms s).1 in
    elim (start_identification_cases inputs device_id timeout_ms s) [
      | inl e ↦ same-IsValid s after e valid
      | inr (timeout, target, platform_id, idle, e) ↦
          same-IsValid (begin_identification inputs timeout target platform_id s).1 after e
            (begin_identification-IsValid inputs timeout target platform_id s idle fresh valid)
    ]

pub start_identification-Begins :
    (inputs : StartInputs) (device_id : Text) (timeout_ms : ℕ) (s : Sessions)
    → Begins inputs s (start_identification inputs device_id timeout_ms s).1
start_identification-Begins inputs device_id timeout_ms s =
    elim (start_identification_cases inputs device_id timeout_ms s) [
      | inl e ↦ inl e
      | inr (timeout, target, platform_id, idle, e) ↦
          subst (Begins inputs s) (sym e)
            (begin_identification-Begins inputs timeout target platform_id s)
    ]

check_probe-IsValid :
    (inputs : StartInputs) (params : ProbeParams) (code : ℕ) (s : Sessions)
    → IsFresh inputs.operation_id s
    → IsValid s
    → IsValid (check_probe inputs params code s).1
check_probe-IsValid inputs params code s fresh valid =
    let after = (check_probe inputs params code s).1 in
    elim (check_probe_cases inputs params code s) [
      | inl e ↦ same-IsValid s after e valid
      | inr (timeout, target, platform_id, idle, e) ↦
          same-IsValid (begin_probe inputs timeout params.token code target platform_id s).1 after e
            (begin_probe-IsValid inputs timeout params.token code target platform_id s idle fresh
              valid)
    ]

check_probe-Begins :
    (inputs : StartInputs) (params : ProbeParams) (code : ℕ) (s : Sessions)
    → Begins inputs s (check_probe inputs params code s).1
check_probe-Begins inputs params code s = elim (check_probe_cases inputs params code s) [
  | inl e ↦ inl e
  | inr (timeout, target, platform_id, idle, e) ↦
      subst (Begins inputs s) (sym e)
        (begin_probe-Begins inputs timeout params.token code target platform_id s)
]

pub start_probe-IsValid :
    (inputs : StartInputs) (params : ProbeParams) (s : Sessions)
    → IsFresh inputs.operation_id s
    → IsValid s
    → IsValid (start_probe inputs params s).1
start_probe-IsValid inputs params s fresh valid =
    let after = (start_probe inputs params s).1 in
    elim (start_probe_cases inputs params s) [
      | inl e ↦ same-IsValid s after e valid
      | inr (code, e) ↦
          same-IsValid (check_probe inputs params code s).1 after e
            (check_probe-IsValid inputs params code s fresh valid)
    ]

pub start_probe-Begins :
    (inputs : StartInputs) (params : ProbeParams) (s : Sessions)
    → Begins inputs s (start_probe inputs params s).1
start_probe-Begins inputs params s = elim (start_probe_cases inputs params s) [
  | inl e ↦ inl e
  | inr (code, e) ↦ subst (Begins inputs s) (sym e) (check_probe-Begins inputs params code s)
]
