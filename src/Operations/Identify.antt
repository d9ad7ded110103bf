-- ===== src/Operations/Identify.antt =====
-- The identification of a device in internal/manager/identify.go: a client asks which keyboard is in
-- front of it, and the manager waits for a keypress on one of them.
use kmonad_device_manager.Prelude.{
  ℕ, Bool, not, Option, none, some, List, [], ◌∷◌, ◌++◌, Text, text, Text-eq, text_eq,
  if◌then◌else◌, is_some,
}
use kmonad_device_manager.Prelude.Dict.{Dict, lookup, insert}
use kmonad_device_manager.Domain.{
  ReasonCode, Operation, identify, OperationState, waiting, succeeded, failed, cancelled, device,
  no_operation, ApiError,
}
use kmonad_device_manager.Domain.Resources.{
  DeviceAvailability, disconnected, inaccessible, unsupported,
}
use kmonad_device_manager.Service.{
  CommandResult, failed_with, succeeded_with, command_deadline_result,
}
use kmonad_device_manager.Idempotency.{IdempotencyRecord}
use kmonad_device_manager.Operations.{
  IdentificationSession, Sessions, SessionEffect, published, paused, status_written, reconciled,
  awaiting, wait_cancelled,
}
use kmonad_device_manager.Operations.Prune.{prune_operations}
use kmonad_device_manager.Operations.Target.{
  Discovery, DiscoveredKeyboard, target_of, no_target, input_device_target, session_timeout,
}

-- What a start finds: whether its context is done, the devices, the random ID of the operation
-- (`none` is an error), whether the node can be observed, and the time.
pub record StartInputs : Type 0 where
  pub is_expired : Bool
  pub discovery : Discovery
  pub operation_id : Option Text
  pub is_observable : Bool
  pub now : ℕ

-- How the wait for a keypress ended.
pub data WaitResult : Type 0 where
  pressed deadline_exceeded context_canceled observation_failed : WaitResult

-- The changes that the session's operation goes through.
abbrev pub ended : OperationState → ReasonCode → Text → ℕ → Operation → Operation
ended state reason_code reason now operation = record operation {
  state = state;
  reason_code = reason_code;
  reason = reason;
  updated_at = now;
}

abbrev pub operation_or_zero : Option Operation → Operation
operation_or_zero none = no_operation
operation_or_zero (some operation) = operation

abbrev pub act : List SessionEffect → Sessions → Sessions
act effects s = record s { effects = s.effects ++ effects }

abbrev pub timeout_error {ℓ} : {A : Type ℓ} → CommandResult A
timeout_error =
    failed_with (text "invalid_request") (text "timeout_ms must be between 1000 and 30000")

abbrev pub with_error {ℓ} : {A : Type ℓ} → ApiError → CommandResult A
with_error e = record { result = none; error = some e }

abbrev pub identify_operation : Text → Text → ℕ → Operation
identify_operation id device_id now = record {
  id = id;
  kind = identify;
  state = waiting;
  resource = record { kind = device; id = device_id };
  started_at = now;
  updated_at = now;
  reason_code = text "operation_running";
  reason = text "waiting for a keypress";
  validation = none;
  configuration_revision = 0;
}

unfoldable pub begin_identification :
    StartInputs → ℕ → DiscoveredKeyboard → Text → Sessions → CommandResult Operation × Sessions
begin_identification inputs timeout target platform_id s = elim inputs.operation_id [
  | none ↦ (failed_with (text "internal") (text "cannot create identification operation"), s)
  | some id ↦
      if not inputs.is_observable
      then (failed_with (text "temporary_unavailable") (text "device cannot be observed"), s)
      else let operation = identify_operation id target.device.id inputs.now in
        (
          succeeded_with operation,
          act (published operation ∷ paused platform_id ∷ status_written ∷ awaiting id timeout ∷ [])
              (record s {
                operations = insert id operation s.operations;
                identification = some (record {
                  operation_id = id;
                  device_id = target.device.id;
                  platform_id = platform_id;
                  node_path = target.node_path;
                });
              }),
        )
]

unfoldable pub identify_target :
    StartInputs → Text → ℕ → Sessions → CommandResult Operation × Sessions
identify_target inputs device_id timeout s = elim (input_device_target inputs.discovery device_id) [
  | no_target e ↦ (with_error e, s)
  | target_of target platform_id ↦ begin_identification inputs timeout target platform_id s
]

unfoldable pub start_identification :
    StartInputs → Text → ℕ → Sessions → CommandResult Operation × Sessions
start_identification inputs device_id timeout_ms s =
    if inputs.is_expired
    then (command_deadline_result, s)
    else if text_eq device_id []
    then (failed_with (text "invalid_request") (text "device_id is required"), s)
    else if is_some s.identification
    then (failed_with (text "conflict") (text "an identification session is already running"), s)
    else elim (session_timeout timeout_ms) [
      | none ↦ (timeout_error, s)
      | some timeout ↦ identify_target inputs device_id timeout s
    ]

unfoldable pub identification_failure_reason : DeviceAvailability → ReasonCode × Text
identification_failure_reason disconnected =
    (text "device_disconnected", text "device disconnected during identification")
identification_failure_reason inaccessible =
    (text "device_inaccessible", text "device became inaccessible during identification")
identification_failure_reason unsupported =
    (text "device_unsupported", text "device became unsupported during identification")
identification_failure_reason _ = (text "internal", text "keypress observation failed")

unfoldable pub identification_outcome : WaitResult → DeviceAvailability → ℕ → Operation → Operation
identification_outcome pressed a now operation =
    ended succeeded (text "operation_succeeded") (text "keypress received") now operation
identification_outcome deadline_exceeded a now operation =
    ended failed (text "operation_timed_out") (text "no keypress was received before the timeout")
      now operation
identification_outcome context_canceled a now operation =
    ended cancelled (text "operation_cancelled") (text "identification was cancelled") now operation
identification_outcome observation_failed a now operation =
    let why = identification_failure_reason a in ended failed why.0 why.1 now operation

-- The time of an end, and the availability of the device then.
pub record EndInputs : Type 0 where
  pub now : ℕ
  pub availability : DeviceAvailability

-- The end of the session that runs; `session.cancel()` comes before the pruning.
unfoldable pub end_identification :
    Dict Text IdempotencyRecord
    → EndInputs
    → WaitResult
    → IdentificationSession
    → Sessions
    → Sessions
end_identification records inputs result session s =
    let id = session.operation_id in
    let operation =
      identification_outcome result inputs.availability inputs.now
        (operation_or_zero (lookup id s.operations)) in
    act (reconciled ∷ []) (
      prune_operations records (
        act (published operation ∷ wait_cancelled id ∷ [])
          (record s { operations = insert id operation s.operations; identification = none })))

-- `finishIdentification`, for the session of the operation `id`.
unfoldable pub finish_identification :
    Dict Text IdempotencyRecord → EndInputs → Text → WaitResult → Sessions → Sessions
finish_identification records inputs id result s = elim s.identification [
  | none ↦ s
  | some session ↦
      if not (text_eq session.operation_id id)
      then s
      else end_identification records inputs result session s
]

unfoldable pub cancel_identification_operation :
    Dict Text IdempotencyRecord → EndInputs → Text → Sessions → CommandResult Operation × Sessions
cancel_identification_operation records inputs id s =
    if not (is_some (lookup id s.operations))
    then (failed_with (text "not_found") (text "operation does not exist"), s)
    else elim s.identification [
      | none ↦ (
        failed_with (text "operation_not_cancellable") (text "operation is no longer running"),
        s,
      )
      | some session ↦
          if not (text_eq session.operation_id id)
          then (
            failed_with (text "operation_not_cancellable") (text "operation is no longer running"),
            s,
          )
          else let after =
              finish_identification records inputs id context_canceled
                (act (wait_cancelled id ∷ []) s) in
            (succeeded_with (operation_or_zero (lookup id after.operations)), after)
    ]

unfoldable pub identification_operation : Text → Sessions → CommandResult Operation
identification_operation id s = elim (lookup id s.operations) [
  | none ↦ failed_with (text "not_found") (text "operation does not exist")
  | some operation ↦ succeeded_with operation
]

-- `cancelIdentification`, at the end of the service.
unfoldable pub cancel_identification : Sessions → Sessions
cancel_identification s = elim s.identification [
  | none ↦ s
  | some session ↦ record (act (wait_cancelled session.operation_id ∷ []) s) {
    identification = none;
  }
]
