-- ===== src/Operations/Probe.antt =====
-- The probe of one key in internal/manager/inputscan.go: a client names a key of the kmonad-v1
-- vocabulary, and the manager waits until it is pressed.
use kmonad_device_manager.Prelude.{
  ℕ, not, none, some, [], ◌∷◌, ◌++◌, Text, text, Text-eq, text_eq, if◌then◌else◌, is_some,
}
use kmonad_device_manager.Prelude.Dict.{Dict, lookup, insert}
use kmonad_device_manager.Domain.{
  ReasonCode, Operation, probe, waiting, succeeded, failed, cancelled, device,
}
use kmonad_device_manager.Domain.Resources.{
  DeviceAvailability, disconnected, inaccessible, unsupported,
}
use kmonad_device_manager.Service.{
  CommandResult, failed_with, succeeded_with, command_deadline_result,
}
use kmonad_device_manager.Idempotency.{IdempotencyRecord}
use kmonad_device_manager.Operations.{
  ProbeSession, Sessions, published, paused, status_written, reconciled, awaiting, wait_cancelled,
}
use kmonad_device_manager.Operations.Prune.{prune_operations}
use kmonad_device_manager.Operations.Target.{
  DiscoveredKeyboard, target_of, no_target, input_device_target, session_timeout,
}
use kmonad_device_manager.Operations.Identify.{
  StartInputs, WaitResult, pressed, deadline_exceeded, context_canceled, observation_failed, ended,
  operation_or_zero, act, timeout_error, with_error, EndInputs,
}
use kmonad_device_manager.Operations.Scan.{kmonad_v1_token_code}

-- The fields of `probeStartParams`.
pub record ProbeParams : Type 0 where
  pub device_id : Text
  pub token : Text
  pub timeout_ms : ℕ

abbrev pub probe_operation : Text → Text → Text → ℕ → Operation
probe_operation id device_id token now = record {
  id = id;
  kind = probe;
  state = waiting;
  resource = record { kind = device; id = device_id };
  started_at = now;
  updated_at = now;
  reason_code = text "operation_running";
  reason = text "waiting for the " ++ token ++ text " key";
  validation = none;
  configuration_revision = 0;
}

unfoldable pub begin_probe :
    StartInputs
    → ℕ
    → Text
    → ℕ
    → DiscoveredKeyboard
    → Text
    → Sessions
    → CommandResult Operation × Sessions
begin_probe inputs timeout token code target platform_id s = elim inputs.operation_id [
  | none ↦ (failed_with (text "internal") (text "cannot create probe operation"), s)
  | some id ↦
      if not inputs.is_observable
      then (failed_with (text "temporary_unavailable") (text "device cannot be observed"), s)
      else let operation = probe_operation id target.device.id token inputs.now in
        (
          succeeded_with operation,
          act (published operation ∷ paused platform_id ∷ status_written ∷ awaiting id timeout ∷ [])
              (record s {
                operations = insert id operation s.operations;
                probe = some (record {
                  operation_id = id;
                  device_id = target.device.id;
                  platform_id = platform_id;
                  node_path = target.node_path;
                  token = token;
                  code = code;
                });
              }),
        )
]

unfoldable pub probe_target :
    StartInputs → ProbeParams → ℕ → ℕ → Sessions → CommandResult Operation × Sessions
probe_target inputs params code timeout s =
    elim (input_device_target inputs.discovery params.device_id) [
      | no_target e ↦ (with_error e, s)
      | target_of target platform_id ↦
          begin_probe inputs timeout params.token code target platform_id s
    ]

-- Behind the check of the key.
unfoldable pub check_probe :
    StartInputs → ProbeParams → ℕ → Sessions → CommandResult Operation × Sessions
check_probe inputs params code s = elim (session_timeout params.timeout_ms) [
  | none ↦ (timeout_error, s)
  | some timeout ↦
      if is_some s.probe
      then (failed_with (text "conflict") (text "a probe session is already running"), s)
      else probe_target inputs params code timeout s
]

unfoldable pub start_probe :
    StartInputs → ProbeParams → Sessions → CommandResult Operation × Sessions
start_probe inputs params s =
    if inputs.is_expired
    then (command_deadline_result, s)
    else if text_eq params.device_id []
    then (failed_with (text "invalid_request") (text "device_id is required"), s)
    else if text_eq params.token []
    then (failed_with (text "invalid_request") (text "token is required"), s)
    else elim (kmonad_v1_token_code params.token) [
      | none ↦ (failed_with (text "invalid_request") (text "token is not a kmonad-v1 key"), s)
      | some code ↦ check_probe inputs params code s
    ]

unfoldable pub probe_failure_reason : DeviceAvailability → ReasonCode × Text
probe_failure_reason disconnected =
    (text "device_disconnected", text "device disconnected during probe")
probe_failure_reason inaccessible =
    (text "device_inaccessible", text "device became inaccessible during probe")
probe_failure_reason unsupported =
    (text "device_unsupported", text "device became unsupported during probe")
probe_failure_reason _ = (text "internal", text "key observation failed")

unfoldable pub probe_outcome : WaitResult → Text → DeviceAvailability → ℕ → Operation → Operation
probe_outcome pressed token a now operation =
    ended succeeded (text "operation_succeeded") (token ++ text " keypress received") now operation
probe_outcome deadline_exceeded token a now operation =
    ended failed (text "operation_timed_out")
      (text "no " ++ token ++ text " keypress was received before the timeout") now operation
probe_outcome context_canceled token a now operation =
    ended cancelled (text "operation_cancelled") (text "probe was cancelled") now operation
probe_outcome observation_failed token a now operation =
    let why = probe_failure_reason a in ended failed why.0 why.1 now operation

unfoldable pub end_probe :
    Dict Text IdempotencyRecord → EndInputs → WaitResult → ProbeSession → Sessions → Sessions
end_probe records inputs result session s =
    let id = session.operation_id in
    let operation =
      probe_outcome result session.token inputs.availability inputs.now
        (operation_or_zero (lookup id s.operations)) in
    act (reconciled ∷ []) (
      prune_operations records (
        act (published operation ∷ wait_cancelled id ∷ [])
          (record s { operations = insert id operation s.operations; probe = none })))

-- `finishProbe`, for the session of the operation `id`.
unfoldable pub finish_probe :
    Dict Text IdempotencyRecord → EndInputs → Text → WaitResult → Sessions → Sessions
finish_probe records inputs id result s = elim s.probe [
  | none ↦ s
  | some session ↦
      if not (text_eq session.operation_id id) then s else end_probe records inputs result session s
]

unfoldable pub cancel_probe_operation :
    Dict Text IdempotencyRecord → EndInputs → Text → Sessions → CommandResult Operation × Sessions
cancel_probe_operation records inputs id s =
    if not (is_some (lookup id s.operations))
    then (failed_with (text "not_found") (text "operation does not exist"), s)
    else elim s.probe [
      | none ↦ (
        failed_with (text "operation_not_cancellable") (text "operation is no longer running"),
        s,
      )
      | some session ↦
          if not (text_eq session.operation_id id)
          then (
            failed_with (text "operation_not_cancellable") (text "operation is no longer running"),
            s,
          )
          else let after =
              finish_probe records inputs id context_canceled (act (wait_cancelled id ∷ []) s) in
            (succeeded_with (operation_or_zero (lookup id after.operations)), after)
    ]

-- `cancelProbe`, at the end of the service.
unfoldable pub cancel_probe : Sessions → Sessions
cancel_probe s = elim s.probe [
  | none ↦ s
  | some session ↦ record (act (wait_cancelled session.operation_id ∷ []) s) { probe = none }
]
