-- ===== src/Operations.antt =====
-- The operations of internal/manager/identify.go and internal/manager/inputscan.go: the sessions in
-- which a client identifies a device or probes a key, and how many operations are retained. Times
-- are nanoseconds. The cancel function of a session's context is an effect; the identity of a session
-- is its operation's ID, which is random. `writeStatus`, the pause of the device's configurations and
-- the pass of `reconcile` are effects here: Supervisor and its children model the last two.
mod Prune
mod Target
mod Identify
mod Probe
mod Timeout
mod Sorted
mod Retained
mod Valid
mod Begun
mod Ended
mod Final
mod Forgotten
mod Keys
mod Vocabulary
mod Scan
mod Inverse
mod Counted
mod Ascending
mod ScanTests
mod Generation
mod Tests
use kmonad_device_manager.Prelude.{
  ℕ, Bool, true, false, Option, none, some, List, Text, text, text_eq,
}
use kmonad_device_manager.Prelude.Dict.{Dict}
use kmonad_device_manager.Domain.{
  Operation, OperationState, succeeded, operation_rejected, failed, rolled_back, cancelled,
}

pub record IdentificationSession : Type 0 where
  pub operation_id : Text
  pub device_id : Text
  pub platform_id : Text
  pub node_path : Text

pub record ProbeSession : Type 0 where
  pub operation_id : Text
  pub device_id : Text
  pub platform_id : Text
  pub node_path : Text
  pub token : Text
  pub code : ℕ

-- What a command does outside the manager's maps: it publishes an operation's change, pauses the
-- configurations of a device, writes the status, starts to wait for a keypress with a time limit,
-- cancels the wait of a session, or reconciles.
pub data SessionEffect : Type 0 where
  published : Operation → SessionEffect
  paused : (platform_id : Text) → SessionEffect
  status_written reconciled : SessionEffect
  awaiting : (operation_id : Text) → (timeout : ℕ) → SessionEffect
  wait_cancelled : (operation_id : Text) → SessionEffect

-- The fields of `manager` that the sessions use.
pub record Sessions : Type 0 where
  pub operations : Dict Text Operation
  pub identification : Option IdentificationSession
  pub probe : Option ProbeSession
  pub effects : List SessionEffect

abbrev pub is_identification : Option IdentificationSession → Text → Bool
is_identification none id = false
is_identification (some session) id = text_eq session.operation_id id

abbrev pub is_probe : Option ProbeSession → Text → Bool
is_probe none id = false
is_probe (some session) id = text_eq session.operation_id id

-- An operation that nothing changes any more.
abbrev pub is_terminal : OperationState → Bool
is_terminal succeeded = true
is_terminal operation_rejected = true
is_terminal failed = true
is_terminal rolled_back = true
is_terminal cancelled = true
is_terminal _ = false
