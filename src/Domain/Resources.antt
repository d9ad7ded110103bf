-- ===== src/Domain/Resources.antt =====
-- The devices and configurations that clients see, of internal/manager/domain.go, and the public state
-- of internal/manager/events.go.
use kmonad_device_manager.Prelude.{ℕ, Bool, true, false, Option, List, Text}
use kmonad_device_manager.Prelude.Dict.{Dict}
use kmonad_device_manager.Domain.{ReasonCode, Operation, Diagnostic}

pub data DeviceAvailability : Type 0 where
  connected disconnected inaccessible unsupported conflicting : DeviceAvailability

pub data DeviceRole : Type 0 where
  input_role manager_output : DeviceRole

pub data IdentityStability : Type 0 where
  serial_identity topology_identity platform_identity unknown_identity : IdentityStability

pub record Device : Type 0 where
  pub id : Text
  pub display_name : Text
  pub role : DeviceRole
  pub vendor : Text
  pub product : Text
  pub serial : Text
  pub availability : DeviceAvailability
  pub identity_stability : IdentityStability
  pub configured_by : List Text
  pub runtime_conflict : Bool
  pub reason_code : ReasonCode
  pub reason : Text

pub data ConfigurationOwnership : Type 0 where
  managed external : ConfigurationOwnership

abbrev pub same_ownership : ConfigurationOwnership → ConfigurationOwnership → Bool
same_ownership managed managed = true
same_ownership external external = true
same_ownership _ _ = false

pub data RuntimePhase : Type 0 where
  runtime_discovered runtime_validating runtime_waiting runtime_applying : RuntimePhase
  runtime_running runtime_backoff runtime_failed runtime_duplicate : RuntimePhase
  runtime_stopped runtime_disabled runtime_recovering : RuntimePhase

pub record RuntimeState : Type 0 where
  pub phase : RuntimePhase
  pub reason_code : ReasonCode
  pub reason : Text
  pub connected : Bool
  pub healthy : Bool
  pub retry_at : Option ℕ
  pub failure_count : ℕ

pub record Configuration : Type 0 where
  pub id : Text
  pub name : Text
  pub ownership : ConfigurationOwnership
  pub enabled : Bool
  pub device_id : Text
  pub desired_revision : ℕ
  pub active_revision : ℕ
  pub content_revision : ℕ
  pub runtime : RuntimeState
  pub last_operation : Option Operation

pub record PublicState : Type 0 where
  pub devices : Dict Text Device
  pub configurations : Dict Text Configuration
  pub operations : Dict Text Operation
  pub diagnostics : Dict Text Diagnostic
