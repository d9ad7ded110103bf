-- ===== src/Domain.antt =====
-- The vocabulary of internal/manager/domain.go. Reason codes, names and identifiers are Go strings.
-- Times are nanoseconds as natural numbers, with 0 for the zero time. The kinds and states are Go
-- strings; `no_resource`, `no_kind` and `no_state` are the empty string, their zero value.
pub mod Resources
use kmonad_device_manager.Prelude.{ℕ, Bool, true, false, Option, none, List, [], Text}

pub data ResourceKind : Type 0 where
  no_resource manager device configuration operation diagnostic : ResourceKind

pub record ResourceRef : Type 0 where
  pub kind : ResourceKind
  pub id : Text

-- In the order of `publicEventMetricTypes`.
pub data EventType : Type 0 where
  device_added device_availability_changed configuration_changed : EventType
  configuration_runtime_changed configuration_rejected configuration_rolled_back : EventType
  operation_changed diagnostic_changed manager_resync_required : EventType

abbrev pub ReasonCode : Type 0
ReasonCode = Text

pub record Event : Type 0 where
  pub event_id : ℕ
  pub state_revision : ℕ
  pub time : ℕ
  pub event_type : EventType
  pub resource : ResourceRef
  pub reason_code : ReasonCode
  pub payload : List (Text × Text)

pub data DiagnosticSeverity : Type 0 where
  severity_ok severity_warning severity_temporary severity_error : DiagnosticSeverity

pub record DiagnosticLocation : Type 0 where
  pub scope : Text
  pub start_line : ℕ
  pub start_column : ℕ
  pub end_line : ℕ
  pub end_column : ℕ

pub record Diagnostic : Type 0 where
  pub id : Text
  pub severity : DiagnosticSeverity
  pub reason_code : ReasonCode
  pub summary : Text
  pub remediation : Text
  pub resource : Option ResourceRef
  pub location : Option DiagnosticLocation

pub data ValidationOutcome : Type 0 where
  valid rejected blocked : ValidationOutcome

pub record ValidationResult : Type 0 where
  pub outcome : ValidationOutcome
  pub reason_code : ReasonCode
  pub reason : Text
  pub candidate_digest : Text
  pub diagnostics : List Diagnostic

pub data OperationKind : Type 0 where
  no_kind identify probe validate apply rollback adopt lifecycle : OperationKind

-- The states of an operation.
pub data OperationState : Type 0 where
  no_state queued running waiting cancelling succeeded : OperationState
  operation_rejected failed rolled_back cancelled : OperationState

pub record Operation : Type 0 where
  pub id : Text
  pub kind : OperationKind
  pub state : OperationState
  pub resource : ResourceRef
  pub started_at : ℕ
  pub updated_at : ℕ
  pub reason_code : ReasonCode
  pub reason : Text
  pub validation : Option ValidationResult
  pub configuration_revision : ℕ

-- The zero value, which a missing key of a map reads as.
abbrev pub no_operation : Operation
no_operation = record {
  id = [];
  kind = no_kind;
  state = no_state;
  resource = record { kind = no_resource; id = [] };
  started_at = 0;
  updated_at = 0;
  reason_code = [];
  reason = [];
  validation = none;
  configuration_revision = 0;
}

-- `apiError` of internal/manager/api_transport.go.
pub record ApiError : Type 0 where
  pub code : Text
  pub message : Text

abbrev pub is_running : OperationState → Bool
is_running running = true
is_running _ = false
