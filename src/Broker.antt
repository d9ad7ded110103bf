-- ===== src/Broker.antt =====
-- The data of internal/platform/broker.go: requests, grants, authorizations, audit records and the
-- state of the authorizer, with the checks that every call makes on what it is given.
-- Times are nanoseconds as natural numbers. An error is its sentinel: what `fmt.Errorf` adds to the
-- text is not modelled, and `errors.Is` reads only the sentinel.
pub mod Authorizer
pub mod Ids
pub mod Keyed
pub mod Start
pub mod Rejected
pub mod SingleUse
pub mod Isolation
pub mod AuditTrail
pub mod Frames
pub mod Wire
mod Tests
use kmonad_device_manager.Prelude.{
  ℕ, Bool, true, false, not, ◌&&◌, ◌||◌, Option, none, some, List, [], ◌∷◌, ◌++◌, Text, text,
  text_eq, ltb, leb, ◌==◌, if◌then◌else◌, length, all,
}
use kmonad_device_manager.Prelude.Dict.{Dict}

-- A Go string: the three known operations, and every other value.
pub data BrokerOperation : Type 0 where
  start stop cancel : BrokerOperation
  other : Text → BrokerOperation

pub data BrokerError : Type 0 where
  malformed_request unsupported unauthorized expired not_found already_active : BrokerError

-- `(value, error)` of a call.
pub data Result {ℓ} (A : Type ℓ) : Type ℓ where
  ok : A → Result A
  err : BrokerError → Result A

abbrev pub error_of {ℓ} : {A : Type ℓ} → Result A → Option BrokerError
error_of (ok a) = none
error_of (err e) = some e

pub record BrokerRequest : Type 0 where
  pub version : ℕ
  pub operation : BrokerOperation
  pub request_id : Text
  pub user_id : Text
  pub configuration_id : Text
  pub snapshot_id : Text

pub record SnapshotGrant : Type 0 where
  pub user_id : Text
  pub configuration_id : Text
  pub snapshot_id : Text
  pub expires_at : ℕ

pub record BrokerAuthorization : Type 0 where
  pub operation : BrokerOperation
  pub user_id : Text
  pub configuration_id : Text
  pub snapshot_id : Text

pub data BrokerAuditOutcome : Type 0 where
  authorized rejected aborted : BrokerAuditOutcome

pub record BrokerAuditEntry : Type 0 where
  pub time : ℕ
  pub request_id : Text
  pub operation : BrokerOperation
  pub user_id : Text
  pub configuration_id : Text
  pub snapshot_id : Text
  pub outcome : BrokerAuditOutcome
  pub code : Text

pub record BrokerAuthorizer : Type 0 where
  pub grants : Dict Text SnapshotGrant
  pub active : Dict Text Text
  pub audit : List BrokerAuditEntry

abbrev pub privileged_broker_protocol_version : ℕ
privileged_broker_protocol_version = 1

abbrev pub max_broker_audit_entries : ℕ
max_broker_audit_entries = 256

-- One step of the loop of `validBrokerID`. The loop goes over runes; the bytes of a rune outside
-- ASCII are all at least 128, so byte by byte the same strings pass.
abbrev pub is_broker_id_byte : ℕ → Bool
is_broker_id_byte c =
    (leb b'a' c && leb c b'z')
    || (leb b'A' c && leb c b'Z')
    || (leb b'0' c && leb c b'9')
    || c == b'-'
    || c == b'_'
    || c == b'.'

unfoldable pub valid_broker_id : Text → Bool
valid_broker_id value =
    if length value == 0 || ltb 128 (length value) then false else all is_broker_id_byte value

-- userID + "\x00" + snapshotID
abbrev pub grant_key : Text → Text → Text
grant_key user_id snapshot_id = user_id ++ (0 ∷ snapshot_id)

abbrev pub configuration_key : Text → Text → Text
configuration_key user_id configuration_id = user_id ++ (0 ∷ configuration_id)

unfoldable pub validate_grant : SnapshotGrant → ℕ → Option BrokerError
validate_grant grant now =
    if not (valid_broker_id grant.user_id)
      || not (valid_broker_id grant.configuration_id)
      || not (valid_broker_id grant.snapshot_id)
    then some malformed_request
    else if not (ltb now grant.expires_at)
    then some expired
    else none

-- The `switch` of `validateRequest`.
unfoldable pub validate_snapshot_selection : BrokerOperation → Text → Option BrokerError
validate_snapshot_selection start snapshot_id =
    if not (valid_broker_id snapshot_id) then some malformed_request else none
validate_snapshot_selection stop snapshot_id =
    if not (text_eq snapshot_id []) then some malformed_request else none
validate_snapshot_selection cancel snapshot_id =
    if not (text_eq snapshot_id []) then some malformed_request else none
validate_snapshot_selection (other name) snapshot_id = some unsupported

unfoldable pub validate_request : BrokerRequest → Option BrokerError
unfolding validate_snapshot_selection
validate_request request =
    if not (request.version == privileged_broker_protocol_version)
    then some unsupported
    else if not (valid_broker_id request.request_id)
        || not (valid_broker_id request.user_id)
        || not (valid_broker_id request.configuration_id)
    then some malformed_request
    else validate_snapshot_selection request.operation request.snapshot_id

abbrev pub broker_audit_error_code : BrokerError → Text
broker_audit_error_code malformed_request = text "malformed_request"
broker_audit_error_code unsupported = text "unsupported_request"
broker_audit_error_code unauthorized = text "unauthorized"
broker_audit_error_code expired = text "expired"
broker_audit_error_code not_found = text "not_found"
broker_audit_error_code already_active = text "already_active"
