-- ===== src/Broker/Authorizer.antt =====
-- The calls of `BrokerAuthorizer` in internal/platform/broker.go. Each holds the mutex from its
-- first read of the state to its last write, so a call is one function on the state. `a.now()` is
-- an argument for each reading of the clock.
use kmonad_device_manager.Prelude.{
  ℕ, Bool, true, false, not, ◌||◌, Option, none, some, List, [], ◌∷◌, ◌++◌, Text, Text-eq, text,
  text_eq, ltb, ◌==◌, if◌then◌else◌, length, drop, is_some,
}
use kmonad_device_manager.Prelude.Dict.{lookup, insert, delete}
use kmonad_device_manager.Broker.{
  BrokerOperation, start, stop, cancel, other, BrokerError, malformed_request, unsupported,
  unauthorized, expired, not_found, already_active, Result, ok, err, error_of, BrokerRequest,
  SnapshotGrant, BrokerAuthorization, BrokerAuditOutcome, authorized, rejected, aborted,
  BrokerAuditEntry, BrokerAuthorizer, max_broker_audit_entries, valid_broker_id, grant_key,
  configuration_key, validate_grant, validate_request, broker_audit_error_code,
}

unfoldable pub new_broker_authorizer : BrokerAuthorizer
new_broker_authorizer = record { grants = []; active = []; audit = [] }

-- The returned copy of the audit trail.
abbrev pub audit_trail : BrokerAuthorizer → List BrokerAuditEntry
audit_trail a = a.audit

unfoldable pub register_grant :
    ℕ → SnapshotGrant → BrokerAuthorizer → Option BrokerError × BrokerAuthorizer
register_grant now grant a = elim (validate_grant grant now) [
  | some e ↦ (some e, a)
  | none ↦
      let key = grant_key grant.user_id grant.snapshot_id in
      if is_some (lookup key a.grants)
      then (some malformed_request, a)
      else (none, record a { grants = insert key grant a.grants })
]

-- The end of `recordAudit` and of `recordAbort`: a full trail loses its oldest entry.
unfoldable pub append_audit : BrokerAuditEntry → List BrokerAuditEntry → List BrokerAuditEntry
append_audit entry audit =
    if length audit == max_broker_audit_entries
    then drop 1 audit ++ (entry ∷ [])
    else audit ++ (entry ∷ [])

abbrev pub audit_outcome : Option BrokerError → BrokerAuditOutcome
audit_outcome none = authorized
audit_outcome (some e) = rejected

abbrev pub audit_code : Option BrokerError → Text
audit_code none = text "authorized"
audit_code (some e) = broker_audit_error_code e

abbrev pub audit_entry : ℕ → BrokerRequest → Option BrokerError → BrokerAuditEntry
audit_entry now request e = record {
  time = now;
  request_id = request.request_id;
  operation = request.operation;
  user_id = request.user_id;
  configuration_id = request.configuration_id;
  snapshot_id = request.snapshot_id;
  outcome = audit_outcome e;
  code = audit_code e;
}

unfoldable pub record_audit :
    ℕ → BrokerRequest → Option BrokerError → BrokerAuthorizer → BrokerAuthorizer
record_audit now request e a = record a { audit = append_audit (audit_entry now request e) a.audit }

abbrev pub abort_entry : ℕ → Text → BrokerAuthorization → BrokerAuditEntry
abort_entry now request_id authorization = record {
  time = now;
  request_id = request_id;
  operation = start;
  user_id = authorization.user_id;
  configuration_id = authorization.configuration_id;
  snapshot_id = authorization.snapshot_id;
  outcome = aborted;
  code = text "launch_aborted";
}

unfoldable pub record_abort : ℕ → Text → BrokerAuthorization → BrokerAuthorizer → BrokerAuthorizer
record_abort now request_id authorization a = record a {
  audit = append_audit (abort_entry now request_id authorization) a.audit;
}

-- `case BrokerStart`
unfoldable pub authorize_start :
    ℕ → BrokerRequest → BrokerAuthorizer → Result BrokerAuthorization × BrokerAuthorizer
authorize_start now request a =
    let active_key = configuration_key request.user_id request.configuration_id in
    let key = grant_key request.user_id request.snapshot_id in
    if is_some (lookup active_key a.active)
    then (err already_active, a)
    else elim (lookup key a.grants) [
      | none ↦ (err not_found, a)
      | some grant ↦
          if not (ltb now grant.expires_at)
          then (err expired, record a { grants = delete key a.grants })
          else if not (text_eq grant.configuration_id request.configuration_id)
          then (err unauthorized, a)
          else (
            ok (record {
              operation = start;
              user_id = request.user_id;
              configuration_id = request.configuration_id;
              snapshot_id = request.snapshot_id;
            }),
            record a {
              grants = delete key a.grants;
              active = insert active_key request.snapshot_id a.active;
            },
          )
    ]

-- `case BrokerStop, BrokerCancel`
unfoldable pub authorize_stop :
    BrokerRequest → BrokerAuthorizer → Result BrokerAuthorization × BrokerAuthorizer
authorize_stop request a =
    let active_key = configuration_key request.user_id request.configuration_id in
    elim (lookup active_key a.active) [
      | none ↦ (err not_found, a)
      | some snapshot_id ↦ (
        ok (record {
          operation = request.operation;
          user_id = request.user_id;
          configuration_id = request.configuration_id;
          snapshot_id = snapshot_id;
        }),
        record a { active = delete active_key a.active },
      )
    ]

-- The `switch` of `Authorize`.
unfoldable pub authorize_operation :
    BrokerOperation
    → ℕ
    → BrokerRequest
    → BrokerAuthorizer
    → Result BrokerAuthorization × BrokerAuthorizer
authorize_operation start now request a = authorize_start now request a
authorize_operation stop now request a = authorize_stop request a
authorize_operation cancel now request a = authorize_stop request a
authorize_operation (other name) now request a = (err unsupported, a)

-- `Authorize` without the deferred audit record.
unfoldable pub decide_request :
    ℕ → BrokerRequest → BrokerAuthorizer → Result BrokerAuthorization × BrokerAuthorizer
decide_request now request a = elim (validate_request request) [
  | some e ↦ (err e, a)
  | none ↦ authorize_operation request.operation now request a
]

-- `now` is the clock at the expiry test, `audit_now` at the deferred `recordAudit`.
unfoldable pub authorize :
    ℕ → ℕ → BrokerRequest → BrokerAuthorizer → Result BrokerAuthorization × BrokerAuthorizer
authorize now audit_now request a =
    let (result, a') = decide_request now request a in
    (result, record_audit audit_now request (error_of result) a')

abbrev pub is_start : BrokerOperation → Bool
is_start start = true
is_start _ = false

-- `!active || snapshotID != authorization.SnapshotID`
abbrev pub holds_reservation : Option Text → Text → Bool
holds_reservation none snapshot_id = false
holds_reservation (some held) snapshot_id = text_eq held snapshot_id

unfoldable pub abort_start :
    ℕ → Text → BrokerAuthorization → BrokerAuthorizer → Option BrokerError × BrokerAuthorizer
abort_start now request_id authorization a =
    let key = configuration_key authorization.user_id authorization.configuration_id in
    if not (valid_broker_id request_id)
      || not (is_start authorization.operation)
      || not (valid_broker_id authorization.user_id)
      || not (valid_broker_id authorization.configuration_id)
      || not (valid_broker_id authorization.snapshot_id)
    then (some malformed_request, a)
    else if not (holds_reservation (lookup key a.active) authorization.snapshot_id)
    then (some not_found, a)
    else (
      none,
      record_abort now request_id authorization (record a { active = delete key a.active }),
    )

-- The calls that a broker makes on its authorizer, in the order in which they take the mutex.
pub data BrokerCall : Type 0 where
  register : ℕ → SnapshotGrant → BrokerCall
  request : ℕ → ℕ → BrokerRequest → BrokerCall
  abort : ℕ → Text → BrokerAuthorization → BrokerCall

unfoldable pub step : BrokerCall → BrokerAuthorizer → BrokerAuthorizer
step (register now grant) a = (register_grant now grant a).1
step (request now audit_now r) a = (authorize now audit_now r a).1
step (abort now request_id authorization) a = (abort_start now request_id authorization a).1

unfoldable pub run : List BrokerCall → BrokerAuthorizer → BrokerAuthorizer
run [] a = a
run (c ∷ calls) a = run calls (step c a)
