-- ===== src/Broker/AuditTrail.antt =====
-- The bounded audit trail of internal/platform/broker.go against the full history.
use kmonad_device_manager.Prelude.{
  ℕ, ◌≡◌, ap, List, [], ◌∷◌, ◌++◌, append_assoc, append-nil, Text, Option, none, some, arith,
  length, take_last,
}
use native.Mathlib.Decide.{dec_le}
use kmonad_device_manager.Prelude.{
  length-take_last, take_last_short, take_last-append_full, take_last-append_room,
}
use kmonad_device_manager.Broker.{
  BrokerRequest, SnapshotGrant, BrokerAuthorization, BrokerAuthorizer, BrokerAuditEntry,
  BrokerError, error_of, max_broker_audit_entries,
}
use kmonad_device_manager.Broker.Authorizer.{
  register_grant, authorize_start, authorize_stop, authorize_operation, decide_request,
  record_audit, record_abort, authorize, abort_start, BrokerCall, register, request, abort, step,
  run, append_audit, audit_entry, abort_entry,
}

abbrev one_if_nil : Option BrokerError → BrokerAuditEntry → List BrokerAuditEntry
one_if_nil none entry = entry ∷ []
one_if_nil (some e) entry = []

-- What a call adds to an unbounded history: every request, authorized or rejected, every abort
-- that succeeds, and no registration.
abbrev pub emitted : BrokerCall → BrokerAuthorizer → List BrokerAuditEntry
emitted (register now grant) a = []
emitted (request now audit_now r) a =
    audit_entry audit_now r (error_of (authorize now audit_now r a).0) ∷ []
emitted (abort now request_id authorization) a =
    one_if_nil (abort_start now request_id authorization a).0
      (abort_entry now request_id authorization)

abbrev pub history : List BrokerCall → BrokerAuthorizer → List BrokerAuditEntry
history [] a = []
history (c ∷ calls) a = emitted c a ++ history calls (step c a)

-- The trail keeps the last 256 entries of a history `full`.
abbrev pub Trails : List BrokerAuditEntry → List BrokerAuditEntry → Type 0
Trails audit full = audit ≡ take_last max_broker_audit_entries full

append_audit-Trails :
    (entry : BrokerAuditEntry) (audit full : List BrokerAuditEntry)
    → Trails audit full
    → Trails (append_audit entry audit) (full ++ (entry ∷ []))
unfolding append_audit
append_audit-Trails entry audit full t = elim (dec_le max_broker_audit_entries (length full)) [
  | yes long ↦
      rw (t, take_last-append_full 256 full entry (omega arith) long)
        (ground (arith, length-take_last 256 full long))
  | no short ↦
      rw (t, take_last-append_room 256 full entry (omega arith))
        (ground (arith, ap length (take_last_short 256 full (omega arith))))
]

register_grant-audit :
    (now : ℕ) (grant : SnapshotGrant) (a : BrokerAuthorizer)
    → (register_grant now grant a).1.audit ≡ a.audit
unfolding register_grant
register_grant-audit now grant a = ground arith

authorize-audit :
    (now audit_now : ℕ) (r : BrokerRequest) (a : BrokerAuthorizer)
    → (authorize now audit_now r a).1.audit
      ≡ append_audit (audit_entry audit_now r (error_of (authorize now audit_now r a).0)) a.audit
unfolding authorize decide_request authorize_operation authorize_start authorize_stop record_audit
authorize-audit now audit_now r a = ground arith

abort_start-audit :
    (now : ℕ) (request_id : Text) (authorization : BrokerAuthorization) (a : BrokerAuthorizer)
    (full : List BrokerAuditEntry)
    → Trails a.audit full
    → Trails
        (abort_start now request_id authorization a).1.audit
        (full ++ emitted (abort now request_id authorization) a)
unfolding abort_start record_abort
abort_start-audit now request_id authorization a full t = ground (
  arith,
  append_audit-Trails (abort_entry now request_id authorization) a.audit full t,
  append-nil full,
)

step-Trails :
    (c : BrokerCall) (a : BrokerAuthorizer) (full : List BrokerAuditEntry)
    → Trails a.audit full
    → Trails (step c a).audit (full ++ emitted c a)
unfolding step
step-Trails (register now grant) a full t = rw (register_grant-audit, append-nil) t
step-Trails (request now audit_now r) a full t =
    rw authorize-audit (append_audit-Trails _ a.audit full t)
step-Trails (abort now request_id authorization) a full t =
    abort_start-audit now request_id authorization a full t

-- After any calls the trail is the last 256 entries of the full history: what it held, then one
-- entry for each request, authorized or rejected, and for each abort that succeeded.
pub run-Trails :
    (calls : List BrokerCall) (a : BrokerAuthorizer) (full : List BrokerAuditEntry)
    → Trails a.audit full
    → Trails (run calls a).audit (full ++ history calls a)
unfolding run
run-Trails [] a full t = rw append-nil t
run-Trails (c ∷ calls) a full t =
    rw (← append_assoc) (run-Trails calls (step c a) (full ++ emitted c a) (step-Trails c a full t))
