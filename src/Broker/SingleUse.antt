-- ===== src/Broker/SingleUse.antt =====
-- A registered snapshot of internal/platform/broker.go starts at most once, over any sequence of calls.
use kmonad_device_manager.Prelude.{
  ℕ, ◌+◌, ◌≤◌, ◌≡◌, Bool, true, false, List, [], ◌∷◌, Text, Text-eq, text_eq, Option, none, some,
  text_eq_iff, arith, is_some, ◌&&◌,
}
use kmonad_device_manager.Prelude.Dict.{lookup, lookup-insert, lookup-delete}
use kmonad_device_manager.Broker.{
  BrokerRequest, SnapshotGrant, BrokerAuthorization, BrokerAuthorizer, grant_key, Result, ok, err,
  BrokerError,
}
use kmonad_device_manager.Broker.Authorizer.{
  register_grant, authorize_start, authorize_stop, authorize_operation, decide_request,
  record_audit, record_abort, authorize, abort_start, BrokerCall, register, request, abort, step,
  run, is_start,
}

abbrev as_count : Bool → ℕ
as_count true = 1
as_count false = 0

abbrev is_ok {ℓ} : {A : Type ℓ} → Result A → Bool
is_ok (ok a) = true
is_ok (err e) = false

abbrev is_nil : Option BrokerError → Bool
is_nil none = true
is_nil (some e) = false

-- Does the call start the snapshot with this key?
abbrev pub starts_now : Text → BrokerCall → BrokerAuthorizer → ℕ
starts_now key (request now audit_now r) a = as_count (
    is_start r.operation
    && text_eq (grant_key r.user_id r.snapshot_id) key
    && is_ok (authorize now audit_now r a).0)
starts_now key _ a = 0

-- Does the call register a grant with this key?
abbrev pub registers_now : Text → BrokerCall → BrokerAuthorizer → ℕ
registers_now key (register now grant) a = as_count (
    text_eq (grant_key grant.user_id grant.snapshot_id) key
    && is_nil (register_grant now grant a).0)
registers_now key _ a = 0

abbrev pub starts : Text → List BrokerCall → BrokerAuthorizer → ℕ
starts key [] a = 0
starts key (c ∷ calls) a = starts_now key c a + starts key calls (step c a)

abbrev pub registrations : Text → List BrokerCall → BrokerAuthorizer → ℕ
registrations key [] a = 0
registrations key (c ∷ calls) a = registers_now key c a + registrations key calls (step c a)

abbrev pub pending : Text → BrokerAuthorizer → ℕ
pending key a = as_count (is_some (lookup key a.grants))

register_grant-pending :
    (key : Text) (now : ℕ) (grant : SnapshotGrant) (a : BrokerAuthorizer)
    → pending key (register_grant now grant a).1
      ≡ registers_now key (register now grant) a + pending key a
unfolding register_grant
register_grant-pending key now grant a = ground (
  arith,
  lookup-insert (grant_key grant.user_id grant.snapshot_id) key grant a.grants,
  text_eq_iff (grant_key grant.user_id grant.snapshot_id) key,
)

authorize_start-pending :
    (key : Text) (now : ℕ) (r : BrokerRequest) (a : BrokerAuthorizer)
    → as_count
          (text_eq (grant_key r.user_id r.snapshot_id) key && is_ok (authorize_start now r a).0)
        + pending key (authorize_start now r a).1
      ≤ pending key a
unfolding authorize_start
authorize_start-pending key now r a = ground (
  arith,
  lookup-delete (grant_key r.user_id r.snapshot_id) key a.grants,
  text_eq_iff (grant_key r.user_id r.snapshot_id) key,
)

authorize-pending :
    (key : Text) (now audit_now : ℕ) (r : BrokerRequest) (a : BrokerAuthorizer)
    → starts_now key (request now audit_now r) a + pending key (authorize now audit_now r a).1
      ≤ pending key a
unfolding authorize decide_request authorize_operation authorize_stop record_audit
authorize-pending key now audit_now r a = ground (arith, authorize_start-pending key now r a)

abort_start-pending :
    (key : Text) (now : ℕ) (request_id : Text) (authorization : BrokerAuthorization)
    (a : BrokerAuthorizer)
    → pending key (abort_start now request_id authorization a).1 ≡ pending key a
unfolding abort_start record_abort
abort_start-pending key now request_id authorization a = ground arith

step-pending :
    (key : Text) (c : BrokerCall) (a : BrokerAuthorizer)
    → starts_now key c a + pending key (step c a) ≤ registers_now key c a + pending key a
unfolding step
step-pending key (register now grant) a = omega (arith, register_grant-pending key now grant a)
step-pending key (request now audit_now r) a =
    omega (arith, authorize-pending key now audit_now r a)
step-pending key (abort now request_id authorization) a =
    omega (arith, abort_start-pending key now request_id authorization a)

-- Over any calls, the starts of a snapshot and the grant still pending for it number at most the
-- registrations that succeeded and the grant pending at first: each registration starts at most
-- one child.
pub starts_le_registrations :
    (key : Text) (calls : List BrokerCall) (a : BrokerAuthorizer)
    → starts key calls a + pending key (run calls a) ≤ registrations key calls a + pending key a
unfolding run
starts_le_registrations key [] a = omega arith
starts_le_registrations key (c ∷ calls) a =
    omega (arith, step-pending key c a, starts_le_registrations key calls (step c a))
