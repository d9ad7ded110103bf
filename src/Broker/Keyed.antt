-- ===== src/Broker/Keyed.antt =====
-- A grant of internal/platform/broker.go is stored under the key of its own user and snapshot, and
-- names a valid user, whatever calls are made.
use kmonad_device_manager.Prelude.{
  ℕ, ◌≡◌, true, none, some, List, [], ◌∷◌, Text, Text-eq, text_eq_iff, arith,
}
use kmonad_device_manager.Prelude.Dict.{Dict, lookup, delete, lookup-insert, lookup-delete}
use kmonad_device_manager.Broker.{
  BrokerRequest, SnapshotGrant, BrokerAuthorization, BrokerAuthorizer, valid_broker_id, grant_key,
  start, stop, cancel, other, validate_grant, BrokerOperation,
}
use kmonad_device_manager.Broker.Authorizer.{
  new_broker_authorizer, register_grant, authorize_start, authorize_stop, authorize_operation,
  decide_request, record_audit, record_abort, authorize, abort_start, BrokerCall, register, request,
  abort, step, run,
}

pub record IsKeyed (grants : Dict Text SnapshotGrant) : Type 0 where
  pub at :
      (k : Text) (g : SnapshotGrant)
      → lookup k grants ≡ some g
      → (k ≡ grant_key g.user_id g.snapshot_id) × (valid_broker_id g.user_id ≡ true)

validate_grant_user :
    (g : SnapshotGrant) (now : ℕ) → validate_grant g now ≡ none → valid_broker_id g.user_id ≡ true
unfolding validate_grant
validate_grant_user g now h = ground arith

delete-IsKeyed :
    (k : Text) (grants : Dict Text SnapshotGrant) → IsKeyed grants → IsKeyed (delete k grants)
delete-IsKeyed k grants w = record {
  at = λ j g h. ground (arith, lookup-delete k j grants, w.at j g);
}

register_grant-IsKeyed :
    (now : ℕ) (grant : SnapshotGrant) (a : BrokerAuthorizer)
    → IsKeyed a.grants
    → IsKeyed (register_grant now grant a).1.grants
unfolding register_grant
register_grant-IsKeyed now grant a w = record {
  at = λ j g h. ground (
    arith,
    validate_grant_user grant now,
    lookup-insert (grant_key grant.user_id grant.snapshot_id) j grant a.grants,
    text_eq_iff (grant_key grant.user_id grant.snapshot_id) j,
    w.at j g,
  );
}

authorize_start-IsKeyed :
    (now : ℕ) (r : BrokerRequest) (a : BrokerAuthorizer)
    → IsKeyed a.grants
    → IsKeyed (authorize_start now r a).1.grants
unfolding authorize_start
authorize_start-IsKeyed now r a w =
    ground (arith, delete-IsKeyed (grant_key r.user_id r.snapshot_id) a.grants w)

authorize_stop-IsKeyed :
    (r : BrokerRequest) (a : BrokerAuthorizer)
    → IsKeyed a.grants
    → IsKeyed (authorize_stop r a).1.grants
unfolding authorize_stop
authorize_stop-IsKeyed r a w = ground arith

authorize_operation-IsKeyed :
    (operation : BrokerOperation) (now : ℕ) (r : BrokerRequest) (a : BrokerAuthorizer)
    → IsKeyed a.grants
    → IsKeyed (authorize_operation operation now r a).1.grants
unfolding authorize_operation
authorize_operation-IsKeyed start now r a w = authorize_start-IsKeyed now r a w
authorize_operation-IsKeyed stop now r a w = authorize_stop-IsKeyed r a w
authorize_operation-IsKeyed cancel now r a w = authorize_stop-IsKeyed r a w
authorize_operation-IsKeyed (other name) now r a w = w

authorize-IsKeyed :
    (now audit_now : ℕ) (r : BrokerRequest) (a : BrokerAuthorizer)
    → IsKeyed a.grants
    → IsKeyed (authorize now audit_now r a).1.grants
unfolding authorize decide_request record_audit
authorize-IsKeyed now audit_now r a w =
    ground (arith, authorize_operation-IsKeyed r.operation now r a w)

abort_start-IsKeyed :
    (now : ℕ) (request_id : Text) (authorization : BrokerAuthorization) (a : BrokerAuthorizer)
    → IsKeyed a.grants
    → IsKeyed (abort_start now request_id authorization a).1.grants
unfolding abort_start record_abort
abort_start-IsKeyed now request_id authorization a w = ground arith

step-IsKeyed :
    (c : BrokerCall) (a : BrokerAuthorizer) → IsKeyed a.grants → IsKeyed (step c a).grants
unfolding step
step-IsKeyed (register now grant) a w = register_grant-IsKeyed now grant a w
step-IsKeyed (request now audit_now r) a w = authorize-IsKeyed now audit_now r a w
step-IsKeyed (abort now request_id authorization) a w =
    abort_start-IsKeyed now request_id authorization a w

-- Whatever calls are made, each grant stays under the key of its own user and snapshot, and names a
-- valid user.
pub run-IsKeyed :
    (calls : List BrokerCall) (a : BrokerAuthorizer)
    → IsKeyed a.grants
    → IsKeyed (run calls a).grants
unfolding run
run-IsKeyed [] a w = w
run-IsKeyed (c ∷ calls) a w = run-IsKeyed calls (step c a) (step-IsKeyed c a w)

pub new-IsKeyed : IsKeyed new_broker_authorizer.grants
unfolding new_broker_authorizer lookup
new-IsKeyed = record { at = λ k g h. cc }
