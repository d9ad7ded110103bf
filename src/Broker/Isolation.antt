-- ===== src/Broker/Isolation.antt =====
-- No request of one user of internal/platform/broker.go touches what another user has.
use kmonad_device_manager.Prelude.{ℕ, ◌≡◌, ◌≢◌, refl, none, true, Text, Text-eq, arith}
use kmonad_device_manager.Prelude.Dict.{lookup, lookup-insert, lookup-delete}
use kmonad_device_manager.Broker.{
  BrokerRequest, SnapshotGrant, BrokerAuthorization, BrokerAuthorizer, grant_key, configuration_key,
  valid_broker_id, validate_grant, validate_request, BrokerOperation,
}
use kmonad_device_manager.Broker.Ids.{key_of_other_user}
use kmonad_device_manager.Broker.Authorizer.{
  register_grant, authorize_start, authorize_stop, authorize_operation, decide_request,
  record_audit, record_abort, authorize, abort_start, BrokerCall, register, request, abort, step,
}

-- The user that a call acts for.
abbrev pub caller : BrokerCall → Text
caller (register now grant) = grant.user_id
caller (request now audit_now r) = r.user_id
caller (abort now request_id authorization) = authorization.user_id

-- What the user `v` has: a grant for each snapshot, a held snapshot for each configuration.
pub record SameForUser (v : Text) (a b : BrokerAuthorizer) : Type 0 where
  pub grants : (s : Text) → lookup (grant_key v s) a.grants ≡ lookup (grant_key v s) b.grants
  pub active :
      (c : Text) → lookup (configuration_key v c) a.active ≡ lookup (configuration_key v c) b.active

SameForUser-refl : (v : Text) (a : BrokerAuthorizer) → SameForUser v a a
SameForUser-refl v a = record { grants = λ s. refl; active = λ c. refl }

validate_request_user :
    (r : BrokerRequest) → validate_request r ≡ none → valid_broker_id r.user_id ≡ true
unfolding validate_request
validate_request_user r h = ground arith

module _ (v : Text) (valid : valid_broker_id v ≡ true) where
  register_grant-SameForUser :
      (now : ℕ) (grant : SnapshotGrant) (a : BrokerAuthorizer)
      → grant.user_id ≢ v
      → SameForUser v (register_grant now grant a).1 a
  unfolding register_grant validate_grant
  register_grant-SameForUser now grant a n = record {
    grants = λ s. ground (
      arith,
      λ (u : valid_broker_id grant.user_id ≡ true).
          key_of_other_user grant.user_id v grant.snapshot_id s u valid n,
      lookup-insert (grant_key grant.user_id grant.snapshot_id) (grant_key v s) grant a.grants,
    );
    active = λ c. ground arith;
  }

  authorize_operation-SameForUser :
      (operation : BrokerOperation) (now : ℕ) (r : BrokerRequest) (a : BrokerAuthorizer)
      → valid_broker_id r.user_id ≡ true
      → r.user_id ≢ v
      → SameForUser v (authorize_operation operation now r a).1 a
  unfolding authorize_operation authorize_start authorize_stop
  authorize_operation-SameForUser operation now r a u n = record {
    grants = λ s. ground (
      arith,
      key_of_other_user r.user_id v r.snapshot_id s u valid n,
      lookup-delete (grant_key r.user_id r.snapshot_id) (grant_key v s) a.grants,
    );
    active = λ c. ground (
      arith,
      key_of_other_user r.user_id v r.configuration_id c u valid n,
      lookup-insert (configuration_key r.user_id r.configuration_id) (configuration_key v c)
          r.snapshot_id a.active,
      lookup-delete (configuration_key r.user_id r.configuration_id) (configuration_key v c)
          a.active,
    );
  }

  authorize-SameForUser :
      (now audit_now : ℕ) (r : BrokerRequest) (a : BrokerAuthorizer)
      → r.user_id ≢ v
      → SameForUser v (authorize now audit_now r a).1 a
  unfolding authorize decide_request record_audit
  authorize-SameForUser now audit_now r a n = ground (
    arith,
    SameForUser-refl v a,
    validate_request_user r,
    λ (u : valid_broker_id r.user_id ≡ true).
        authorize_operation-SameForUser r.operation now r a u n,
  )

  abort_start-SameForUser :
      (now : ℕ) (request_id : Text) (authorization : BrokerAuthorization) (a : BrokerAuthorizer)
      → authorization.user_id ≢ v
      → SameForUser v (abort_start now request_id authorization a).1 a
  unfolding abort_start record_abort
  abort_start-SameForUser now request_id authorization a n = record {
    grants = λ s. ground arith;
    active = λ c. ground (
      arith,
      λ (u : valid_broker_id authorization.user_id ≡ true).
          key_of_other_user authorization.user_id v authorization.configuration_id c u valid n,
      lookup-delete (configuration_key authorization.user_id authorization.configuration_id)
          (configuration_key v c) a.active,
    );
  }

  -- A call for one user leaves every grant and every held snapshot of any other valid user as they
  -- were, whether the call succeeds or not.
  pub step-SameForUser :
      (c : BrokerCall) (a : BrokerAuthorizer) → caller c ≢ v → SameForUser v (step c a) a
  unfolding step
  step-SameForUser (register now grant) a n = register_grant-SameForUser now grant a n
  step-SameForUser (request now audit_now r) a n = authorize-SameForUser now audit_now r a n
  step-SameForUser (abort now request_id authorization) a n =
      abort_start-SameForUser now request_id authorization a n
