-- ===== src/Broker/Start.antt =====
-- When `Authorize` of internal/platform/broker.go lets a configuration start, and what a start, a
-- stop and an aborted start do to the reservation.
use kmonad_device_manager.Prelude.{
  ℕ, ◌<◌, ◌≡◌, sym, Bool, true, false, Text, Text-eq, none, some, text_eq_iff, beq_refl,
  Option-cases, inl, inr, arith,
}
use kmonad_device_manager.Prelude.Dict.{lookup, lookup-insert, lookup-delete}
use kmonad_device_manager.Broker.{
  BrokerRequest, SnapshotGrant, BrokerAuthorization, BrokerAuthorizer, valid_broker_id, grant_key,
  configuration_key, ok, err, start, stop, cancel, validate_request, BrokerOperation,
  already_active,
}
use kmonad_device_manager.Broker.Ids.{grant_key-injective}
use kmonad_device_manager.Broker.Keyed.{IsKeyed}
use kmonad_device_manager.Broker.Authorizer.{
  authorize_start, authorize_stop, authorize_operation, decide_request, record_audit, record_abort,
  authorize, abort_start,
}

-- What a grant and the state must be for a start request to be let through.
pub record MayStart (now : ℕ) (r : BrokerRequest) (a : BrokerAuthorizer) (g : SnapshotGrant)
    : Type 0 where
  pub granted : lookup (grant_key r.user_id r.snapshot_id) a.grants ≡ some g
  pub same_user : g.user_id ≡ r.user_id
  pub same_snapshot : g.snapshot_id ≡ r.snapshot_id
  pub same_configuration : g.configuration_id ≡ r.configuration_id
  pub unexpired : now < g.expires_at
  pub idle : lookup (configuration_key r.user_id r.configuration_id) a.active ≡ none

validate_request_user :
    (r : BrokerRequest) → validate_request r ≡ none → valid_broker_id r.user_id ≡ true
unfolding validate_request
validate_request_user r h = ground arith

abbrev pub start_authorization : BrokerRequest → BrokerAuthorization
start_authorization r = record {
  operation = start;
  user_id = r.user_id;
  configuration_id = r.configuration_id;
  snapshot_id = r.snapshot_id;
}

same_owner :
    (r : BrokerRequest) (a : BrokerAuthorizer) (g : SnapshotGrant)
    → IsKeyed a.grants
    → valid_broker_id r.user_id ≡ true
    → lookup (grant_key r.user_id r.snapshot_id) a.grants ≡ some g
    → (g.user_id ≡ r.user_id) × (g.snapshot_id ≡ r.snapshot_id)
same_owner r a g w u h =
    let (same, valid) = w.at (grant_key r.user_id r.snapshot_id) g h in
    grant_key-injective g.user_id r.user_id g.snapshot_id r.snapshot_id valid u (sym same)

authorize_start-MayStart :
    (now : ℕ) (r : BrokerRequest) (a : BrokerAuthorizer) (auth : BrokerAuthorization)
    → IsKeyed a.grants
    → valid_broker_id r.user_id ≡ true
    → (authorize_start now r a).0 ≡ ok auth
    → (g : SnapshotGrant) × MayStart now r a g
unfolding authorize_start
authorize_start-MayStart now r a auth w u h =
    elim (Option-cases (lookup (grant_key r.user_id r.snapshot_id) a.grants)) [
      | inl e ↦ absurd (ground arith)
      | inr (g, e) ↦ (
        g,
        ground (arith, same_owner r a g w u, text_eq_iff g.configuration_id r.configuration_id),
      )
    ]

-- After a start the grant is spent and the configuration holds the snapshot.
pub record IsStarted (r : BrokerRequest) (a : BrokerAuthorizer) : Type 0 where
  pub spent : lookup (grant_key r.user_id r.snapshot_id) a.grants ≡ none
  pub running :
      lookup (configuration_key r.user_id r.configuration_id) a.active ≡ some r.snapshot_id

authorize_start-IsStarted :
    (now : ℕ) (r : BrokerRequest) (a : BrokerAuthorizer) (auth : BrokerAuthorization)
    → (authorize_start now r a).0 ≡ ok auth
    → (auth ≡ start_authorization r) × IsStarted r (authorize_start now r a).1
unfolding authorize_start
authorize_start-IsStarted now r a auth h = ground (
  arith,
  lookup-delete (grant_key r.user_id r.snapshot_id) (grant_key r.user_id r.snapshot_id) a.grants,
  beq_refl (grant_key r.user_id r.snapshot_id),
  lookup-insert (configuration_key r.user_id r.configuration_id)
      (configuration_key r.user_id r.configuration_id) r.snapshot_id a.active,
  beq_refl (configuration_key r.user_id r.configuration_id),
)

authorize-start :
    (now audit_now : ℕ) (r : BrokerRequest) (a : BrokerAuthorizer) (auth : BrokerAuthorization)
    → r.operation ≡ start
    → (authorize now audit_now r a).0 ≡ ok auth
    → (validate_request r ≡ none)
      × ((authorize_start now r a).0 ≡ ok auth)
      × ((authorize now audit_now r a).1.grants ≡ (authorize_start now r a).1.grants)
      × ((authorize now audit_now r a).1.active ≡ (authorize_start now r a).1.active)
unfolding authorize decide_request authorize_operation record_audit
authorize-start now audit_now r a auth o h = ground arith

-- A start request is authorized only against an unexpired grant of the same user, snapshot and
-- configuration, with that configuration idle; the answer names what was requested, the grant is
-- then spent and the configuration holds the snapshot.
pub start_authorized :
    (now audit_now : ℕ) (r : BrokerRequest) (a : BrokerAuthorizer) (auth : BrokerAuthorization)
    → IsKeyed a.grants
    → r.operation ≡ start
    → (authorize now audit_now r a).0 ≡ ok auth
    → ((g : SnapshotGrant) × MayStart now r a g)
      × (auth ≡ start_authorization r)
      × IsStarted r (authorize now audit_now r a).1
start_authorized now audit_now r a auth w o h =
    let (valid, started, grants, active) = authorize-start now audit_now r a auth o h in
    let (named, state) = authorize_start-IsStarted now r a auth started in
    (
      authorize_start-MayStart now r a auth w (validate_request_user r valid) started,
      named,
      record { spent = rw grants state.spent; running = rw active state.running },
    )

authorize_start_allowed :
    (now : ℕ) (r : BrokerRequest) (a : BrokerAuthorizer) (g : SnapshotGrant)
    → MayStart now r a g
    → (authorize_start now r a).0 ≡ ok (start_authorization r)
unfolding authorize_start
authorize_start_allowed now r a g m =
    ground (arith, text_eq_iff g.configuration_id r.configuration_id)

-- Conversely, a well-formed start request for an idle configuration with such a grant is
-- authorized.
start_allowed :
    (now audit_now : ℕ) (r : BrokerRequest) (a : BrokerAuthorizer) (g : SnapshotGrant)
    → validate_request r ≡ none
    → r.operation ≡ start
    → MayStart now r a g
    → (authorize now audit_now r a).0 ≡ ok (start_authorization r)
unfolding authorize decide_request authorize_operation
start_allowed now audit_now r a g valid o m = ground (arith, authorize_start_allowed now r a g m)

abbrev pub releases : BrokerOperation → Bool
releases stop = true
releases cancel = true
releases _ = false

-- While a configuration holds a snapshot, a well-formed start of that configuration is refused as
-- already active.
running_refuses_start :
    (now audit_now : ℕ) (r : BrokerRequest) (a : BrokerAuthorizer) (held : Text)
    → validate_request r ≡ none
    → lookup (configuration_key r.user_id r.configuration_id) a.active ≡ some held
    → r.operation ≡ start
    → (authorize now audit_now r a).0 ≡ err already_active
unfolding authorize decide_request authorize_operation authorize_start
running_refuses_start now audit_now r a held valid h o = ground arith

-- A well-formed stop or cancel of a configuration that holds a snapshot is authorized for that
-- snapshot, and leaves the configuration idle.
running_is_released :
    (now audit_now : ℕ) (r : BrokerRequest) (a : BrokerAuthorizer) (held : Text)
    → validate_request r ≡ none
    → lookup (configuration_key r.user_id r.configuration_id) a.active ≡ some held
    → releases r.operation ≡ true
    → ((authorize now audit_now r a).0
        ≡ ok (record (start_authorization r) { operation = r.operation; snapshot_id = held }))
      × (lookup
            (configuration_key r.user_id r.configuration_id)
            (authorize now audit_now r a).1.active
          ≡ none)
unfolding authorize decide_request authorize_operation authorize_stop record_audit
running_is_released now audit_now r a held valid h o = ground (
  arith,
  lookup-delete (configuration_key r.user_id r.configuration_id)
      (configuration_key r.user_id r.configuration_id) a.active,
  beq_refl (configuration_key r.user_id r.configuration_id),
)

valid_start :
    (r : BrokerRequest)
    → r.operation ≡ start
    → validate_request r ≡ none
    → (valid_broker_id r.user_id ≡ true)
      × (valid_broker_id r.configuration_id ≡ true)
      × (valid_broker_id r.snapshot_id ≡ true)
unfolding validate_request
valid_start r o valid = ground arith

abort_running :
    (now : ℕ) (request_id : Text) (r : BrokerRequest) (a : BrokerAuthorizer)
    → valid_broker_id request_id ≡ true
    → (valid_broker_id r.user_id ≡ true)
      × (valid_broker_id r.configuration_id ≡ true)
      × (valid_broker_id r.snapshot_id ≡ true)
    → IsStarted r a
    → let (e, after) = abort_start now request_id (start_authorization r) a in
      (e ≡ none)
      × (lookup (configuration_key r.user_id r.configuration_id) after.active ≡ none)
      × (lookup (grant_key r.user_id r.snapshot_id) after.grants ≡ none)
unfolding abort_start record_abort
abort_running now request_id r a v (u, c, s) st = ground (
  arith,
  beq_refl r.snapshot_id,
  lookup-delete (configuration_key r.user_id r.configuration_id)
      (configuration_key r.user_id r.configuration_id) a.active,
  beq_refl (configuration_key r.user_id r.configuration_id),
)

-- Aborting the start that was just authorized succeeds, frees the configuration and does not bring
-- the spent grant back.
abort_after_start :
    (now audit_now later : ℕ) (request_id : Text) (r : BrokerRequest) (a : BrokerAuthorizer)
    (auth : BrokerAuthorization)
    → valid_broker_id request_id ≡ true
    → r.operation ≡ start
    → (authorize now audit_now r a).0 ≡ ok auth
    → let (e, after) = abort_start later request_id auth (authorize now audit_now r a).1 in
      (e ≡ none)
      × (lookup (configuration_key r.user_id r.configuration_id) after.active ≡ none)
      × (lookup (grant_key r.user_id r.snapshot_id) after.grants ≡ none)
abort_after_start now audit_now later request_id r a auth v o h =
    let (valid, started, grants, active) = authorize-start now audit_now r a auth o h in
    let (named, state) = authorize_start-IsStarted now r a auth started in
    rw named (
      abort_running later request_id r (authorize now audit_now r a).1 v (valid_start r o valid)
        (record { spent = rw grants state.spent; running = rw active state.running }))
