-- ===== src/Broker/Tests.antt =====
-- Runs of the broker of internal/platform/broker.go and broker_wire.go at concrete inputs.
use kmonad_device_manager.Prelude.{◌≡◌, ◌≤◌, ◌+◌, refl, List, [], ◌∷◌, ◌++◌, Text, Text-eq, text}
use kmonad_device_manager.Prelude.Dict.{lookup, insert, delete}
use kmonad_device_manager.Broker.{
  BrokerRequest, SnapshotGrant, BrokerAuthorizer, start, stop, grant_key, valid_broker_id,
  validate_grant, validate_request, validate_snapshot_selection,
}
use kmonad_device_manager.Broker.Authorizer.{
  new_broker_authorizer, register_grant, append_audit, record_audit, authorize_start,
  authorize_stop, authorize_operation, decide_request, authorize, BrokerCall, register, request,
  step, run,
}
use kmonad_device_manager.Broker.Start.{MayStart, IsStarted, start_authorization, start_authorized}
use kmonad_device_manager.Broker.Keyed.{run-IsKeyed, new-IsKeyed}
use kmonad_device_manager.Broker.SingleUse.{starts, registrations, pending, starts_le_registrations}
use kmonad_device_manager.Broker.Isolation.{SameForUser, step-SameForUser}
use kmonad_device_manager.Broker.AuditTrail.{Trails, history, run-Trails}

abbrev start_of : Text → Text → Text → BrokerRequest
start_of user configuration snapshot = record {
  version = 1;
  operation = start;
  request_id = text "request-1";
  user_id = user;
  configuration_id = configuration;
  snapshot_id = snapshot;
}

abbrev alice_start : BrokerRequest
alice_start = start_of (text "alice") (text "keyboard") (text "snapshot-1")

abbrev alice_stop : BrokerRequest
alice_stop = record alice_start { operation = stop; snapshot_id = [] }

abbrev alice_grant : SnapshotGrant
alice_grant = record {
  user_id = text "alice";
  configuration_id = text "keyboard";
  snapshot_id = text "snapshot-1";
  expires_at = 100;
}

abbrev registered : List BrokerCall
registered = register 10 alice_grant ∷ []

abbrev granted : BrokerAuthorizer
granted = run registered new_broker_authorizer

start_authorized_example :
    ((g : SnapshotGrant) × MayStart 20 alice_start granted g)
    × (start_authorization alice_start ≡ start_authorization alice_start)
    × IsStarted alice_start (authorize 20 21 alice_start granted).1
unfolding run step new_broker_authorizer register_grant validate_grant valid_broker_id insert lookup
    authorize decide_request authorize_operation authorize_start validate_request
    validate_snapshot_selection record_audit append_audit
start_authorized_example =
    start_authorized 20 21 alice_start granted (start_authorization alice_start)
      (run-IsKeyed registered new_broker_authorizer new-IsKeyed) refl refl

-- A second use of the snapshot, a stop between the two, and a second registration.
abbrev reuse : List BrokerCall
reuse =
    register 10 alice_grant
    ∷ request 20 21 alice_start
    ∷ request 30 31 alice_stop
    ∷ request 40 41 alice_start
    ∷ register 50 alice_grant
    ∷ request 60 61 alice_start
    ∷ []

starts_le_registrations_example :
    starts (grant_key (text "alice") (text "snapshot-1")) reuse new_broker_authorizer
      + pending (grant_key (text "alice") (text "snapshot-1")) (run reuse new_broker_authorizer)
    ≤ registrations (grant_key (text "alice") (text "snapshot-1")) reuse new_broker_authorizer
      + pending (grant_key (text "alice") (text "snapshot-1")) new_broker_authorizer
starts_le_registrations_example =
    starts_le_registrations (grant_key (text "alice") (text "snapshot-1")) reuse
      new_broker_authorizer

-- The snapshot starts twice, once for each registration.
one_run_for_each_grant :
    starts (grant_key (text "alice") (text "snapshot-1")) reuse new_broker_authorizer ≡ 2
unfolding new_broker_authorizer register_grant validate_grant valid_broker_id insert lookup delete
    step authorize decide_request authorize_operation authorize_start authorize_stop record_audit
    append_audit validate_request validate_snapshot_selection
one_run_for_each_grant = refl

abbrev bob_start : BrokerRequest
bob_start = start_of (text "bob") (text "keyboard") (text "snapshot-1")

step-SameForUser_example :
    SameForUser (text "alice") (step (request 20 21 bob_start) granted) granted
unfolding valid_broker_id
step-SameForUser_example =
    step-SameForUser (text "alice") refl (request 20 21 bob_start) granted (λ p. cc)

run-Trails_example :
    Trails (run reuse new_broker_authorizer).audit ([] ++ history reuse new_broker_authorizer)
unfolding new_broker_authorizer
run-Trails_example = run-Trails reuse new_broker_authorizer [] refl
