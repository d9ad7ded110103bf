-- ===== src/Broker/Rejected.antt =====
-- What a refused request of internal/platform/broker.go leaves behind, and why it was refused.
use kmonad_device_manager.Prelude.{
  ℕ, ◌≤◌, ◌≡◌, ◌⊎◌, Bool, true, false, Text-eq, text_eq, none, some, Option-cases, inl, inr, arith,
  is_some, if◌then◌else◌,
}
use kmonad_device_manager.Prelude.Dict.{lookup, delete}
use kmonad_device_manager.Broker.{
  BrokerRequest, SnapshotGrant, BrokerAuthorizer, grant_key, configuration_key, err, BrokerError,
  start, validate_request, expired, unauthorized, not_found, already_active, malformed_request,
  unsupported,
}
use kmonad_device_manager.Broker.Authorizer.{
  authorize_start, authorize_stop, authorize_operation, decide_request, record_audit, authorize,
  is_start,
}

abbrev pub is_expired : BrokerError → Bool
is_expired expired = true
is_expired _ = false

-- A refused request changes neither the grants nor what is active, but for one case: a start that
-- is refused because its grant has expired removes that grant.
rejected_keeps :
    (now audit_now : ℕ) (r : BrokerRequest) (a : BrokerAuthorizer) (e : BrokerError)
    → (authorize now audit_now r a).0 ≡ err e
    → ((authorize now audit_now r a).1.active ≡ a.active)
      × ((authorize now audit_now r a).1.grants ≡ (
          if is_expired e then delete (grant_key r.user_id r.snapshot_id) a.grants else a.grants))
unfolding authorize decide_request authorize_operation authorize_start authorize_stop
    validate_request record_audit
rejected_keeps now audit_now r a e h = ground arith

-- The state that each refusal of a well-formed request reports.
abbrev pub Reports : BrokerError → ℕ → BrokerRequest → BrokerAuthorizer → Type 0
Reports already_active now r a =
    (r.operation ≡ start)
    × (is_some (lookup (configuration_key r.user_id r.configuration_id) a.active) ≡ true)
Reports not_found now r a =
    ((r.operation ≡ start) × (lookup (grant_key r.user_id r.snapshot_id) a.grants ≡ none))
    ⊎ ((is_start r.operation ≡ false)
        × (lookup (configuration_key r.user_id r.configuration_id) a.active ≡ none))
Reports expired now r a =
    (g : SnapshotGrant) × (lookup (grant_key r.user_id r.snapshot_id) a.grants ≡ some g)
    × (g.expires_at ≤ now)
Reports unauthorized now r a =
    (g : SnapshotGrant) × (lookup (grant_key r.user_id r.snapshot_id) a.grants ≡ some g)
    × (text_eq g.configuration_id r.configuration_id ≡ false)
Reports malformed_request now r a = validate_request r ≡ some malformed_request
Reports unsupported now r a = validate_request r ≡ some unsupported

-- Each error of `Authorize` is returned only for the reason it names: a malformed or unsupported
-- request, a configuration that is already active, a missing grant or nothing to stop, a grant
-- past its expiry, or a grant for another configuration.
refused_for_reason :
    (now audit_now : ℕ) (r : BrokerRequest) (a : BrokerAuthorizer) (e : BrokerError)
    → (authorize now audit_now r a).0 ≡ err e
    → Reports e now r a
unfolding authorize decide_request authorize_operation authorize_start authorize_stop
    validate_request
refused_for_reason now audit_now r a already_active h = ground arith
refused_for_reason now audit_now r a not_found h = ground arith
refused_for_reason now audit_now r a expired h =
    elim (Option-cases (lookup (grant_key r.user_id r.snapshot_id) a.grants)) [
      | inl missing ↦ absurd (ground arith)
      | inr (g, found) ↦ (g, found, ground arith)
    ]
refused_for_reason now audit_now r a unauthorized h =
    elim (Option-cases (lookup (grant_key r.user_id r.snapshot_id) a.grants)) [
      | inl missing ↦ absurd (ground arith)
      | inr (g, found) ↦ (g, found, ground arith)
    ]
refused_for_reason now audit_now r a malformed_request h = ground arith
refused_for_reason now audit_now r a unsupported h = ground arith
