-- ===== src/Broker/Wire.antt =====
-- The wire protocol of internal/platform/broker_wire.go. `encoding/json` is a parameter: `decode` is
-- the first `Decode` of a decoder with `DisallowUnknownFields` and gives the bytes that it has not
-- read, `decode_next` is a second `Decode` on those, and `marshal` is `json.Marshal`.
pub mod Replies
mod Tests
use kmonad_device_manager.Prelude.{
  ℕ, ◌+◌, ◌≤◌, ◌≡◌, ◌≢◌, ◌⊎◌, inl, inr, refl, ap, Bool, true, false, List, [], ◌∷◌, ◌++◌, Text,
  Text-eq, text, Option, none, some, arith, if◌then◌else◌, length, length-append, ltb, ◌==◌, not,
  is_some,
}
use kmonad_device_manager.Broker.{
  BrokerOperation, BrokerError, malformed_request, unsupported, unauthorized, expired, not_found,
  already_active, BrokerRequest, BrokerAuthorization, BrokerAuthorizer, valid_broker_id,
  validate_request,
}
use kmonad_device_manager.Broker
use kmonad_device_manager.Broker.Authorizer.{authorize}
use kmonad_device_manager.Broker.Frames.{
  privileged_broker_frame_limit, WireError, broker, frame_too_large, closed, marshal_failed,
  WireResult, ok, err,
}

-- There is no user in a request on the wire.
pub record BrokerWireRequest : Type 0 where
  pub version : ℕ
  pub operation : BrokerOperation
  pub request_id : Text
  pub configuration_id : Text
  pub snapshot_id : Text

pub record BrokerWireError : Type 0 where
  pub code : Text
  pub message : Text

pub record BrokerWireResponse : Type 0 where
  pub request_id : Text
  pub authorization : Option BrokerAuthorization
  pub error : Option BrokerWireError

-- A second `Decode`: the end of the input, one more value, or an error.
pub data NextValue : Type 0 where
  at_end value invalid : NextValue

unfoldable pub broker_wire_error : BrokerError → BrokerWireError
broker_wire_error malformed_request = record {
  code = text "invalid_request";
  message = text "broker request is invalid";
}
broker_wire_error unsupported = record {
  code = text "unsupported_request";
  message = text "broker request is unsupported";
}
broker_wire_error unauthorized = record {
  code = text "unauthorized";
  message = text "broker request is not authorized";
}
broker_wire_error expired = record {
  code = text "snapshot_unavailable";
  message = text "requested snapshot or configuration is unavailable";
}
broker_wire_error not_found = record {
  code = text "snapshot_unavailable";
  message = text "requested snapshot or configuration is unavailable";
}
broker_wire_error already_active = record {
  code = text "configuration_active";
  message = text "configuration is already active";
}

unfoldable pub require_broker_json_eof : NextValue → Option BrokerError
require_broker_json_eof at_end = none
require_broker_json_eof value = some malformed_request
require_broker_json_eof invalid = some malformed_request

-- The request that a decoded frame makes for the peer of the transport.
abbrev pub bind_request : BrokerWireRequest → Text → BrokerRequest
bind_request wire authenticated_user_id = record {
  version = wire.version;
  operation = wire.operation;
  request_id = wire.request_id;
  user_id = authenticated_user_id;
  configuration_id = wire.configuration_id;
  snapshot_id = wire.snapshot_id;
}

-- `(response.Authorization == nil) == (response.Error == nil)`
abbrev same : Bool → Bool → Bool
same true b = b
same false b = not b

abbrev checked_request : BrokerRequest → Option BrokerError → WireResult BrokerRequest
checked_request request none = ok request
checked_request request (some e) = err (broker e)

-- `HandleBrokerWireRequest` once the authorizer has answered: exactly one result is filled in.
abbrev pub wire_response : Text → Broker.Result BrokerAuthorization → BrokerWireResponse
wire_response request_id (Broker.Result.ok authorization) = record {
  request_id = request_id;
  authorization = some authorization;
  error = none;
}
wire_response request_id (Broker.Result.err e) = record {
  request_id = request_id;
  authorization = none;
  error = some (broker_wire_error e);
}

module _ (decode : Text → Option (BrokerWireRequest × Text)) (decode_next : Text → NextValue) where
  unfoldable pub parse_broker_wire_request : Text → Text → WireResult BrokerRequest
  unfolding require_broker_json_eof
  parse_broker_wire_request frame authenticated_user_id =
      if not (valid_broker_id authenticated_user_id)
      then err (broker unauthorized)
      else elim (decode frame) [
        | none ↦ err (broker malformed_request)
        | some (wire, rest) ↦ elim (require_broker_json_eof (decode_next rest)) [
          | some e ↦ err (broker e)
          | none ↦
              let request = bind_request wire authenticated_user_id in
              checked_request request (validate_request request)
        ]
      ]

module _ (marshal : BrokerWireResponse → Option Text) where
  unfoldable pub marshal_broker_wire_response : BrokerWireResponse → WireResult Text
  marshal_broker_wire_response response =
      if not (valid_broker_id response.request_id)
      then err (broker malformed_request)
      else if same (is_some response.authorization) (is_some response.error)
      then err (broker malformed_request)
      else elim (marshal response) [
        | none ↦ err marshal_failed
        | some bytes ↦
            if ltb privileged_broker_frame_limit (length bytes + 1)
            then err frame_too_large
            else ok (bytes ++ (b'\n' ∷ []))
      ]

module _ (decode : Text → Option (BrokerWireRequest × Text)) (decode_next : Text → NextValue)
    (marshal : BrokerWireResponse → Option Text) where
  -- The reply to a parsed request, and the authorizer after it.
  unfoldable pub answer_request :
      ℕ → ℕ → BrokerRequest → BrokerAuthorizer → WireResult Text × BrokerAuthorizer
  answer_request now audit_now request a =
      let (result, a') = authorize now audit_now request a in
      (marshal_broker_wire_response marshal (wire_response request.request_id result), a')

  unfoldable pub handle_broker_wire_request :
      ℕ → ℕ → Text → Text → Option BrokerAuthorizer → WireResult Text × Option BrokerAuthorizer
  unfolding answer_request
  handle_broker_wire_request now audit_now frame authenticated_user_id none =
      (err (broker unsupported), none)
  handle_broker_wire_request now audit_now frame authenticated_user_id (some a) =
      elim (parse_broker_wire_request decode decode_next frame authenticated_user_id) [
        | err e ↦ (err e, some a)
        | ok request ↦ let (reply, a') = answer_request now audit_now request a in (reply, some a')
      ]
