-- ===== src/Broker/Wire/Tests.antt =====
-- Runs of the framing and the wire protocol of internal/platform/broker_wire.go at concrete inputs.
use kmonad_device_manager.Prelude.{
  ◌≡◌, ◌≤◌, refl, Option, some, [], ◌∷◌, ◌++◌, Text, Text-eq, text, length, arith,
}
use kmonad_device_manager.Prelude.Dict.{lookup}
use kmonad_device_manager.Broker.{
  BrokerRequest, start, valid_broker_id, validate_request, validate_snapshot_selection,
}
use kmonad_device_manager.Broker.Authorizer.{
  new_broker_authorizer, authorize, decide_request, authorize_operation, authorize_start,
}
use kmonad_device_manager.Broker.Frames.{
  privileged_broker_frame_limit, read_broker_frame, ok, trim_suffix,
}
use kmonad_device_manager.Broker.Frames.RoundTrip.{read_broker_frame_line}
use kmonad_device_manager.Broker.Wire.{
  BrokerWireRequest, BrokerWireResponse, NextValue, at_end, wire_response,
  parse_broker_wire_request, require_broker_json_eof, marshal_broker_wire_response, answer_request,
  handle_broker_wire_request,
}
use kmonad_device_manager.Broker.Wire.Replies.{IsPrintable, reply_bounded}

read_broker_frame_line_example :
    read_broker_frame (text "frame" ++ (b'\n' ∷ text "next")) ≡ (ok (text "frame"), text "next")
unfolding trim_suffix
read_broker_frame_line_example =
    read_broker_frame_line (text "frame") (text "next") refl (omega arith) refl (omega arith)

abbrev wire_start : BrokerWireRequest
wire_start = record {
  version = 1;
  operation = start;
  request_id = text "request-1";
  configuration_id = text "keyboard";
  snapshot_id = text "snapshot-1";
}

-- A codec with one request and one answer.
abbrev decode_start : Text → Option (BrokerWireRequest × Text)
decode_start frame = some (wire_start, [])

abbrev decode_end : Text → NextValue
decode_end rest = at_end

abbrev marshal_short : BrokerWireResponse → Option Text
marshal_short response = some (text "{}")

short-IsPrintable :
    (response : BrokerWireResponse) (line : Text)
    → marshal_short response ≡ some line
    → IsPrintable line
short-IsPrintable response line e = ground (arith, e)

reply_bounded_example :
    (length (text "{}" ++ (b'\n' ∷ [])) ≤ privileged_broker_frame_limit)
    × ((request : BrokerRequest) × (line : Text) × (parse_broker_wire_request decode_start
            decode_end
            (text "frame")
            (text "alice")
          ≡ ok request)
        × (marshal_short
              (wire_response request.request_id (authorize 20 21 request new_broker_authorizer).0)
            ≡ some line)
        × (text "{}" ++ (b'\n' ∷ []) ≡ line ++ (b'\n' ∷ []))
        × ((behind : Text)
            → read_broker_frame ((text "{}" ++ (b'\n' ∷ [])) ++ behind) ≡ (ok line, behind)))
unfolding handle_broker_wire_request answer_request parse_broker_wire_request valid_broker_id
    require_broker_json_eof validate_request validate_snapshot_selection
    marshal_broker_wire_response authorize decide_request authorize_operation authorize_start
    new_broker_authorizer lookup
reply_bounded_example =
    reply_bounded decode_start decode_end marshal_short 20 21 (text "frame") (text "alice")
      new_broker_authorizer (text "{}" ++ (b'\n' ∷ [])) short-IsPrintable refl
