-- ===== src/Broker/Wire/Replies.antt =====
-- What a controller can see of internal/platform/broker_wire.go, and what it can change.
use kmonad_device_manager.Prelude.{
  ℕ, ◌≤◌, ◌<◌, ◌≡◌, ap, ◌∙◌, append_assoc, all, leb, ◌⊎◌, inl, inr, refl, true, [], ◌∷◌, ◌++◌, Text,
  Text-eq, Option, none, some, arith, length, length-append, Option-cases,
}
use kmonad_device_manager.Broker.{
  expired, not_found, BrokerRequest, BrokerAuthorization, BrokerAuthorizer, valid_broker_id,
  validate_request,
}
use kmonad_device_manager.Broker
use kmonad_device_manager.Broker.Authorizer.{authorize}
use kmonad_device_manager.Broker.Frames.RoundTrip.{read_broker_frame_line}
use kmonad_device_manager.Broker.Frames.{
  read_broker_frame, no_newline, trim_suffix, privileged_broker_frame_limit, WireError, WireResult,
  ok, err,
}
use kmonad_device_manager.Broker.Wire.{
  BrokerWireRequest, BrokerWireResponse, NextValue, at_end, broker_wire_error, bind_request,
  wire_response, parse_broker_wire_request, marshal_broker_wire_response, answer_request,
  handle_broker_wire_request,
}

WireResult-cases :
    (r : WireResult BrokerRequest)
    → ((e : WireError) × (r ≡ err e)) ⊎ ((request : BrokerRequest) × (r ≡ ok request))
WireResult-cases (err e) = inl (e, refl)
WireResult-cases (ok request) = inr (request, refl)

module _ (decode : Text → Option (BrokerWireRequest × Text)) (decode_next : Text → NextValue) where
  -- A parsed request is a well-formed one: it acts for the user of the transport, whatever the
  -- frame holds, takes every other field from the frame, and the frame holds nothing more.
  parsed_request_bound :
      (frame authenticated_user_id : Text) (request : BrokerRequest)
      → parse_broker_wire_request decode decode_next frame authenticated_user_id ≡ ok request
      → (valid_broker_id authenticated_user_id ≡ true)
        × (validate_request request ≡ none)
        × ((wire : BrokerWireRequest) × (rest : Text) × (decode frame ≡ some (wire, rest))
            × (decode_next rest ≡ at_end)
            × (request ≡ bind_request wire authenticated_user_id))
  unfolding parse_broker_wire_request
  parsed_request_bound frame user request h = elim (Option-cases (decode frame)) [
    | inl failed ↦ absurd (ground arith)
    | inr ((wire, rest), decoded) ↦
        (ground arith, ground arith, (wire, rest, decoded, ground arith, ground arith))
  ]

-- Not empty, and without control characters.
abbrev pub IsPrintable : Text → Type 0
IsPrintable line = (0 < length line) × (all (λ c. leb 32 c) line ≡ true)

printable-no_newline : (line : Text) → all (λ c. leb 32 c) line ≡ true → no_newline line ≡ true
printable-no_newline [] p = refl
printable-no_newline (c ∷ cs) p = ground (arith, printable-no_newline cs)

printable-trim_suffix :
    (line : Text) → all (λ c. leb 32 c) line ≡ true → trim_suffix b'\r' line ≡ line
unfolding trim_suffix
printable-trim_suffix [] p = refl
printable-trim_suffix (c ∷ []) p = ground arith
printable-trim_suffix (c ∷ d ∷ cs) p = ground (arith, printable-trim_suffix (d ∷ cs))

module _ (decode : Text → Option (BrokerWireRequest × Text)) (decode_next : Text → NextValue)
    (marshal : BrokerWireResponse → Option Text) where
  marshal_bounded :
      (response : BrokerWireResponse) (reply : Text)
      → marshal_broker_wire_response marshal response ≡ ok reply
      → (length reply ≤ privileged_broker_frame_limit)
        × ((line : Text) × (marshal response ≡ some line) × (reply ≡ line ++ (b'\n' ∷ [])))
  unfolding marshal_broker_wire_response
  marshal_bounded response reply h = elim (Option-cases (marshal response)) [
    | inl failed ↦ absurd (ground arith)
    | inr (line, encoded) ↦
        (ground (arith, length-append line (b'\n' ∷ [])), (line, encoded, ground arith))
  ]

  -- If an encoding is not empty and has no control characters, as `encoding/json` documents, then
  -- every reply fits the frame limit, encodes the answer of `Authorize` to the parsed request, and
  -- is one frame of the protocol: whatever is sent behind it, a reader gets the encoding, and is left
  -- at what is behind it.
  pub reply_bounded :
      (now audit_now : ℕ) (frame user : Text) (a : BrokerAuthorizer) (reply : Text)
      → ((response : BrokerWireResponse) (line : Text)
          → marshal response ≡ some line
          → IsPrintable line)
      → (handle_broker_wire_request decode decode_next marshal now audit_now frame user (some a)).0
        ≡ ok reply
      → (length reply ≤ privileged_broker_frame_limit)
        × ((request : BrokerRequest) × (line : Text) × (parse_broker_wire_request decode decode_next
                frame user
              ≡ ok request)
            × (marshal (wire_response request.request_id (authorize now audit_now request a).0)
                ≡ some line)
            × (reply ≡ line ++ (b'\n' ∷ []))
            × ((behind : Text) → read_broker_frame (reply ++ behind) ≡ (ok line, behind)))
  unfolding handle_broker_wire_request answer_request
  reply_bounded now audit_now frame user a reply printable h =
      elim (WireResult-cases (parse_broker_wire_request decode decode_next frame user)) [
        | inl (e, failed) ↦ absurd (ground arith)
        | inr (request, parsed) ↦
            let (fits, (line, encoded, framed)) =
              marshal_bounded
                (wire_response request.request_id (authorize now audit_now request a).0) reply
                (ground arith) in
            (
              fits,
              (
                request,
                line,
                parsed,
                encoded,
                framed,
                λ (behind : Text).
                    let e : reply ++ behind ≡ line ++ (b'\n' ∷ behind) =
                      ap (λ (t : Text). t ++ behind) framed
                      ∙ append_assoc line (b'\n' ∷ []) behind in
                    let p =
                      printable
                        (wire_response request.request_id (authorize now audit_now request a).0)
                        line encoded in
                    ap read_broker_frame e
                    ∙ read_broker_frame_line line behind (printable-no_newline line p.1) p.0
                        (printable-trim_suffix line p.1)
                        (omega (arith, fits, ap length framed, length-append line (b'\n' ∷ []))),
              ),
            )
      ]

  -- A controller cannot tell an expired grant from one that never was, or from a configuration
  -- that is not running: the replies are the same bytes.
  expired_like_missing :
      (now audit_now : ℕ) (request : BrokerRequest) (a b : BrokerAuthorizer)
      → (authorize now audit_now request a).0 ≡ Broker.Result.err expired
      → (authorize now audit_now request b).0 ≡ Broker.Result.err not_found
      → (answer_request decode decode_next marshal now audit_now request a).0
        ≡ (answer_request decode decode_next marshal now audit_now request b).0
  unfolding answer_request broker_wire_error
  expired_like_missing now audit_now request a b ha hb = rw (ha, hb)
