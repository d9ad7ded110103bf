-- ===== src/Broker/Frames.antt =====
-- The JSON Lines framing of internal/platform/broker_wire.go. The stream is the bytes still to be
-- read; `ReadSlice` is modelled as documented: it looks for the delimiter in a buffer of fixed size.
pub mod RoundTrip
use kmonad_device_manager.Prelude.{
  ℕ, zero, suc, ◌+◌, ◌*◌, ◌^◌, ◌≤◌, ◌<◌, ◌≡◌, ◌≢◌, ◌⊎◌, inl, inr, Bool-cases, refl, ap, Bool, true,
  false, List, [], ◌∷◌, ◌++◌, Text, Option, none, some, arith, if◌then◌else◌, length, length-append,
  ltb, ◌==◌, ==_iff, all, all-cons, not, append_assoc,
}
use kmonad_device_manager.Broker.{BrokerError, malformed_request, unsupported}

pub data ReadError : Type 0 where
  end_of_file buffer_full : ReadError

pub record Slice : Type 0 where
  pub line : Text
  pub rest : Text
  pub failure : Option ReadError

-- `bufio.Reader.ReadSlice('\n')` over a buffer of `size` bytes.
unfoldable pub read_slice : ℕ → Text → Slice
read_slice zero bytes = record { line = []; rest = bytes; failure = some buffer_full }
read_slice (suc size) [] = record { line = []; rest = []; failure = some end_of_file }
read_slice (suc size) (c ∷ bytes) =
    let more = read_slice size bytes in
    if c == b'\n'
    then record { line = c ∷ []; rest = bytes; failure = none }
    else record more { line = c ∷ more.line }

-- `bytes.TrimSuffix` of one byte.
unfoldable pub trim_suffix : ℕ → Text → Text
trim_suffix c [] = []
trim_suffix c (x ∷ []) = if x == c then [] else x ∷ []
trim_suffix c (x ∷ y ∷ r) = x ∷ trim_suffix c (y ∷ r)

abbrev pub privileged_broker_frame_limit : ℕ
privileged_broker_frame_limit = 16 * 2 ^ 10

-- The errors of broker_wire.go: a broker sentinel, an oversized frame, the end of the stream, and a
-- failed `json.Marshal`.
pub data WireError : Type 0 where
  broker : BrokerError → WireError
  frame_too_large closed marshal_failed : WireError

pub data WireResult {ℓ} (A : Type ℓ) : Type ℓ where
  ok : A → WireResult A
  err : WireError → WireResult A

abbrev pub nonempty_frame : Text → WireResult Text
nonempty_frame [] = err (broker malformed_request)
nonempty_frame (c ∷ frame) = ok (c ∷ frame)

-- The part of `ReadBrokerFrame` behind `ReadSlice`, at a frame limit.
unfoldable pub frame_of_slice : ℕ → Slice → WireResult Text
frame_of_slice limit s = elim s.failure [
  | some buffer_full ↦ err frame_too_large
  | some end_of_file ↦ if ltb (limit + 1) (length s.line) then err frame_too_large else err closed
  | none ↦
      if ltb (limit + 1) (length s.line)
      then err frame_too_large
      else nonempty_frame (trim_suffix b'\r' (trim_suffix b'\n' s.line))
]

-- `ReadBrokerFrame` on a reader of `NewBrokerFrameReader`: the frame, and what is left to read.
unfoldable pub read_broker_frame : Text → WireResult Text × Text
read_broker_frame bytes =
    let s = read_slice (privileged_broker_frame_limit + 1) bytes in
    (frame_of_slice privileged_broker_frame_limit s, s.rest)

abbrev pub no_newline : Text → Bool
no_newline = all (λ c. not (c == b'\n'))
