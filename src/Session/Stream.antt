-- ===== src/Session/Stream.antt =====
-- src/core/stream.c: the frames of one request, in order and within a byte limit.
-- `state` is not at NULL.
pub mod Invariant
pub mod Order
use pbns.Common.{
  ℕ, ◌+◌, ◌-◌, ◌%◌, ◌^◌, Bool, true, false, not, ◌&&◌, ◌||◌, Option, none, some, List, [], ◌∷◌, ltb,
  ◌==◌, if◌then◌else◌, length, drop, bytes_equal, Status, ok, err, Error, argument, limit, format,
  service, message_type, sequence, state, checks, refuse_if, replicate,
}
use pbns.Common.Memory.{View, view_is_valid}
use pbns.Common.Words.{read_u32_be, uint32_max, uint64_max}
use pbns.Wire.Frame.{
  Frame, service_is_valid, request, response, data_record, ack, error, cancel, complete,
  control_payload_max, data_payload_max, request_id_size, ack_payload_size,
}

-- `pbns_stream_state`
pub record Stream : Type 0 where
  pub service : ℕ
  pub request_id : List ℕ
  pub byte_limit : ℕ
  pub total_bytes : ℕ
  pub next_sequence : ℕ
  pub initialized : Bool
  pub complete : Bool
  pub failed : Bool

abbrev pub zero_stream : Stream
zero_stream = record {
  service = 0;
  request_id = replicate request_id_size 0;
  byte_limit = 0;
  total_bytes = 0;
  next_sequence = 0;
  initialized = false;
  complete = false;
  failed = false;
}

-- `pbns_stream_init`
unfoldable pub init : ℕ → List ℕ → ℕ → Stream
init service_id request_id byte_limit =
    if not (service_is_valid service_id) then zero_stream else record zero_stream {
      service = service_id;
      request_id = request_id;
      byte_limit = byte_limit;
      initialized = true;
    }

-- `pbns_stream_reset`
unfoldable pub reset : Stream → Stream
reset s =
    if not s.initialized
    then s
    else record s { total_bytes = 0; next_sequence = 0; complete = false; failed = false }

-- `validate_payload`: the status, and whether the type ends the stream.
unfoldable pub validate_payload : ℕ → List ℕ → Status × Bool
validate_payload type payload =
    let n = length payload in
    if type == request || type == response
    then (refuse_if (ltb control_payload_max n) limit, false)
    else if type == data_record
    then (refuse_if (ltb data_payload_max n) limit, false)
    else if type == ack
    then (
      checks (
          refuse_if (not (n == ack_payload_size)) format
          ∷ refuse_if (read_u32_be payload == 0 || read_u32_be (drop 4 payload) == 0) format
          ∷ []),
      false,
    )
    else if type == error
    then (refuse_if (ltb control_payload_max n) limit, true)
    else if type == cancel || type == complete
    then (refuse_if (not (n == 0)) format, true)
    else (err message_type, false)

-- The checks of a frame on a live stream, in order; each failure fails the stream.
unfoldable pub accept_checks : Stream → Frame → List ℕ → List Status
accept_checks s frame payload =
    let payload_bytes = length payload in
    refuse_if s.complete state
    ∷ refuse_if (not (frame.service == s.service)) service
    ∷ refuse_if (not (bytes_equal frame.request_id s.request_id)) state
    ∷ refuse_if (not (frame.flags == 0)) format
    ∷ refuse_if (not (frame.sequence == s.next_sequence) || s.next_sequence == uint32_max) sequence
    ∷ (validate_payload frame.type payload).0
    ∷ refuse_if
        (ltb s.byte_limit s.total_bytes
          || ltb (uint64_max - s.total_bytes) payload_bytes
          || ltb (s.byte_limit - s.total_bytes) payload_bytes)
        limit
    ∷ []

abbrev pub advanced : Stream → Frame → List ℕ → Stream
advanced s frame payload = record s {
  total_bytes = (s.total_bytes + length payload) % 2 ^ 64;
  next_sequence = (s.next_sequence + 1) % 2 ^ 32;
  complete = (validate_payload frame.type payload).1;
}

abbrev pub fail_stream : Stream → Stream
fail_stream s = record s { failed = true }

-- `pbns_stream_accept`; `none` is a NULL frame.
unfoldable pub accept : Stream → Option Frame → View → Status × Stream
accept s none payload = (err argument, s)
accept s (some frame) payload =
    if not (view_is_valid payload)
    then (err argument, s)
    else if not s.initialized || s.failed
    then (err state, s)
    else elim (checks (accept_checks s frame payload.bytes)) [
      | ok ↦ (ok, advanced s frame payload.bytes)
      | err e ↦ (err e, fail_stream s)
    ]
