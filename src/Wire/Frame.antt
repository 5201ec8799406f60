-- ===== src/Wire/Frame.antt =====
-- src/core/frame.c: a frame and its payload as one COBS record that ends in a zero byte.
-- Every check of the encoder stands before its first write, so they are one list, in order.
mod Types
pub mod Layout
pub mod Encode
pub mod Raw
pub mod RoundTrip
pub mod Sound
unfoldable pub use Types.*
use pbns.Common.{
  ℕ, ◌+◌, ◌-◌, ◌%◌, Bool, true, false, not, ◌&&◌, ◌||◌, Option, none, some, List, [], ◌∷◌, ◌++◌,
  ltb, leb, ◌==◌, if◌then◌else◌, length, get_or, set, take, drop, replicate, bytes_equal, Status,
  ok, err, Error, argument, limit, format, crc, version, service, message_type, checks, refuse_if,
}
use pbns.Common.Memory.{
  View, Buffer, Pointer, null, given, null_view, view_is_valid, buffer_is_valid, ranges_overlap,
  size_max,
}
use pbns.Common.Words.{u32_be, read_u32_be}
use pbns.Wire.Cobs
use pbns.Wire.Crc32c.{crc32c_bytes}

unfoldable pub validate_payload_length : (type payload_len control_limit data_limit : ℕ) → Status
validate_payload_length type payload_len control_limit data_limit =
    if type == data_record
    then refuse_if (ltb data_limit payload_len) limit
    else if type == ack
    then refuse_if (not (payload_len == ack_payload_size)) format
    else if type == cancel || type == complete
    then refuse_if (not (payload_len == 0)) format
    else if type == request || type == response || type == error
    then refuse_if (ltb control_limit payload_len) limit
    else err message_type

unfoldable pub validate_ack_payload : ℕ → List ℕ → Status
validate_ack_payload type payload =
    refuse_if (type == ack && (read_u32_be payload == 0 || read_u32_be (drop 4 payload) == 0))
      format

abbrev pub limits_are_valid : FrameLimits → Bool
limits_are_valid limits =
    leb limits.control_payload_max control_payload_max
    && leb limits.data_payload_max data_payload_max
    && leb limits.encoded_record_max wire_max

-- The bytes `raw[0]` to `raw[31]`.
unfoldable pub header_prefix : Frame → ℕ → List ℕ
header_prefix frame payload_len =
    frame_magic
    ++ protocol_version
      ∷ (frame.service % 256)
      ∷ (frame.type % 256)
      ∷ frame.flags
      ∷ (frame.request_id ++ (u32_be frame.sequence ++ u32_be payload_len))

-- Bytes followed by their checksum.
unfoldable pub with_crc : List ℕ → List ℕ
with_crc bytes = bytes ++ u32_be (crc32c_bytes bytes)

-- The whole raw record; it is written into storage that is not at NULL.
unfoldable pub raw_record : Frame → List ℕ → List ℕ
raw_record frame payload = with_crc (with_crc (header_prefix frame (length payload)) ++ payload)

-- What `pbns_frame_encode` leaves behind.
pub record Encoded : Type 0 where
  pub status : Status
  pub raw : List ℕ
  pub output : List ℕ
  pub written : ℕ

-- The checks of `pbns_frame_encode` on a frame that is given, in order.
unfoldable pub encode_checks : Frame → View → Buffer → Buffer → List Status
encode_checks frame payload raw_scratch output =
    let raw_size = header_size + length payload.bytes + trailer_size in
    let (cobs_status, cobs_max) = Cobs.max_encoded_size given raw_size in
    let wire_size = cobs_max + 1 in
    refuse_if
      (not (view_is_valid payload)
        || not (buffer_is_valid raw_scratch)
        || not (buffer_is_valid output))
      argument
    ∷ refuse_if (not (service_is_valid frame.service)) service
    ∷ refuse_if (not (message_type_is_valid frame.type)) message_type
    ∷ refuse_if (not (frame.flags == 0)) format
    ∷ validate_payload_length frame.type (length payload.bytes) control_payload_max data_payload_max
    ∷ validate_ack_payload frame.type payload.bytes
    ∷ (elim cobs_status [ ok ↦ refuse_if (cobs_max == size_max) limit | err e ↦ err limit ])
    ∷ refuse_if (ltb (length raw_scratch.bytes) raw_size || ltb (length output.bytes) wire_size)
        limit
    ∷ refuse_if
        (ranges_overlap raw_scratch.ptr raw_size output.ptr wire_size
          || ranges_overlap payload.ptr (length payload.bytes) raw_scratch.ptr raw_size
          || ranges_overlap payload.ptr (length payload.bytes) output.ptr wire_size)
        argument
    ∷ []

-- The rest of `pbns_frame_encode`: the raw record, its COBS encoding, and the zero.
unfoldable pub encode_record : Frame → View → Buffer → Buffer → Encoded
encode_record frame payload raw_scratch output =
    let raw = raw_record frame payload.bytes in
    let scratch = raw ++ drop (length raw) raw_scratch.bytes in
    let room = length output.bytes - 1 in
    let sent =
      Cobs.encode given (record { ptr = raw_scratch.ptr; bytes = raw })
        (record { ptr = output.ptr; len = 0; bytes = take room output.bytes }) in
    let bytes = sent.output ++ drop room output.bytes in
    elim sent.status [
      | ok ↦ record {
        status = ok;
        raw = scratch;
        output = set bytes sent.written 0;
        written = sent.written + 1;
      }
      | err e ↦ record { status = err e; raw = scratch; output = bytes; written = 0 }
    ]

abbrev refused : Error → Buffer → Buffer → Encoded
refused e raw_scratch output = record {
  status = err e;
  raw = raw_scratch.bytes;
  output = output.bytes;
  written = 0;
}

-- `pbns_frame_encode`; `none` is a NULL frame.
unfoldable pub encode : Option Frame → View → Buffer → Buffer → Pointer → Encoded
encode frame payload raw_scratch output null = refused argument raw_scratch output
encode none payload raw_scratch output given = refused argument raw_scratch output
encode (some frame) payload raw_scratch output given =
    elim (checks (encode_checks frame payload raw_scratch output)) [
      | ok ↦ encode_record frame payload raw_scratch output
      | err e ↦ refused e raw_scratch output
    ]

-- What `pbns_frame_decode` leaves behind.
pub record Decoded : Type 0 where
  pub status : Status
  pub scratch : List ℕ
  pub frame : Frame
  pub payload : View

abbrev byte_at : List ℕ → ℕ → ℕ
byte_at bytes i = get_or bytes i 0

-- The checks of a raw record, in order. Later entries read bytes that the first one has counted.
unfoldable pub raw_checks : FrameLimits → List ℕ → List Status
raw_checks limits raw =
    let type = byte_at raw 6 in
    let payload_len = read_u32_be (drop 28 raw) in
    let payload = take payload_len (drop header_size raw) in
    let covered = length raw - trailer_size in
    refuse_if (ltb (length raw) (header_size + trailer_size)) format
    ∷ refuse_if (not (bytes_equal (take 4 raw) frame_magic)) format
    ∷ refuse_if (not (byte_at raw 4 == protocol_version)) version
    ∷ refuse_if (not (read_u32_be (drop 32 raw) == crc32c_bytes (take 32 raw))) crc
    ∷ refuse_if (ltb (byte_at raw 5) trusted_time || ltb enrollment (byte_at raw 5)) service
    ∷ refuse_if (ltb type request || ltb complete type) message_type
    ∷ refuse_if (not (byte_at raw 7 == 0)) format
    ∷ validate_payload_length type payload_len limits.control_payload_max limits.data_payload_max
    ∷ refuse_if (not (length raw == header_size + payload_len + trailer_size)) format
    ∷ refuse_if (not (read_u32_be (drop covered raw) == crc32c_bytes (take covered raw))) crc
    ∷ validate_ack_payload type payload
    ∷ []

unfoldable pub parsed_frame : List ℕ → Frame
parsed_frame raw = record {
  service = byte_at raw 5;
  type = byte_at raw 6;
  flags = byte_at raw 7;
  request_id = take request_id_size (drop 8 raw);
  sequence = read_u32_be (drop 24 raw);
}

abbrev failed : Error → List ℕ → Decoded
failed e scratch = record {
  status = err e;
  scratch = scratch;
  frame = zero_frame;
  payload = null_view;
}

-- What the decoder makes of the bytes that COBS gave it, `raw` at the start of the scratch.
unfoldable pub decode_raw : FrameLimits → ℕ → List ℕ → List ℕ → Decoded
decode_raw limits scratch_ptr scratch raw = elim (checks (raw_checks limits raw)) [
  | ok ↦ record {
    status = ok;
    scratch = scratch;
    frame = parsed_frame raw;
    payload = record {
      ptr = scratch_ptr + header_size;
      bytes = take (read_u32_be (drop 28 raw)) (drop header_size raw);
    };
  }
  | err e ↦ record { status = err e; scratch = scratch; frame = zero_frame; payload = null_view }
]

-- `pbns_frame_decode` after its checks of the arguments.
unfoldable pub decode_record : View → FrameLimits → Buffer → Decoded
decode_record cobs_record limits scratch =
    let size = length cobs_record.bytes in
    let received = Cobs.decode given cobs_record scratch in
    if size == size_max || ltb limits.encoded_record_max (size + 1)
    then failed limit scratch.bytes
    else elim received.status [
      | ok ↦ decode_raw limits scratch.ptr received.output (take received.written received.output)
      | err e ↦ failed e received.output
    ]

-- `pbns_frame_decode`; the pointers are `frame` and `payload`. `none` is `ARGUMENT`, before anything
-- is written.
unfoldable pub decode : View → FrameLimits → Buffer → Pointer → Pointer → Option Decoded
decode cobs_record limits scratch null payload = none
decode cobs_record limits scratch given null = none
decode cobs_record limits scratch given given =
    if not (view_is_valid cobs_record)
      || not (buffer_is_valid scratch)
      || not (limits_are_valid limits)
    then none
    else some (decode_record cobs_record limits scratch)
