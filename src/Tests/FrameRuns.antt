-- ===== src/Tests/FrameRuns.antt =====
-- src/core/frame.c, src/core/record_reader.c and src/core/stream.c on a data frame.
use pbns.Common.{
  bytes_equal, ◌+◌, ◌-◌, ◌≡◌, ◌≤◌, ◌<◌, refl, some, [], ◌∷◌, ◌++◌, length, take, drop, ok, arith,
  replicate, checks,
}
use pbns.Common.Memory.{View, Buffer, given, ranges_overlap}
use pbns.Common.Words.{u32_be, read_u32_be}
use pbns.Wire.Cobs
use pbns.Wire.Cobs.Spec.{encoded, encoded_from}
use pbns.Wire.Crc32c.{crc32c_bytes, crc_loop, crc_update}
use pbns.Wire.Frame.{
  Frame, FrameLimits, encode, decode, decode_record, encode_checks, encode_record, header_prefix,
  with_crc, raw_record, validate_payload_length, validate_ack_payload, decode_raw, raw_checks,
  parsed_frame,
}
use pbns.Wire.Frame.Encode.{encode-encoded_zero, IsAdmitted}
use pbns.Wire.Frame.RoundTrip.{decode-encode_frame}
use pbns.Wire.Frame.Sound.{decode_record-IsAccepted, IsAccepted}

abbrev frame : Frame
frame = record { service = 2; type = 3; flags = 0; request_id = replicate 16 7; sequence = 0 }

abbrev payload : View
payload = record { ptr = 100; bytes = 1 ∷ 0 ∷ 3 ∷ [] }

abbrev scratch : Buffer
scratch = record { ptr = 1000; len = 0; bytes = replicate 43 0 }

abbrev output : Buffer
output = record { ptr = 2000; len = 0; bytes = replicate 50 0 }

abbrev limits : FrameLimits
limits = record { control_payload_max = 100; data_payload_max = 100; encoded_record_max = 200 }

is_sent : (encode (some frame) payload scratch output given).status ≡ ok
unfolding encode encode_checks encode_record header_prefix with_crc raw_record
    validate_payload_length validate_ack_payload Cobs.encode Cobs.encode_loop Cobs.max_encoded_size
    checks u32_be crc32c_bytes crc_loop crc_update ranges_overlap
is_sent = refl

encode-encoded_zero_example :
    let sent = encode (some frame) payload scratch output given in
    (take sent.written sent.output ≡ encoded (raw_record frame payload.bytes) ++ 0 ∷ [])
    × (sent.written ≡ length (encoded (raw_record frame payload.bytes)) + 1)
    × IsAdmitted frame payload scratch output
encode-encoded_zero_example = encode-encoded_zero frame payload scratch output refl is_sent

is_short : (encode (some frame) payload scratch output given).written ≤ 200
unfolding encode encode_checks encode_record header_prefix with_crc raw_record
    validate_payload_length validate_ack_payload Cobs.encode Cobs.encode_loop Cobs.max_encoded_size
    checks u32_be crc32c_bytes crc_loop crc_update ranges_overlap
is_short = omega arith

decode-encode_frame_example :
    let sent = encode (some frame) payload scratch output given in
    let wire : View = record { ptr = 3000; bytes = take (sent.written - 1) sent.output } in
    decode wire limits (record scratch { ptr = 4000 }) given given
    ≡ some (record {
      status = ok;
      scratch = raw_record frame payload.bytes ++ drop 43 scratch.bytes;
      frame = frame;
      payload = record { ptr = 4036; bytes = payload.bytes };
    })
unfolding validate_payload_length
decode-encode_frame_example =
    decode-encode_frame frame payload scratch output (record scratch { ptr = 4000 }) limits 3000
      refl (omega arith) is_sent refl refl refl refl is_short (omega arith)

-- What the encoder sends for the frame, without its last byte.
abbrev wire : View
wire = record { ptr = 3000; bytes = take 44 (encoded (raw_record frame payload.bytes)) }

is_received : (decode_record wire limits (record scratch { ptr = 4000 })).status ≡ ok
unfolding decode_record decode_raw raw_checks parsed_frame Cobs.decode Cobs.decode_loop
    Cobs.copy_run header_prefix with_crc raw_record validate_payload_length validate_ack_payload
    checks u32_be read_u32_be crc32c_bytes crc_loop crc_update encoded_from bytes_equal
is_received = refl

decode_record-IsAccepted_example :
    let d = decode_record wire limits (record scratch { ptr = 4000 }) in
    IsAccepted limits (40 + length d.payload.bytes) d
    × (40 + length d.payload.bytes < length wire.bytes)
    × (length wire.bytes + 1 ≤ 200)
decode_record-IsAccepted_example =
    decode_record-IsAccepted wire limits (record scratch { ptr = 4000 }) is_received
