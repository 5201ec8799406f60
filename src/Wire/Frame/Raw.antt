-- ===== src/Wire/Frame/Raw.antt =====
-- The checks of the decoder hold of every raw record that the encoder makes.
use pbns.Common.{ℕ, ◌+◌, ◌-◌, ◌%◌, ◌^◌, ◌<◌, ◌≡◌, refl, true, List, arith, length, bytes_equal, ok}
use pbns.Common.{Passed, Passed-checks}
use pbns.Wire.Frame.{
  Frame, FrameLimits, raw_record, raw_checks, parsed_frame, decode_raw, validate_payload_length,
  validate_ack_payload, service_is_valid, message_type_is_valid,
}
use pbns.Wire.Frame.Layout.{
  length-raw_record, header_crc, record_crc, payload_at, fixed_bytes, request_id_at, words_at,
}

-- A frame and a payload that may be sent under these limits.
pub record IsSendable (f : Frame) (payload : List ℕ) (limits : FrameLimits) : Type 0 where
  pub service : service_is_valid f.service ≡ true
  pub type : message_type_is_valid f.type ≡ true
  pub flags : f.flags ≡ 0
  pub request_id : length f.request_id ≡ 16
  pub sequence : f.sequence < 2 ^ 32
  pub sized :
      validate_payload_length f.type
        (length payload)
        limits.control_payload_max
        limits.data_payload_max
      ≡ ok
  pub acked : validate_ack_payload f.type payload ≡ ok
  pub short : length payload < 2 ^ 32

module _ (f : Frame) (payload : List ℕ) (limits : FrameLimits)
    (s : IsSendable f payload limits) where
  abbrev raw : List ℕ
  raw = raw_record f payload

  code_small : (f.service % 256 ≡ f.service) × (f.type % 256 ≡ f.type)
  code_small = ground (arith, s.service, s.type)

  raw_checks-pass : Passed (raw_checks limits raw)
  unfolding raw_checks bytes_equal
  raw_checks-pass =
      let (magic, version, service, type, flags) = fixed_bytes f payload s.request_id in
      let (head, head_crc) = header_crc f payload s.request_id in
      let (whole, whole_crc) = record_crc f payload s.request_id in
      let (seq, len) = words_at f payload s.request_id s.sequence s.short in
      let size = length-raw_record f payload s.request_id in
      let covered : length raw - 4 ≡ 36 + length payload = omega arith in
      rw
        (
          covered,
          magic,
          version,
          service,
          type,
          flags,
          len,
          head,
          head_crc,
          whole,
          whole_crc,
          payload_at f payload s.request_id,
          code_small.0,
          code_small.1,
          size,
        )
        (
          ground arith,
          (
            refl,
            (
              refl,
              (
                ground arith,
                (
                  ground (arith, s.service),
                  (
                    ground (arith, s.type),
                    (
                      ground (arith, s.flags),
                      (s.sized, (ground arith, (ground arith, (s.acked, tt)))),
                    ),
                  ),
                ),
              ),
            ),
          ),
        )

  -- The record parses back to the frame and the payload.
  pub parsed_frame-raw_record : parsed_frame raw ≡ f
  unfolding parsed_frame
  parsed_frame-raw_record =
      let (magic, version, service, type, flags) = fixed_bytes f payload s.request_id in
      let (seq, len) = words_at f payload s.request_id s.sequence s.short in
      rw (
        service,
        type,
        flags,
        seq,
        request_id_at f payload s.request_id,
        code_small.0,
        code_small.1,
      )

  pub decode_raw-raw_record :
      (ptr : ℕ) (scratch : List ℕ)
      → decode_raw limits ptr scratch raw ≡ record {
        status = ok;
        scratch = scratch;
        frame = f;
        payload = record { ptr = ptr + 36; bytes = payload };
      }
  unfolding decode_raw
  decode_raw-raw_record ptr scratch =
      let (seq, len) = words_at f payload s.request_id s.sequence s.short in
      rw (
        Passed-checks (raw_checks limits raw) raw_checks-pass,
        decode_raw,
        parsed_frame-raw_record,
        len,
        payload_at f payload s.request_id,
      )
