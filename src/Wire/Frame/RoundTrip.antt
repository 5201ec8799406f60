-- ===== src/Wire/Frame/RoundTrip.antt =====
-- The decoder gives back the frame and the payload that the encoder sent.
use pbns.Common.{
  take-take, ℕ, ◌+◌, ◌-◌, ◌^◌, ◌≤◌, ◌<◌, ◌≡◌, refl, sym, ap, ◌∙◌, true, false, some, List, [], ◌∷◌,
  ◌++◌, arith, ◌==◌, ge→ltb, ne→==, length, take, drop, take-append_exact, ok,
}
use pbns.Common.Memory.{View, Buffer, given, buffer_is_valid, size_max}
use pbns.Wire.Frame.Encode.{IsAdmitted, encode-encoded_zero}
use pbns.Wire.Cobs.RoundTrip.{decode-encoded}
use pbns.Wire.Cobs.Spec.{encoded}
use pbns.Wire.Frame.{
  decode_record, encode, decode, limits_are_valid, Frame, FrameLimits, raw_record,
  validate_payload_length,
}
use pbns.Wire.Frame.Layout.{length-raw_record}
use pbns.Wire.Frame.Raw.{IsSendable, decode_raw-raw_record}

payload-short : (t n : ℕ) → validate_payload_length t n 65536 16384 ≡ ok → n < 2 ^ 32
unfolding validate_payload_length
payload-short t n h = ground arith

IsAdmitted-IsSendable :
    (f : Frame) (payload : View) (raw_scratch output : Buffer) (limits : FrameLimits)
    → length f.request_id ≡ 16
    → f.sequence < 2 ^ 32
    → IsAdmitted f payload raw_scratch output
    → validate_payload_length f.type
        (length payload.bytes)
        limits.control_payload_max
        limits.data_payload_max
      ≡ ok
    → IsSendable f payload.bytes limits
IsAdmitted-IsSendable f payload raw_scratch output limits sized small a allowed = record {
  service = a.service;
  type = a.type;
  flags = a.flags;
  request_id = sized;
  sequence = small;
  sized = allowed;
  acked = a.acked;
  short = payload-short f.type (length payload.bytes) a.sized;
}

-- The encoding of a raw record decodes to its frame.
decode_record-encoded :
    (f : Frame) (payload : List ℕ) (limits : FrameLimits) (scratch : Buffer) (ptr : ℕ)
    → IsSendable f payload limits
    → (ptr == 0) ≡ false
    → buffer_is_valid scratch ≡ true
    → limits_are_valid limits ≡ true
    → length (encoded (raw_record f payload)) + 1 ≤ limits.encoded_record_max
    → 40 + length payload ≤ length scratch.bytes
    → decode_record (record { ptr = ptr; bytes = encoded (raw_record f payload) }) limits scratch
      ≡ record {
        status = ok;
        scratch = raw_record f payload ++ drop (40 + length payload) scratch.bytes;
        frame = f;
        payload = record { ptr = scratch.ptr + 36; bytes = payload };
      }
unfolding decode_record
decode_record-encoded f payload limits scratch ptr s some_ptr valid allowed fits room =
    let raw = raw_record f payload in
    let size = length-raw_record f payload s.request_id in
    let bounded : limits.encoded_record_max ≤ 65836 = ground arith in
    let received = decode-encoded raw ptr scratch some_ptr valid (omega arith) in
    rw
      (
        ne→== (length (encoded raw)) size_max (omega arith),
        ge→ltb limits.encoded_record_max (length (encoded raw) + 1) fits,
        received,
        decode_record,
      )
      (rw
        (
          received,
          take-append_exact raw (drop (length raw) scratch.bytes) (length raw) refl,
          ← size,
        )
        (decode_raw-raw_record f payload limits s scratch.ptr _))

-- Whatever the encoder sends with status OK, for a frame with a request id of 16 bytes and a
-- sequence number of 32 bits, is accepted by a decoder whose valid limits admit the payload and the
-- record and whose scratch holds the raw record, and the decoder gives back the same frame and
-- payload; it is handed the record without the zero byte at its end.
pub decode-encode_frame :
    (f : Frame) (payload : View) (raw_scratch output scratch : Buffer) (limits : FrameLimits)
    (ptr : ℕ)
    → length f.request_id ≡ 16
    → f.sequence < 2 ^ 32
    → (encode (some f) payload raw_scratch output given).status ≡ ok
    → (ptr == 0) ≡ false
    → buffer_is_valid scratch ≡ true
    → limits_are_valid limits ≡ true
    → validate_payload_length f.type
        (length payload.bytes)
        limits.control_payload_max
        limits.data_payload_max
      ≡ ok
    → (encode (some f) payload raw_scratch output given).written ≤ limits.encoded_record_max
    → 40 + length payload.bytes ≤ length scratch.bytes
    → let sent = encode (some f) payload raw_scratch output given in
      let wire : View = record { ptr = ptr; bytes = take (sent.written - 1) sent.output } in
      decode wire limits scratch given given
      ≡ some (record {
        status = ok;
        scratch = raw_record f payload.bytes ++ drop (40 + length payload.bytes) scratch.bytes;
        frame = f;
        payload = record { ptr = scratch.ptr + 36; bytes = payload.bytes };
      })
unfolding decode
decode-encode_frame f payload raw_scratch output scratch limits ptr sized small h some_ptr valid
      allowed admits fits room =
    let sent = encode (some f) payload raw_scratch output given in
    let wire = encoded (raw_record f payload.bytes) in
    let (bytes, count, a) = encode-encoded_zero f payload raw_scratch output sized h in
    let s = IsAdmitted-IsSendable f payload raw_scratch output limits sized small a admits in
    let shorter : sent.written - 1 ≡ length wire = omega arith in
    let stripped : take (sent.written - 1) sent.output ≡ wire =
      sym (take-take (sent.written - 1) sent.written sent.output (omega arith))
      ∙ rw (bytes, shorter) (take-append_exact wire (0 ∷ []) (length wire) refl) in
    rw (stripped, some_ptr, valid, allowed)
      (ap some (
        decode_record-encoded f payload.bytes limits scratch ptr s some_ptr valid allowed
          (omega arith) room))
