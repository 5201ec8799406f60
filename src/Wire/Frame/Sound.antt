-- ===== src/Wire/Frame/Sound.antt =====
-- What the decoder guarantees of a frame that it accepts, whoever sent it.
use pbns.Common.{
  not-true, or-false, ltb, false, ◌≢◌, ◌⊎◌, ℕ, ◌+◌, ◌≤◌, ◌<◌, ◌≡◌, inl, inr, List, arith, ==_iff,
  length, get_or, take, drop, length-take, length-drop, ok,
}
use pbns.Common.{
  service, message_type, format, checks, checks-Passed, Status-cases, refuse_if-false,
}
use pbns.Common.Memory.{View, Buffer, given}
use pbns.Common.Words.{read_u32_be}
use pbns.Wire.Cobs
use pbns.Wire.Cobs.Sound.{decode_sound, length-decode}
use pbns.Wire.Frame.{
  FrameLimits, raw_checks, parsed_frame, decode_raw, decode_record, Decoded,
  validate_payload_length, validate_ack_payload, request, response, data_record, ack, error, cancel,
  complete,
}

-- An accepted frame under these limits, from a raw record of `size` bytes.
pub record IsAccepted (limits : FrameLimits) (size : ℕ) (d : Decoded) : Type 0 where
  pub service : (1 ≤ d.frame.service) × (d.frame.service ≤ 4)
  pub type : (1 ≤ d.frame.type) × (d.frame.type ≤ 7)
  pub flags : d.frame.flags ≡ 0
  pub control :
      (d.frame.type ≡ request) ⊎ (d.frame.type ≡ response) ⊎ (d.frame.type ≡ error)
      → length d.payload.bytes ≤ limits.control_payload_max
  pub data_bound : d.frame.type ≡ data_record → length d.payload.bytes ≤ limits.data_payload_max
  pub empty : (d.frame.type ≡ cancel) ⊎ (d.frame.type ≡ complete) → length d.payload.bytes ≡ 0
  pub acked :
      d.frame.type ≡ ack
      → (length d.payload.bytes ≡ 8)
        × (read_u32_be d.payload.bytes ≢ 0)
        × (read_u32_be (drop 4 d.payload.bytes) ≢ 0)
  pub whole : size ≡ 40 + length d.payload.bytes

-- The bounds that the check of the length stands for, by the type.
record Bounded (type n control_limit data_limit : ℕ) : Type 0 where
  pub control : (type ≡ request) ⊎ (type ≡ response) ⊎ (type ≡ error) → n ≤ control_limit
  pub data_bound : type ≡ data_record → n ≤ data_limit
  pub empty : (type ≡ cancel) ⊎ (type ≡ complete) → n ≡ 0
  pub acked : type ≡ ack → n ≡ 8

validate_payload_length-Bounded :
    (type n control_limit data_limit : ℕ)
    → validate_payload_length type n control_limit data_limit ≡ ok
    → Bounded type n control_limit data_limit
unfolding validate_payload_length
validate_payload_length-Bounded type n control_limit data_limit h = record {
  control = λ e. ground (arith, h, e);
  data_bound = λ e. ground (arith, h, e);
  empty = λ e. ground (arith, h, e);
  acked = λ e. ground (arith, h, e);
}

validate_ack_payload-words :
    (type : ℕ) (payload : List ℕ)
    → validate_ack_payload type payload ≡ ok
    → type ≡ ack
    → (read_u32_be payload ≢ 0) × (read_u32_be (drop 4 payload) ≢ 0)
unfolding validate_ack_payload
validate_ack_payload-words type payload h e =
    (λ q. absurd (ground (arith, h, e, q)), λ q. absurd (ground (arith, h, e, q)))

bounds_of : (lo hi x : ℕ) → ltb x lo ≡ false → ltb hi x ≡ false → (lo ≤ x) × (x ≤ hi)
bounds_of lo hi x h k = ground arith

decode_raw-checks :
    (limits : FrameLimits) (ptr : ℕ) (scratch raw : List ℕ)
    → (decode_raw limits ptr scratch raw).status ≡ ok
    → checks (raw_checks limits raw) ≡ ok
unfolding decode_raw
decode_raw-checks limits ptr scratch raw h = elim (Status-cases (checks (raw_checks limits raw))) [
  | inl e ↦ e
  | inr (x, e) ↦ absurd (ground arith)
]

decode_raw-IsAccepted :
    (limits : FrameLimits) (ptr : ℕ) (scratch raw : List ℕ)
    → (decode_raw limits ptr scratch raw).status ≡ ok
    → IsAccepted limits (length raw) (decode_raw limits ptr scratch raw)
unfolding raw_checks decode_raw parsed_frame
decode_raw-IsAccepted limits ptr scratch raw h =
    let passed = decode_raw-checks limits ptr scratch raw h in
    let p = checks-Passed _ passed in
    let n = read_u32_be (drop 28 raw) in
    let size = refuse_if-false _ format p.1.1.1.1.1.1.1.1.0 in
    let whole : length raw ≡ 36 + n + 4 = (==_iff (length raw) (36 + n + 4)).0 (not-true _ size) in
    let taken : length (take n (drop 36 raw)) ≡ n =
      omega (arith, length-take n (drop 36 raw), length-drop 36 raw) in
    let bounded =
      validate_payload_length-Bounded (get_or raw 6 0) (length (take n (drop 36 raw)))
        limits.control_payload_max limits.data_payload_max (rw taken p.1.1.1.1.1.1.1.0) in
    rw (passed, decode_raw)
      (record {
        service =
            let r = or-false _ _ (refuse_if-false _ service p.1.1.1.1.0) in
            bounds_of 1 4 (get_or raw 5 0) r.0 r.1;
        type =
            let r = or-false _ _ (refuse_if-false _ message_type p.1.1.1.1.1.0) in
            bounds_of 1 7 (get_or raw 6 0) r.0 r.1;
        flags =
            (==_iff (get_or raw 7 0) 0).0 (not-true _ (refuse_if-false _ format p.1.1.1.1.1.1.0));
        control = bounded.control;
        data_bound = bounded.data_bound;
        empty = bounded.empty;
        acked = λ e.
            let words = validate_ack_payload-words _ _ p.1.1.1.1.1.1.1.1.1.1.0 e in
            (bounded.acked e, words.0, words.1);
        whole = omega arith;
      })

decode_record-raw :
    (cobs_record : View) (limits : FrameLimits) (scratch : Buffer)
    → (decode_record cobs_record limits scratch).status ≡ ok
    → let received = Cobs.decode given cobs_record scratch in
      (received.status ≡ ok)
      × (length cobs_record.bytes + 1 ≤ limits.encoded_record_max)
      × (decode_record cobs_record limits scratch
          ≡ decode_raw limits scratch.ptr received.output (take received.written received.output))
unfolding decode_record
decode_record-raw cobs_record limits scratch h =
    let received = Cobs.decode given cobs_record scratch in
    elim (Status-cases received.status) [
      | inl e ↦ ground arith
      | inr (x, e) ↦ absurd (ground arith)
    ]

-- A frame that the decoder accepts has a service from 1 to 4, a message type from 1 to 7 and no flags.
-- The payload is within the data limit for DATA and within the control limit for REQUEST, RESPONSE
-- and ERROR; it is empty for CANCEL and COMPLETE, and for an ACK it is two non-zero words of 4 bytes.
-- The record that carried it is longer than the payload by more than 40 bytes, and within the limits.
pub decode_record-IsAccepted :
    (cobs_record : View) (limits : FrameLimits) (scratch : Buffer)
    → (decode_record cobs_record limits scratch).status ≡ ok
    → let d = decode_record cobs_record limits scratch in
      IsAccepted limits (40 + length d.payload.bytes) d
      × (40 + length d.payload.bytes < length cobs_record.bytes)
      × (length cobs_record.bytes + 1 ≤ limits.encoded_record_max)
decode_record-IsAccepted cobs_record limits scratch h =
    let received = Cobs.decode given cobs_record scratch in
    let (clean, small, is_raw) = decode_record-raw cobs_record limits scratch h in
    let sound = decode_sound cobs_record scratch clean in
    let size = length-take received.written received.output in
    let kept = length-decode given cobs_record scratch in
    let a =
      decode_raw-IsAccepted limits scratch.ptr received.output
        (take received.written received.output) (rw is_raw at h) in
    rw is_raw (rw a.whole at a, omega (arith, a.whole), small)
