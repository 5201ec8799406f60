-- ===== src/Wire/Frame/Encode.antt =====
-- What a successful call of the encoder has put into the output.
use pbns.Common.{
  not-true, or-false, limit, argument, service, message_type, format, ℕ, zero, suc, ◌+◌, ◌-◌, ◌/◌,
  ◌≤◌, ◌≡◌, refl, sym, inl, inr, true, not, ◌||◌, some, List, [], ◌∷◌, ◌++◌, append_assoc, arith,
  ◌==◌, ltb→ge, ==_iff, length, take, drop, length-append, take-append-drop, length-take,
  take-append_exact, set-filled, Status, ok, err,
}
use pbns.Common.{checks, checks-Passed, Status-cases, refuse_if, refuse_if-false}
use pbns.Common.Memory.{View, Buffer, given, view_is_valid, buffer_is_valid, size_max}
use pbns.Wire.Cobs
use pbns.Wire.Cobs.Spec.{encoded, length-encoded_from, length-encoded-le}
use pbns.Wire.Cobs.Storage.{encode-encoded}
use pbns.Wire.Frame.{
  Frame, raw_record, encode_checks, encode_record, encode, validate_payload_length,
  validate_ack_payload, service_is_valid, message_type_is_valid, control_payload_max,
  data_payload_max,
}
use pbns.Wire.Frame.Layout.{length-raw_record}

-- What the checks of the encoder guarantee.
pub record IsAdmitted (f : Frame) (payload : View) (raw_scratch output : Buffer) : Type 0 where
  pub scratch_valid : buffer_is_valid raw_scratch ≡ true
  pub output_valid : buffer_is_valid output ≡ true
  pub service : service_is_valid f.service ≡ true
  pub type : message_type_is_valid f.type ≡ true
  pub flags : f.flags ≡ 0
  pub sized :
      validate_payload_length f.type (length payload.bytes) control_payload_max data_payload_max
      ≡ ok
  pub acked : validate_ack_payload f.type payload.bytes ≡ ok
  pub scratch_room : 40 + length payload.bytes ≤ length raw_scratch.bytes
  pub output_room :
      (40 + length payload.bytes) + ((40 + length payload.bytes) / 254 + 1) + 1
      ≤ length output.bytes

-- The entry of the list that stands for `status != PBNS_OK || cobs_max == SIZE_MAX`.
abbrev size_entry : Status × ℕ → Status
size_entry r = elim r.0 [ ok ↦ refuse_if (r.1 == size_max) limit | err e ↦ err limit ]

size_entry-ok :
    (n : ℕ)
    → size_entry (Cobs.max_encoded_size given n) ≡ ok
    → (Cobs.max_encoded_size given n).1 ≡ n + (n / 254 + 1)
unfolding Cobs.max_encoded_size
size_entry-ok n h = ground arith

encode_checks-IsAdmitted :
    (f : Frame) (payload : View) (raw_scratch output : Buffer)
    → checks (encode_checks f payload raw_scratch output) ≡ ok
    → IsAdmitted f payload raw_scratch output
unfolding encode_checks
encode_checks-IsAdmitted f payload raw_scratch output h =
    let p = checks-Passed _ h in
    let n = 40 + length payload.bytes in
    let whole : 36 + length payload.bytes + 4 ≡ n = omega arith in
    let valid =
      or-false (not (view_is_valid payload) || not (buffer_is_valid raw_scratch))
        (not (buffer_is_valid output)) (refuse_if-false _ argument p.0) in
    let views =
      or-false (not (view_is_valid payload)) (not (buffer_is_valid raw_scratch)) valid.0 in
    let size = rw whole at (size_entry-ok _ p.1.1.1.1.1.1.0) in
    let room = or-false _ _ (refuse_if-false _ limit p.1.1.1.1.1.1.1.0) in
    record {
      scratch_valid = not-true _ views.1;
      output_valid = not-true _ valid.1;
      service = not-true _ (refuse_if-false _ service p.1.0);
      type = not-true _ (refuse_if-false _ message_type p.1.1.0);
      flags = (==_iff f.flags 0).0 (not-true _ (refuse_if-false _ format p.1.1.1.0));
      sized = p.1.1.1.1.0;
      acked = p.1.1.1.1.1.0;
      scratch_room = rw whole at (ltb→ge (length raw_scratch.bytes) _ room.0);
      output_room = rw size at (rw whole at (ltb→ge (length output.bytes) _ room.1));
    }

-- A write behind a prefix that ends within a copy of the front of the list.
drop-take-drop :
    (e room : ℕ) (xs : List ℕ) → e ≤ room → drop e (take room xs) ++ drop room xs ≡ drop e xs
drop-take-drop zero room xs h = take-append-drop room xs
drop-take-drop (suc e) zero xs h = absurd (omega arith)
drop-take-drop (suc e) (suc room) [] h = refl
drop-take-drop (suc e) (suc room) (x ∷ xs) h = drop-take-drop e room xs (omega arith)

module _ (f : Frame) (payload : View) (raw_scratch output : Buffer)
    (sized : length f.request_id ≡ 16) (a : IsAdmitted f payload raw_scratch output) where
  abbrev raw : List ℕ
  raw = raw_record f payload.bytes

  abbrev room : ℕ
  room = length output.bytes - 1

  abbrev e : ℕ
  e = length (encoded raw)

  fits : e ≤ room
  fits = omega (
    arith,
    a.output_room,
    length-encoded-le [] raw (omega arith),
    length-raw_record f payload.bytes sized,
  )

  encode_record-encoded : encode_record f payload raw_scratch output ≡ record {
    status = ok;
    raw = raw ++ drop (length raw) raw_scratch.bytes;
    output = (encoded raw ++ 0 ∷ []) ++ drop (e + 1) output.bytes;
    written = e + 1;
  }
  unfolding encode_record
  encode_record-encoded =
      let size = length-raw_record f payload.bytes sized in
      let taken = length-take room output.bytes in
      let room_left = a.output_room in
      let some_code = length-encoded_from [] raw in
      let sent =
        encode-encoded (record { ptr = raw_scratch.ptr; bytes = raw })
          (record { ptr = output.ptr; len = 0; bytes = take room output.bytes })
          (ground (arith, a.scratch_valid, a.scratch_room)) (ground (arith, a.output_valid))
          (omega (arith, fits)) in
      let longer : length (encoded raw ++ 0 ∷ []) ≡ e + 1 =
        length-append {0} (encoded raw) (0 ∷ []) in
      rw (sent, encode_record)
        (rw (
          sent,
          append_assoc (encoded raw) (drop e (take room output.bytes)) (drop room output.bytes),
          drop-take-drop e room output.bytes fits,
          set-filled [] (encoded raw) output.bytes e 0 (omega (arith, fits)) (omega arith),
          longer,
        ))

encode-checks :
    (f : Frame) (payload : View) (raw_scratch output : Buffer)
    → (encode (some f) payload raw_scratch output given).status ≡ ok
    → checks (encode_checks f payload raw_scratch output) ≡ ok
unfolding encode
encode-checks f payload raw_scratch output h =
    elim (Status-cases (checks (encode_checks f payload raw_scratch output))) [
      | inl e ↦ e
      | inr (x, e) ↦ absurd (ground arith)
    ]

-- Where the encoder returns OK for a frame with a request id of 16 bytes, the output starts with
-- the COBS encoding of the raw record, then a zero byte, `*written` counts both, and the checks of
-- the encoder held.
pub encode-encoded_zero :
    (f : Frame) (payload : View) (raw_scratch output : Buffer)
    → length f.request_id ≡ 16
    → (encode (some f) payload raw_scratch output given).status ≡ ok
    → let sent = encode (some f) payload raw_scratch output given in
      (take sent.written sent.output ≡ encoded (raw_record f payload.bytes) ++ 0 ∷ [])
      × (sent.written ≡ length (encoded (raw_record f payload.bytes)) + 1)
      × IsAdmitted f payload raw_scratch output
encode-encoded_zero f payload raw_scratch output sized h =
    let passed = encode-checks f payload raw_scratch output h in
    let a = encode_checks-IsAdmitted f payload raw_scratch output passed in
    let whole = encode_record-encoded f payload raw_scratch output sized a in
    let wire = encoded (raw_record f payload.bytes) in
    let longer = length-append {0} wire (0 ∷ []) in
    let sent : encode (some f) payload raw_scratch output given
        ≡ encode_record f payload raw_scratch output =
      unfold encode in rw (passed, encode) in
    rw (sent, whole) (take-append_exact (wire ++ 0 ∷ []) _ (length wire + 1) (sym longer), refl, a)
