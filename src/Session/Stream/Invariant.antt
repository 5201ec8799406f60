-- ===== src/Session/Stream/Invariant.antt =====
-- The counters of a stream never wrap and never pass their limits.
use pbns.Common.{
  ℕ, ◌+◌, ◌-◌, ◌≤◌, ◌≡◌, ◌≢◌, refl, ◌⊎◌, inl, inr, true, false, not, ◌||◌, Option, none, some, List,
  arith, ltb, ◌==◌, ltb→ge, ==_iff, length, bytes_equal→eq, ==→ne, ok, err, Error, checks,
  checks-Passed, Status-cases, refuse_if-false, not-true, or-false,
}
use pbns.Common.{limit, service, format, sequence, state}
use pbns.Common.Memory.{View, view_is_valid}
use pbns.Common.Words.{uint32_max, uint64_max}
use pbns.Wire.Frame.{Frame}
use pbns.Session.Stream.{
  Stream, init, reset, accept, accept_checks, advanced, fail_stream, validate_payload,
}

-- What holds of a stream between calls.
pub record IsValid (s : Stream) : Type 0 where
  pub bytes : s.total_bytes ≤ s.byte_limit
  pub limited : s.byte_limit ≤ uint64_max
  pub sequenced : s.next_sequence ≤ uint32_max

-- What a call that returns OK has checked, and the stream that it leaves.
pub record Step (s : Stream) (f : Frame) (payload : List ℕ) (t : Stream) : Type 0 where
  pub live : (s.initialized ≡ true) × (s.failed ≡ false) × (s.complete ≡ false)
  pub service : f.service ≡ s.service
  pub request_id : f.request_id ≡ s.request_id
  pub flags : f.flags ≡ 0
  pub sequence : f.sequence ≡ s.next_sequence
  pub sequence_room : s.next_sequence ≢ uint32_max
  pub payload_ok : (validate_payload f.type payload).0 ≡ ok
  pub bytes_room : s.total_bytes + length payload ≤ s.byte_limit
  pub result : t ≡ advanced s f payload

accept-checks :
    (s : Stream) (f : Frame) (payload : View)
    → (accept s (some f) payload).0 ≡ ok
    → (s.initialized ≡ true)
      × (s.failed ≡ false)
      × (checks (accept_checks s f payload.bytes) ≡ ok)
      × ((accept s (some f) payload).1 ≡ advanced s f payload.bytes)
unfolding accept
accept-checks s f payload h = elim (Status-cases (checks (accept_checks s f payload.bytes))) [
  | inl e ↦ ground arith
  | inr (x, e) ↦ absurd (ground arith)
]

pub accept-Step :
    (s : Stream) (f : Frame) (payload : View)
    → (accept s (some f) payload).0 ≡ ok
    → Step s f payload.bytes (accept s (some f) payload).1
unfolding accept_checks
accept-Step s f payload h =
    let (live, unfailed, passed, result) = accept-checks s f payload h in
    let p = checks-Passed (accept_checks s f payload.bytes) passed in
    let seq =
      or-false (not (f.sequence == s.next_sequence)) (s.next_sequence == uint32_max)
        (refuse_if-false _ sequence p.1.1.1.1.0) in
    let room =
      or-false
        (ltb s.byte_limit s.total_bytes || ltb (uint64_max - s.total_bytes) (length payload.bytes))
        (ltb (s.byte_limit - s.total_bytes) (length payload.bytes))
        (refuse_if-false _ limit p.1.1.1.1.1.1.0) in
    let start = or-false (ltb s.byte_limit s.total_bytes) _ room.0 in
    let within = ltb→ge s.byte_limit s.total_bytes start.0 in
    let left = ltb→ge (s.byte_limit - s.total_bytes) (length payload.bytes) room.1 in
    record {
      live = (live, unfailed, refuse_if-false _ state p.0);
      service = (==_iff f.service s.service).0 (not-true _ (refuse_if-false _ service p.1.0));
      request_id =
          bytes_equal→eq f.request_id s.request_id (not-true _ (refuse_if-false _ state p.1.1.0));
      flags = (==_iff f.flags 0).0 (not-true _ (refuse_if-false _ format p.1.1.1.0));
      sequence = (==_iff f.sequence s.next_sequence).0 (not-true _ seq.0);
      sequence_room = ==→ne s.next_sequence uint32_max seq.1;
      payload_ok = p.1.1.1.1.1.0;
      bytes_room = omega arith;
      result = result;
    }

init-IsValid :
    (service_id : ℕ) (request_id : List ℕ) (byte_limit : ℕ)
    → byte_limit ≤ uint64_max
    → IsValid (init service_id request_id byte_limit)
unfolding init
init-IsValid service_id request_id byte_limit h = ground arith

reset-IsValid : (s : Stream) → IsValid s → IsValid (reset s)
unfolding reset
reset-IsValid s v = ground arith

-- A refused call leaves the stream as it was or marks it failed.
pub accept-refused :
    (s : Stream) (frame : Option Frame) (payload : View) (x : Error)
    → (accept s frame payload).0 ≡ err x
    → ((accept s frame payload).1 ≡ s) ⊎ ((accept s frame payload).1 ≡ fail_stream s)
unfolding accept
accept-refused s none payload x h = inl refl
accept-refused s (some f) payload x h =
    elim (Status-cases (checks (accept_checks s f payload.bytes))) [
      | inl e ↦ ground arith
      | inr (y, e) ↦ ground arith
    ]

advanced-IsValid :
    (s : Stream) (f : Frame) (payload : List ℕ) (t : Stream)
    → IsValid s
    → Step s f payload t
    → IsValid t
advanced-IsValid s f payload t v step = rw step.result (record {
  bytes = omega (arith, step.bytes_room);
  limited = v.limited;
  sequenced = omega arith;
})

-- Every call of `accept`, whatever it returns, leaves the bytes counted within the byte limit and
-- the sequence number within 32 bits.
pub accept-IsValid :
    (s : Stream) (frame : Option Frame) (payload : View)
    → IsValid s
    → IsValid (accept s frame payload).1
accept-IsValid s none payload v = unfold accept in v
accept-IsValid s (some f) payload v = elim (Status-cases (accept s (some f) payload).0) [
  | inl e ↦ advanced-IsValid s f payload.bytes _ v (accept-Step s f payload e)
  | inr (x, e) ↦ elim (accept-refused s (some f) payload x e) [
    | inl same ↦ rw same v
    | inr failed ↦ rw failed (ground (arith, v))
  ]
]

-- Once a stream has refused a frame that came with a valid payload, it refuses every later frame
-- with a valid payload with `STATE`, and does not change.
pub accept_sticky :
    (s : Stream) (f g : Frame) (payload later : View) (x : Error)
    → view_is_valid payload ≡ true
    → view_is_valid later ≡ true
    → (accept s (some f) payload).0 ≡ err x
    → let t = (accept s (some f) payload).1 in accept t (some g) later ≡ (err state, t)
unfolding accept
accept_sticky s f g payload later x vp vl h =
    elim (Status-cases (checks (accept_checks s f payload.bytes))) [
      | inl e ↦ ground arith
      | inr (y, e) ↦ ground arith
    ]
