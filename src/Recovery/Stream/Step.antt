-- ===== src/Recovery/Stream/Step.antt =====
-- What the checks of `accept` and `finish` have established when the call returns OK.
use pbns.Common.{
  ℕ, ◌≤◌, ◌≡◌, ◌≢◌, sym, ◌∙◌, inl, inr, true, false, not, ◌||◌, some, List, arith, ltb, ◌==◌,
  ltb→ge, ==_iff, Bool-cases, length, bytes_equal, copy_at, bytes_equal→eq, ==→ne, ok, err, Error,
  checks, checks-Passed, Status-cases, refuse_if-false, not-true, or-false,
}
use pbns.Common.{message_type, format, sequence, state, authentication}
use pbns.Common.Memory.{View, given}
use pbns.Common.Words.{uint32_max}
use pbns.Wire.Frame.{Frame, recovery_artifact, data_record}
use pbns.Recovery.Stream.{
  HashOps, RecoveryStream, Store, Outcome, expected_length, accept_checks, complete_checks,
  advanced, acknowledge, fail, take_chunk, accept, check_digest, finish, chunk_size,
}

-- The frame belongs to the stream and is the next one.
pub record Continues (s : RecoveryStream) (f : Frame) : Type 0 where
  pub live : (s.initialized ≡ true) × (s.complete ≡ false) × (s.failed ≡ false)
  pub service : f.service ≡ recovery_artifact
  pub request_id : f.request_id ≡ s.request_id
  pub sequence : f.sequence ≡ s.next_sequence
  pub sequence_room : s.next_sequence ≢ uint32_max

module _ {C : Type 0} (ops : HashOps C) where
  -- A chunk that `accept` has taken.
  pub record Chunk (s : RecoveryStream) (store : Store C) (f : Frame) (payload : List ℕ)
      : Type 0 where
    pub continues : Continues s f
    pub type : f.type ≡ data_record
    pub nonempty : length payload ≢ 0
    pub started : s.offset ≤ s.image_size
    pub sized : length payload ≡ expected_length s
    pub hashed : (ops.update store.context payload).0 ≡ ok

  -- An image that `finish` has confirmed.
  pub record Confirmed (s : RecoveryStream) (store : Store C) (f : Frame) : Type 0 where
    pub continues : Continues s f
    pub whole : s.offset ≡ s.image_size
    pub hashed : (ops.finish store.context).0 ≡ ok
    pub digest : (ops.finish store.context).1 ≡ s.expected_digest

  abbrev pub after_chunk : RecoveryStream → Store C → List ℕ → Outcome C
  after_chunk s store payload =
      let (next, ack) = acknowledge (advanced s payload) in
      record {
        status = ok;
        stream = next;
        store = record {
          pages = copy_at store.pages s.offset payload;
          context = (ops.update store.context payload).1;
        };
        ack = ack;
      }

  fail-status :
      (s : RecoveryStream) (store : Store C) (e : Error) → (fail ops s store e).status ≡ err e
  unfolding fail
  fail-status s store e = ground arith

  take_chunk-ok :
      (s : RecoveryStream) (store : Store C) (payload : List ℕ)
      → (take_chunk ops s store payload).status ≡ ok
      → ((ops.update store.context payload).0 ≡ ok)
        × (take_chunk ops s store payload ≡ after_chunk s store payload)
  unfolding take_chunk
  take_chunk-ok s store payload h = elim (Status-cases (ops.update store.context payload).0) [
    | inl e ↦ (e, rw (e, take_chunk))
    | inr (x, e) ↦ absurd (
        ground (
          arith,
          fail-status s (record store { context = (ops.update store.context payload).1 }) x,
        ))
  ]

  accept-checks :
      (s : RecoveryStream) (store : Store C) (f : Frame) (payload : View)
      → (accept ops s store (some f) payload given).status ≡ ok
      → (s.initialized ≡ true)
        × (s.complete ≡ false)
        × (s.failed ≡ false)
        × (checks (accept_checks s f payload.bytes) ≡ ok)
        × (accept ops s store (some f) payload given ≡ take_chunk ops s store payload.bytes)
  unfolding accept
  accept-checks s store f payload h =
      elim (Status-cases (checks (accept_checks s f payload.bytes))) [
        | inl e ↦ ground arith
        | inr (x, e) ↦ absurd (ground (arith, fail-status s store x))
      ]

  pub accept-Chunk :
      (s : RecoveryStream) (store : Store C) (f : Frame) (payload : View)
      → (accept ops s store (some f) payload given).status ≡ ok
      → Chunk s store f payload.bytes
        × (accept ops s store (some f) payload given ≡ after_chunk s store payload.bytes)
  unfolding accept_checks
  accept-Chunk s store f payload h =
      let (live, running, unfailed, passed, result) = accept-checks s store f payload h in
      let (hashed, taken) = take_chunk-ok s store payload.bytes (rw (sym result) h) in
      let p = checks-Passed (accept_checks s f payload.bytes) passed in
      let seq =
        or-false (not (f.sequence == s.next_sequence)) (s.next_sequence == uint32_max)
          (refuse_if-false _ sequence p.1.1.1.0) in
      let shape =
        or-false (length payload.bytes == 0 || ltb chunk_size (length payload.bytes))
          (ltb s.image_size s.offset) (refuse_if-false _ format p.1.1.1.1.1.1.0) in
      let nonempty = or-false (length payload.bytes == 0) _ shape.0 in
      let exact =
        or-false (expected_length s == 0) _ (refuse_if-false _ format p.1.1.1.1.1.1.1.0) in
      (
        record {
          continues = record {
            live = (live, running, unfailed);
            service =
                (==_iff f.service recovery_artifact).0
                  (not-true _ (refuse_if-false _ Error.service p.0));
            request_id =
                bytes_equal→eq f.request_id s.request_id
                  (not-true _ (refuse_if-false _ state p.1.0));
            sequence = (==_iff f.sequence s.next_sequence).0 (not-true _ seq.0);
            sequence_room = ==→ne s.next_sequence uint32_max seq.1;
          };
          type =
              (==_iff f.type data_record).0
                (not-true _ (refuse_if-false _ message_type p.1.1.1.1.1.0));
          nonempty = ==→ne (length payload.bytes) 0 nonempty.0;
          started = ltb→ge s.image_size s.offset shape.1;
          sized = (==_iff (length payload.bytes) (expected_length s)).0 (not-true _ exact.1);
          hashed = hashed;
        },
        result ∙ taken,
      )

  check_digest-ok :
      (s : RecoveryStream) (store : Store C)
      → (check_digest ops s store).status ≡ ok
      → ((ops.finish store.context).0 ≡ ok)
        × ((ops.finish store.context).1 ≡ s.expected_digest)
        × ((check_digest ops s store).store.pages ≡ store.pages)
        × ((check_digest ops s store).stream.complete ≡ true)
  unfolding check_digest
  check_digest-ok s store h =
      let (status, digest, context) = ops.finish store.context in
      let finished = record store { context = context } in
      elim (Status-cases status) [
        | inl e ↦ elim (Bool-cases (bytes_equal digest s.expected_digest)) [
          | inl same ↦ (e, bytes_equal→eq digest s.expected_digest same, ground arith, ground arith)
          | inr other ↦ absurd (ground (arith, fail-status s finished authentication))
        ]
        | inr (x, e) ↦ absurd (ground (arith, fail-status s finished x))
      ]

  finish-checks :
      (s : RecoveryStream) (store : Store C) (f : Frame) (payload : View)
      → (finish ops s store (some f) payload).status ≡ ok
      → (s.initialized ≡ true)
        × (s.complete ≡ false)
        × (s.failed ≡ false)
        × (checks (complete_checks s f payload.bytes) ≡ ok)
        × (finish ops s store (some f) payload ≡ check_digest ops s store)
  unfolding finish
  finish-checks s store f payload h =
      elim (Status-cases (checks (complete_checks s f payload.bytes))) [
        | inl e ↦ ground arith
        | inr (x, e) ↦ absurd (ground (arith, fail-status s store x))
      ]

  pub finish-Confirmed :
      (s : RecoveryStream) (store : Store C) (f : Frame) (payload : View)
      → (finish ops s store (some f) payload).status ≡ ok
      → Confirmed s store f
        × ((finish ops s store (some f) payload).store.pages ≡ store.pages)
        × ((finish ops s store (some f) payload).stream.complete ≡ true)
  unfolding complete_checks
  finish-Confirmed s store f payload h =
      let (live, running, unfailed, passed, result) = finish-checks s store f payload h in
      let (hashed, digest, kept, closed) = check_digest-ok s store (rw (sym result) h) in
      let p = checks-Passed (complete_checks s f payload.bytes) passed in
      let seq =
        or-false (not (f.sequence == s.next_sequence)) (s.next_sequence == uint32_max)
          (refuse_if-false _ sequence p.1.1.1.0) in
      (
        record {
          continues = record {
            live = (live, running, unfailed);
            service =
                (==_iff f.service recovery_artifact).0
                  (not-true _ (refuse_if-false _ Error.service p.0));
            request_id =
                bytes_equal→eq f.request_id s.request_id
                  (not-true _ (refuse_if-false _ state p.1.0));
            sequence = (==_iff f.sequence s.next_sequence).0 (not-true _ seq.0);
            sequence_room = ==→ne s.next_sequence uint32_max seq.1;
          };
          whole =
              (==_iff s.offset s.image_size).0 (not-true _ (refuse_if-false _ state p.1.1.1.1.1.0));
          hashed = hashed;
          digest = digest;
        },
        rw result kept,
        rw result closed,
      )
