-- ===== src/Recovery/Stream.antt =====
-- src/core/recovery_stream.c: a recovery image, received in chunks into pages and hashed on the way.
-- The hash is the caller's: its operations and the type of its context are parameters. `stream` is
-- not at NULL.
mod Types
unfoldable pub use Types.*
pub mod Step
pub mod Received
pub mod Image
pub mod Failure
use pbns.Common.{
  ℕ, ◌+◌, ◌-◌, ◌%◌, ◌^◌, Bool, true, false, not, ◌&&◌, ◌||◌, Option, none, some, List, [], ◌∷◌,
  ◌++◌, ltb, ◌==◌, if◌then◌else◌, length, take, drop, bytes_equal, copy_at, Status, ok, err, Error,
  argument, limit, format, message_type, sequence, state, transport, authentication, checks,
  refuse_if, replicate,
}
use pbns.Common.Memory.{View, Buffer, Pointer, null, given, is_null, view_is_valid}
use pbns.Common.Words.{uint32_max}
use pbns.Wire.Frame.{
  Frame, recovery_artifact, data_record, error, cancel, complete, request_id_size,
}

unfoldable pub digest_nonzero : List ℕ → Bool
digest_nonzero [] = false
digest_nonzero (b ∷ bytes) = not (b == 0) || digest_nonzero bytes

-- `validate_frame`, and the checks of `accept` and `complete` that follow it, in order; each
-- failure fails the stream.
abbrev frame_checks : RecoveryStream → Frame → List Status → List Status
frame_checks s frame rest =
    refuse_if (not (frame.service == recovery_artifact)) Error.service
    ∷ refuse_if (not (bytes_equal frame.request_id s.request_id)) state
    ∷ refuse_if (not (frame.flags == 0)) format
    ∷ refuse_if (not (frame.sequence == s.next_sequence) || s.next_sequence == uint32_max) sequence
    ∷ rest

abbrev pub expected_length : RecoveryStream → ℕ
expected_length s =
    let remaining = s.image_size - s.offset in
    if ltb chunk_size remaining then chunk_size else remaining

unfoldable pub accept_checks : RecoveryStream → Frame → List ℕ → List Status
accept_checks s frame payload =
    let n = length payload in
    frame_checks s frame (
      refuse_if (frame.type == cancel || frame.type == error) transport
      ∷ refuse_if (not (frame.type == data_record)) message_type
      ∷ refuse_if (n == 0 || ltb chunk_size n || ltb s.image_size s.offset) format
      ∷ refuse_if (expected_length s == 0 || not (n == expected_length s)) format
      ∷ [])

unfoldable pub complete_checks : RecoveryStream → Frame → List ℕ → List Status
complete_checks s frame payload = frame_checks s frame (
    refuse_if (not (frame.type == complete) || not (length payload == 0)) message_type
    ∷ refuse_if (not (s.offset == s.image_size)) state
    ∷ [])

unfoldable pub init_arguments_are_valid : Buffer → Option (List ℕ) → Pointer → Bool
init_arguments_are_valid exact_pages none hash_ops = false
init_arguments_are_valid exact_pages (some digest) hash_ops =
    not (exact_pages.ptr == 0)
    && exact_pages.len == 0
    && not (length exact_pages.bytes == 0)
    && not (ltb image_max (length exact_pages.bytes))
    && digest_nonzero digest
    && not (is_null hash_ops)

abbrev digest_or_zero : Option (List ℕ) → List ℕ
digest_or_zero none = replicate digest_size 0
digest_or_zero (some digest) = digest

-- The stream after the four counters of an accepted chunk.
abbrev pub advanced : RecoveryStream → List ℕ → RecoveryStream
advanced s payload = record s {
  offset = (s.offset + length payload) % 2 ^ 64;
  next_sequence = (s.next_sequence + 1) % 2 ^ 32;
  records_since_ack = (s.records_since_ack + 1) % 2 ^ 32;
}

-- The acknowledgement that is due every `ack_window` records.
unfoldable pub acknowledge : RecoveryStream → RecoveryStream × Ack
acknowledge t =
    if t.records_since_ack == ack_window
    then (
      record t { records_since_ack = 0 },
      record { required = true; next_sequence = t.next_sequence; window = ack_window },
    )
    else (t, zero_ack)

module _ {C : Type 0} (ops : HashOps C) where
  -- `fail`
  unfoldable pub fail : RecoveryStream → Store C → Error → Outcome C
  fail s store e =
      if s.hash_active && not (is_null s.hash_ops)
      then record {
        status = err e;
        stream = record s { failed = true; hash_active = false };
        store = record store { context = ops.clear store.context };
        ack = zero_ack;
      }
      else record {
        status = err e;
        stream = record s { failed = true };
        store = store;
        ack = zero_ack;
      }

  abbrev untouched : Buffer → C → Store C
  untouched exact_pages context = record { pages = exact_pages.bytes; context = context }

  -- `pbns_recovery_stream_init`; `none` is a digest at NULL, and `hash_ops` is `null` when it or one
  -- of its operations is NULL. The pages are those of `exact_pages`.
  unfoldable pub init : List ℕ → Buffer → Option (List ℕ) → Pointer → C → Outcome C
  init request_id exact_pages expected_digest hash_ops context =
      if not (init_arguments_are_valid exact_pages expected_digest hash_ops)
      then record {
        status = err argument;
        stream = zero_stream;
        store = untouched exact_pages context;
        ack = zero_ack;
      }
      else (let (status, begun) = ops.begin context in
          elim status [
            | ok ↦ record {
              status = ok;
              stream = record zero_stream {
                request_id = request_id;
                pages = given;
                image_size = length exact_pages.bytes;
                expected_digest = digest_or_zero expected_digest;
                hash_ops = given;
                hash_active = true;
                initialized = true;
              };
              store = record (untouched exact_pages context) { context = begun };
              ack = zero_ack;
            }
            | err e ↦ record {
              status = err e;
              stream = zero_stream;
              store = record (untouched exact_pages context) { context = ops.clear begun };
              ack = zero_ack;
            }
          ])

  -- The call of a function that refuses before it touches the stream.
  abbrev pub refused : RecoveryStream → Store C → Error → Outcome C
  refused s store e = record { status = err e; stream = s; store = store; ack = zero_ack }

  -- `accept` once its checks have passed.
  unfoldable pub take_chunk : RecoveryStream → Store C → List ℕ → Outcome C
  take_chunk s store payload =
      let (status, context) = ops.update store.context payload in
      let (next, ack) = acknowledge (advanced s payload) in
      elim status [
        | ok ↦ record {
          status = ok;
          stream = next;
          store = record { pages = copy_at store.pages s.offset payload; context = context };
          ack = ack;
        }
        | err e ↦ fail s (record store { context = context }) e
      ]

  -- `pbns_recovery_stream_accept`; `none` is a NULL frame and the pointer is `ack`.
  unfoldable pub accept : RecoveryStream → Store C → Option Frame → View → Pointer → Outcome C
  accept s store frame payload null = refused s store argument
  accept s store none payload given = refused s store argument
  accept s store (some frame) payload given =
      if not (view_is_valid payload)
      then refused s store argument
      else if not s.initialized || s.complete || s.failed
      then refused s store state
      else elim (checks (accept_checks s frame payload.bytes)) [
        | ok ↦ take_chunk s store payload.bytes
        | err e ↦ fail s store e
      ]

  -- `pbns_recovery_stream_complete` once its checks have passed.
  unfoldable pub check_digest : RecoveryStream → Store C → Outcome C
  check_digest s store =
      let (status, digest, context) = ops.finish store.context in
      let finished = record store { context = context } in
      elim status [
        | ok ↦
            (if not (bytes_equal digest s.expected_digest)
              then fail s finished authentication
              else record {
                status = ok;
                stream = record s {
                  hash_active = false;
                  next_sequence = (s.next_sequence + 1) % 2 ^ 32;
                  complete = true;
                };
                store = record finished { context = ops.clear context };
                ack = zero_ack;
              })
        | err e ↦ fail s finished e
      ]

  -- `pbns_recovery_stream_complete`
  unfoldable pub finish : RecoveryStream → Store C → Option Frame → View → Outcome C
  finish s store none payload = refused s store argument
  finish s store (some frame) payload =
      if not (view_is_valid payload)
      then refused s store argument
      else if not s.initialized || s.complete || s.failed
      then refused s store state
      else elim (checks (complete_checks s frame payload.bytes)) [
        | ok ↦ check_digest s store
        | err e ↦ fail s store e
      ]

  -- `pbns_recovery_stream_reset`
  unfoldable pub reset : RecoveryStream → Store C → RecoveryStream × Store C
  reset s store =
      let wiped =
        if not (is_null s.pages) && ltb 0 s.image_size
        then replicate s.image_size 0 ++ drop s.image_size store.pages
        else store.pages in
      let context =
        if s.hash_active && not (is_null s.hash_ops)
        then ops.clear store.context
        else store.context in
      (zero_stream, record { pages = wiped; context = context })
