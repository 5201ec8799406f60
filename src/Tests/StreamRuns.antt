-- ===== src/Tests/StreamRuns.antt =====
-- src/core/record_reader.c and src/core/stream.c on short inputs.
use pbns.Common.{
  bytes_equal, ℕ, ◌+◌, ◌≡◌, ◌≤◌, refl, true, false, some, List, [], ◌∷◌, length, ok, err, arith,
  replicate, limit, checks,
}
use pbns.Common.Memory.{View, given, ranges_overlap, null_view}
use pbns.Wire.Frame.{Frame}
use pbns.Wire.RecordReader.{Reader, push}
use pbns.Wire.RecordReader.Chunks.{push-append, push_again}
use pbns.Wire.RecordReader.Records.{push-record, push-oversized, IsBetween}
use pbns.Session.Stream.{Stream, accept, accept_checks, validate_payload}
use pbns.Session.Stream.Invariant.{IsValid, accept-IsValid}
use pbns.Session.Stream.Order.{Ordered, accept_all, accept_all-Ordered, payload_sum}

abbrev reader : ℕ → Reader
reader n = record {
  storage = record { ptr = 100; len = 0; bytes = replicate n 0 };
  initialized = true;
  discarding = false;
  ready = false;
  failed = false;
}

between : (n : ℕ) → IsBetween (reader n)
between n = record {
  initialized = refl;
  discarding = refl;
  ready = refl;
  failed = refl;
  empty = refl;
}

push-append_example :
    push (reader 4) (record { ptr = 500; bytes = 5 ∷ 6 ∷ 0 ∷ [] }) given given given
    ≡ push_again
        (push (reader 4) (record { ptr = 500; bytes = 5 ∷ [] }) given given given)
        (record { ptr = 501; bytes = 6 ∷ 0 ∷ [] })
unfolding ranges_overlap
push-append_example = push-append (reader 4) 500 (5 ∷ []) (6 ∷ 0 ∷ []) (λ e. ground (arith, e)) refl

push-record_example :
    let pushed =
      push (reader 4) (record { ptr = 500; bytes = 5 ∷ 6 ∷ 0 ∷ 7 ∷ [] }) given given given in
    (pushed.status ≡ ok)
    × (pushed.consumed ≡ 3)
    × (pushed.record_ready ≡ true)
    × (pushed.cobs_record ≡ record { ptr = 100; bytes = 5 ∷ 6 ∷ [] })
    × (pushed.reader.ready ≡ true)
unfolding ranges_overlap
push-record_example =
    push-record (reader 4) 500 (5 ∷ 6 ∷ []) (7 ∷ []) (between 4) (omega arith) refl refl
      (omega arith) (omega arith)

push-oversized_example :
    let pushed =
      push (reader 2) (record { ptr = 500; bytes = 5 ∷ 6 ∷ 8 ∷ 0 ∷ 7 ∷ [] }) given given given in
    (pushed.status ≡ err limit)
    × (pushed.consumed ≡ 4)
    × (pushed.record_ready ≡ false)
    × (pushed.reader.failed ≡ true)
unfolding ranges_overlap
push-oversized_example =
    push-oversized (reader 2) 500 (5 ∷ 6 ∷ 8 ∷ []) (7 ∷ []) (between 2) (omega arith) refl refl
      (omega arith)

abbrev stream : Stream
stream = record {
  service = 1;
  request_id = replicate 16 7;
  byte_limit = 10;
  total_bytes = 0;
  next_sequence = 0;
  initialized = true;
  complete = false;
  failed = false;
}

abbrev frame : ℕ → ℕ → Frame
frame type sequence_number = record {
  service = 1;
  type = type;
  flags = 0;
  request_id = replicate 16 7;
  sequence = sequence_number;
}

abbrev bytes : List ℕ → View
bytes b = record { ptr = 100; bytes = b }

abbrev frames : List (Frame × View)
frames = (frame 3 0, bytes (1 ∷ 2 ∷ 3 ∷ [])) ∷ (frame 7 1, null_view) ∷ []

abbrev finished : Stream
finished = record stream { total_bytes = 3; next_sequence = 2; complete = true }

valid : IsValid stream
valid = record { bytes = omega arith; limited = omega arith; sequenced = omega arith }

accept_all-Ordered_example :
    Ordered stream 0 frames
    × (finished.next_sequence ≡ 0 + length frames)
    × (finished.total_bytes ≡ 0 + payload_sum frames)
    × (finished.total_bytes ≤ 10)
unfolding accept_all accept accept_checks checks validate_payload bytes_equal
accept_all-Ordered_example = accept_all-Ordered stream finished frames valid refl

accept-IsValid_example : IsValid (accept stream (some (frame 3 0)) (bytes (1 ∷ 2 ∷ []))).1
accept-IsValid_example = accept-IsValid stream (some (frame 3 0)) (bytes (1 ∷ 2 ∷ [])) valid
