-- ===== src/Tests/DownloadRuns.antt =====
-- src/core/broker.c with a transport that delivers the frames of a download.
use pbns.Common.{
  ℕ, ◌≡◌, refl, Bool, Option, true, false, none, some, List, [], ◌∷◌, ◌++◌, length, ok, err, arith,
  replicate, bytes_equal, copy_at, would_block, checks, take, drop, ◌↔◌, All,
}
use pbns.Common.Memory.{View, given, ranges_overlap}
use pbns.Common.Actions.{returns, settle}
use pbns.Common.Words.{u32_be, read_u32_be}
use pbns.Wire.Cobs
use pbns.Wire.Crc32c.{crc32c_bytes, crc_loop, crc_update}
use pbns.Wire.RecordReader
use pbns.Wire.Cobs.Spec.{encoded, encoded_from}
use pbns.Wire.Frame.{
  Frame, encode, encode_checks, encode_record, raw_record, data_record, complete, response, decode,
  decode_record, header_prefix, with_crc, validate_payload_length, validate_ack_payload, decode_raw,
  raw_checks, parsed_frame,
}
use pbns.Session.Stream
use pbns.Session.Broker.Sessions.Calls.{Call, run, perform}
use pbns.Session.Broker.Storage
use pbns.Session.Broker.Types.{
  BrokerStorage, Transport, Platform, ErrorCodec, Broker, zero_broker, Live, the_broker, update,
  call, call_for, Response,
}
use pbns.Session.Broker.Storage.{request_id_is_nonzero, wipe_request_storage}
use pbns.Session.Broker.Bulk.{bulk_begin, bulk_finish, bulk_receive}
use pbns.Session.Broker.Request
use pbns.Session.Broker.Request.{broker_request}
use pbns.Session.Broker.Link.{effective_limits, begin_deadline}
use pbns.Session.Broker.Utf8.{utf8_is_valid}
use pbns.Session.Broker.Utf8.Scalars.{utf8_is_valid_iff, encode_text, IsScalar}
use pbns.Session.Broker.Answers.{broker_request_answers}
use pbns.Session.Broker.Download.Traces.{DownloadCall, download, data_total, download_exact}

abbrev id : List ℕ
id = replicate 16 7

abbrev frame : ℕ → ℕ → Frame
frame type sequence = record {
  service = 2;
  type = type;
  flags = 0;
  request_id = id;
  sequence = sequence;
}

abbrev wire : Frame → List ℕ → List ℕ
wire f payload = encoded (raw_record f payload) ++ 0 ∷ []

-- The world is what comes next.
abbrev scripted : Transport (List (List ℕ))
scripted = record {
  open_link = λ w. (ok, w);
  close_link = λ w. (ok, w);
  send = λ w bytes ms. (ok, w);
  receive = λ w b ms. elim w [
    | [] ↦ record { status = err would_block; received = 0; bytes = b.bytes; world = [] }
    | next ∷ rest ↦ record {
      status = ok;
      received = length next;
      bytes = copy_at b.bytes 0 next;
      world = rest;
    }
  ];
  cancel_request = λ w request_id. (ok, w);
  limits = λ w.
      (ok, record { control_payload_max = 64; data_payload_max = 64; encoded_record_max = 100 }, w);
}

abbrev still : Platform (List (List ℕ))
still = record { random = λ w. (ok, id, w); monotonic_ms = λ w. (ok, 5, w) }

abbrev codec : ErrorCodec
codec = record {
  next_item = λ bytes n. none;
  finished = λ bytes n. true;
  encode_error = λ code detail label bytes. (none, bytes);
}

abbrev ready : Broker
ready = record zero_broker {
  raw_scratch = record { ptr = 2000; len = 0; bytes = replicate 60 0 };
  receive = record { ptr = 3000; len = 0; bytes = replicate 60 0 };
  decoded = record { ptr = 4000; len = 0; bytes = replicate 8 0 };
  reader = record {
    storage = record { ptr = 1000; len = 0; bytes = replicate 60 0 };
    initialized = true;
    discarding = false;
    ready = false;
    failed = false;
  };
  initialized = true;
}

abbrev storage : BrokerStorage
storage = record {
  encoded = record { ptr = 1000; len = 0; bytes = replicate 60 0 };
  raw_scratch = record { ptr = 2000; len = 0; bytes = replicate 60 0 };
  receive = record { ptr = 3000; len = 0; bytes = replicate 60 0 };
  decoded = record { ptr = 4000; len = 0; bytes = replicate 8 0 };
}

-- A broker that has just been set up, and the frames of two downloads.
abbrev fresh : Live (List (List ℕ))
fresh = record {
  broker = (Storage.init (some scripted) (some still) storage).1;
  world =
      wire (frame data_record 0) (9 ∷ 7 ∷ [])
      ∷ wire (frame complete 1) []
      ∷ wire (frame data_record 0) (4 ∷ 0 ∷ 6 ∷ [])
      ∷ wire (frame complete 1) []
      ∷ [];
}

abbrev body : View
body = record { ptr = 5000; bytes = 1 ∷ [] }

-- A whole download of two bytes.
abbrev earlier : List Call
earlier =
    Call.begin_download 2 (some id) body 2 10
    ∷ Call.next_chunk given
    ∷ Call.next_chunk given
    ∷ Call.finish_download
    ∷ []

is_set_up : (Storage.init (some scripted) (some still) storage).0 ≡ ok
unfolding bulk_begin bulk_finish run perform Request.reset settle the_broker update call call_for
    download bulk_receive RecordReader.push RecordReader.push_loop RecordReader.reset
    RecordReader.init ranges_overlap decode decode_record decode_raw raw_checks parsed_frame
    Cobs.decode Cobs.decode_loop Cobs.copy_run header_prefix with_crc raw_record
    validate_payload_length validate_ack_payload checks u32_be read_u32_be crc32c_bytes crc_loop
    crc_update encoded_from bytes_equal Stream.accept Stream.accept_checks Stream.validate_payload
    encode encode_checks encode_record Cobs.encode Cobs.encode_loop Cobs.max_encoded_size
    Stream.init effective_limits begin_deadline wipe_request_storage Storage.init
    Storage.storage_is_valid Storage.any_overlap Storage.overlaps_any Storage.buffers_overlap
    request_id_is_nonzero
is_set_up = refl

abbrev is_there : Option (Live (List (List ℕ))) → Bool
is_there none = false
is_there (some u) = true

abbrev there : Option (Live (List (List ℕ))) → Live (List (List ℕ))
there none = fresh
there (some u) = u

there_lem : (o : Option (Live (List (List ℕ)))) → is_there o ≡ true → o ≡ some (there o)
there_lem none h = absurd (ground (arith, h))
there_lem (some u) h = refl

-- The broker after these calls.
abbrev waiting : Live (List (List ℕ))
waiting = there (run scripted still codec 3 earlier fresh)

have_run : is_there (run scripted still codec 3 earlier fresh) ≡ true
unfolding bulk_begin bulk_finish run perform Request.reset settle the_broker update call call_for
    download bulk_receive RecordReader.push RecordReader.push_loop RecordReader.reset
    RecordReader.init ranges_overlap decode decode_record decode_raw raw_checks parsed_frame
    Cobs.decode Cobs.decode_loop Cobs.copy_run header_prefix with_crc raw_record
    validate_payload_length validate_ack_payload checks u32_be read_u32_be crc32c_bytes crc_loop
    crc_update encoded_from bytes_equal Stream.accept Stream.accept_checks Stream.validate_payload
    encode encode_checks encode_record Cobs.encode Cobs.encode_loop Cobs.max_encoded_size
    Stream.init effective_limits begin_deadline wipe_request_storage Storage.init
    Storage.storage_is_valid Storage.any_overlap Storage.overlaps_any Storage.buffers_overlap
    request_id_is_nonzero
have_run = refl

-- A download of three bytes.
abbrev begun : Live (List (List ℕ))
begun = (bulk_begin scripted still 2 (some id) body 3 10 waiting).1

has_begun : bulk_begin scripted still 2 (some id) body 3 10 waiting ≡ (returns tt, begun)
unfolding bulk_begin bulk_finish run perform Request.reset settle the_broker update call call_for
    download bulk_receive RecordReader.push RecordReader.push_loop RecordReader.reset
    RecordReader.init ranges_overlap decode decode_record decode_raw raw_checks parsed_frame
    Cobs.decode Cobs.decode_loop Cobs.copy_run header_prefix with_crc raw_record
    validate_payload_length validate_ack_payload checks u32_be read_u32_be crc32c_bytes crc_loop
    crc_update encoded_from bytes_equal Stream.accept Stream.accept_checks Stream.validate_payload
    encode encode_checks encode_record Cobs.encode Cobs.encode_loop Cobs.max_encoded_size
    Stream.init effective_limits begin_deadline wipe_request_storage Storage.init
    Storage.storage_is_valid Storage.any_overlap Storage.overlaps_any Storage.buffers_overlap
    request_id_is_nonzero
has_begun = refl

abbrev chunks : List DownloadCall
chunks = DownloadCall.take_chunk ∷ DownloadCall.take_chunk ∷ []

is_finished :
    (bulk_finish scripted still (download scripted still codec 3 chunks begun).1).0 ≡ returns tt
unfolding bulk_begin bulk_finish run perform Request.reset settle the_broker update call call_for
    download bulk_receive RecordReader.push RecordReader.push_loop RecordReader.reset
    RecordReader.init ranges_overlap decode decode_record decode_raw raw_checks parsed_frame
    Cobs.decode Cobs.decode_loop Cobs.copy_run header_prefix with_crc raw_record
    validate_payload_length validate_ack_payload checks u32_be read_u32_be crc32c_bytes crc_loop
    crc_update encoded_from bytes_equal Stream.accept Stream.accept_checks Stream.validate_payload
    encode encode_checks encode_record Cobs.encode Cobs.encode_loop Cobs.max_encoded_size
    Stream.init effective_limits begin_deadline wipe_request_storage Storage.init
    Storage.storage_is_valid Storage.any_overlap Storage.overlaps_any Storage.buffers_overlap
    request_id_is_nonzero
is_finished = refl

download_exact_example :
    let (taken, u) = download scripted still codec 3 chunks begun in
    (data_total taken ≡ 3) × (u.broker.stream.complete ≡ true)
download_exact_example =
    download_exact scripted still codec 3 storage fresh.world earlier waiting begun 2 (some id) body
      3 10 chunks (omega arith) is_set_up (there_lem _ have_run) has_begun is_finished

-- A request whose response comes in two pieces.
abbrev asked : Live (List (List ℕ))
asked = record {
  broker = ready;
  world =
      take 20 (wire (frame response 0) (8 ∷ 9 ∷ []))
      ∷ drop 20 (wire (frame response 0) (8 ∷ 9 ∷ []))
      ∷ [];
}

abbrev answered : Response
answered = record { frame = frame response 0; payload = record { ptr = 4000; bytes = 8 ∷ 9 ∷ [] } }

is_answered :
    broker_request scripted still codec 3 2
      (some id)
      (record { ptr = 5000; bytes = 1 ∷ [] })
      10
      given
      asked
    ≡ (
      returns answered,
      (broker_request scripted still codec 3 2
          (some id)
          (record { ptr = 5000; bytes = 1 ∷ [] })
          10
          given
          asked).1,
    )
unfolding broker_request settle the_broker update call call_for RecordReader.push
    RecordReader.push_loop RecordReader.reset ranges_overlap decode decode_record decode_raw
    raw_checks parsed_frame Cobs.decode Cobs.decode_loop Cobs.copy_run header_prefix with_crc
    raw_record validate_payload_length validate_ack_payload checks u32_be read_u32_be crc32c_bytes
    crc_loop crc_update encoded_from bytes_equal Stream.accept Stream.accept_checks
    Stream.validate_payload encode encode_checks encode_record Cobs.encode Cobs.encode_loop
    Cobs.max_encoded_size Stream.init effective_limits begin_deadline wipe_request_storage
is_answered = refl

broker_request_answers_example :
    let u =
      (broker_request scripted still codec 3 2
        (some id)
        (record { ptr = 5000; bytes = 1 ∷ [] })
        10
        given
        asked).1 in
    (answered.frame.type ≡ response)
    × (answered.frame.service ≡ 2)
    × (answered.frame.flags ≡ 0)
    × (answered.frame.sequence ≡ 0)
    × ((other : List ℕ) → some id ≡ some other → answered.frame.request_id ≡ other)
    × (request_id_is_nonzero answered.frame.request_id ≡ true)
    × (answered.payload.ptr ≡ u.broker.decoded.ptr)
    × (take (length answered.payload.bytes) u.broker.decoded.bytes ≡ answered.payload.bytes)
broker_request_answers_example =
    broker_request_answers scripted still codec 3 2 (some id)
      (record { ptr = 5000; bytes = 1 ∷ [] }) 10 given asked
      (broker_request scripted still codec 3 2 (some id) (record { ptr = 5000; bytes = 1 ∷ [] }) 10
        given asked).1
      answered is_answered

-- The text of U+20AC, in three bytes.
utf8_is_valid_iff_example :
    (utf8_is_valid (0xe2 ∷ 0x82 ∷ 0xac ∷ []) ≡ true)
    ↔ ((cs : List ℕ) × All IsScalar cs × (0xe2 ∷ 0x82 ∷ 0xac ∷ [] ≡ encode_text cs))
utf8_is_valid_iff_example = utf8_is_valid_iff (0xe2 ∷ 0x82 ∷ 0xac ∷ [])
