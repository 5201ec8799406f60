-- ===== src/Tests/BrokerRuns.antt =====
-- src/core/broker.c with a transport that never delivers a byte.
use pbns.Common.{
  ℕ, ◌+◌, ◌-◌, ◌*◌, ◌^◌, ◌/◌, ◌≡◌, ◌≢◌, refl, min, true, false, none, some, List, [], ◌∷◌, ok, err,
  inr, arith, replicate, would_block, if◌then◌else◌, state, timeout,
}
use pbns.Common.Memory.{View, given, ranges_overlap}
use pbns.Common.Words.{uint64_max}
use pbns.Common.Actions.{fails, unfinished, settle}
use pbns.Wire.RecordReader
use pbns.Session.Stream
use pbns.Session.Broker.Types.{
  Transport, Platform, ErrorCodec, BrokerStorage, Broker, zero_broker, Live, the_broker, update,
  call_for,
}
use pbns.Session.Broker.Storage
use pbns.Session.Broker.Bulk.{bulk_receive, bulk_ack, bulk_finish}
use pbns.Session.Broker.Upload.{upload_send}
use pbns.Session.Broker.Request.{broker_request}
use pbns.Session.Broker.Sessions.{Promises, Holds}
use pbns.Session.Broker.Sessions.Calls.{Call, run}
use pbns.Session.Broker.Sessions.Runs.{run-counts}
use pbns.Session.Broker.Sessions.Closing.{broker_request_closes, upload_send_closes, Sent}
use pbns.Session.Broker.Sessions.Wiping.{broker_request_wipes, Cleared}
use pbns.Session.Broker.Download.{download_sticky}

-- How many links are open, and the ticks of the clock, a thousand of which make a millisecond.
record Line : Type 0 where
  pub links : ℕ
  pub ticks : ℕ

abbrev idle_line : Line
idle_line = record { links = 0; ticks = 0 }

abbrev quiet : Transport Line
quiet = record {
  open_link = λ w. (ok, record w { links = w.links + 1 });
  close_link = λ w. (ok, record w { links = w.links - 1 });
  send = λ w bytes ms. (ok, w);
  receive = λ w b ms. record {
    status = err would_block;
    received = 0;
    bytes = b.bytes;
    world = record w { ticks = w.ticks + 1 };
  };
  cancel_request = λ w request_id. (ok, w);
  limits = λ w.
      (ok, record { control_payload_max = 64; data_payload_max = 64; encoded_record_max = 100 }, w);
}

abbrev clock : Platform Line
clock = record {
  random = λ w. (ok, replicate 16 9, w);
  monotonic_ms = λ w. (ok, min (w.ticks / 1000) uint64_max, w);
}

quiet-Promises : Promises quiet clock (λ w. w.links) (λ w. w.ticks) 1000
quiet-Promises = record {
  open_ok = λ w h. refl;
  open_err = λ w h. absurd (h refl);
  close = λ w. refl;
  send = λ w bytes ms. refl;
  receive = λ w b ms. refl;
  cancel = λ w request_id. refl;
  limits = λ w. refl;
  random = λ w. refl;
  monotonic_ms = λ w. refl;
  rate_pos = omega arith;
  clock = λ w h. refl;
  clock_ticks = λ w. omega arith;
  receive_ticks = λ w b ms. omega arith;
  receive_size = λ w b ms. refl;
}

-- A codec for which every text ends where it starts.
abbrev codec : ErrorCodec
codec = record {
  next_item = λ bytes n. none;
  finished = λ bytes n. true;
  encode_error = λ code detail label bytes. (none, bytes);
}

abbrev storage : BrokerStorage
storage = record {
  encoded = record { ptr = 1000; len = 0; bytes = replicate 100 0 };
  raw_scratch = record { ptr = 2000; len = 0; bytes = replicate 100 0 };
  receive = record { ptr = 3000; len = 0; bytes = replicate 100 0 };
  decoded = record { ptr = 4000; len = 0; bytes = replicate 64 0 };
}

abbrev body : View
body = record { ptr = 5000; bytes = 1 ∷ 2 ∷ [] }

abbrev fuel : ℕ
fuel = 1000 * 2 ^ 64 + 2

abbrev calls : List Call
calls =
    Call.request_once 2 none body 10 given
    ∷ Call.begin_download 2 (some (replicate 16 7)) body 5 10
    ∷ Call.next_chunk given
    ∷ Call.finish_download
    ∷ Call.cancel_it
    ∷ Call.begin_upload 6 (some (replicate 16 7)) body 10
    ∷ Call.next_part body false given
    ∷ Call.reset_it
    ∷ Call.request_named 2 (some (replicate 16 7)) body 10 given
    ∷ []

is_set_up : (Storage.init (some quiet) (some clock) storage).0 ≡ ok
unfolding Storage.init Storage.storage_is_valid Storage.any_overlap Storage.overlaps_any
    Storage.buffers_overlap ranges_overlap RecordReader.init
is_set_up = refl

run-counts_example :
    (u : Live Line) × (run quiet clock codec fuel calls
        (record { broker = (Storage.init (some quiet) (some clock) storage).1; world = idle_line })
      ≡ some u)
    × (u.broker.opened ≡ u.broker.active)
    × (u.world.links ≡ 0 + (if u.broker.active then 1 else 0))
run-counts_example = run-counts quiet-Promises (omega arith) codec storage idle_line calls is_set_up

abbrev ready : Broker
ready = record zero_broker {
  raw_scratch = storage.raw_scratch;
  receive = storage.receive;
  decoded = storage.decoded;
  initialized = true;
}

broker_request_closes_example :
    let (answer, u) =
      broker_request quiet clock codec fuel 2 none body 10 given
        (record { broker = ready; world = idle_line }) in
    (answer ≢ unfinished) × Holds (λ (w : Line). w.links) false false 0 u
broker_request_closes_example =
    broker_request_closes quiet-Promises (omega arith) codec 2 none body 10 given
      (record { broker = ready; world = idle_line })
      (record {
        initialized = refl;
        opened = refl;
        active = refl;
        counted = refl;
        filled = omega arith;
        bounded = omega arith;
      })

abbrev uploading : Live Line
uploading = record {
  broker = record ready {
    opened = true;
    active = true;
    upload_mode = true;
    deadline_active = true;
    deadline_ms = 10;
  };
  world = record { links = 1; ticks = 0 };
}

upload_send_closes_example :
    let (answer, u) = upload_send quiet clock codec fuel body true given uploading in
    Sent (λ (w : Line). w.links) 0 answer u
upload_send_closes_example =
    upload_send_closes quiet-Promises (omega arith) codec body true uploading 0 refl (omega arith)
      refl refl
      (record {
        initialized = refl;
        opened = refl;
        active = refl;
        counted = refl;
        filled = omega arith;
        bounded = omega arith;
      })

-- A download whose time has run out.
abbrev late : Live Line
late = record {
  broker = record ready {
    opened = true;
    active = true;
    bulk_mode = true;
    bulk_exact_data_size = 5;
    stream = record Stream.zero_stream { next_sequence = 8; initialized = true };
    deadline_active = true;
    deadline_ms = 10;
  };
  world = record { links = 1; ticks = 10000 };
}

-- An acknowledgement is due, and the time is over.
is_late :
    bulk_ack quiet clock 8 8 6000 late ≡ (fails timeout, (bulk_ack quiet clock 8 8 6000 late).1)
unfolding bulk_ack settle the_broker update call_for
is_late = refl

download_sticky_example :
    let u = (bulk_ack quiet clock 8 8 6000 late).1 in
    (bulk_receive quiet clock codec 3 given u ≡ (fails state, u))
    × ((next window ptr : ℕ) → bulk_ack quiet clock next window ptr u ≡ (fails state, u))
    × (bulk_finish quiet clock u ≡ (fails state, u))
download_sticky_example =
    download_sticky quiet clock codec 3 late (bulk_ack quiet clock 8 8 6000 late).1 timeout refl
      (inr (8, 8, 6000, refl, is_late))

broker_request_wipes_example :
    let (answer, u) =
      broker_request quiet clock codec fuel 2 none body 10 given
        (record { broker = ready; world = idle_line }) in
    Cleared (record { broker = ready; world = idle_line }) answer u
broker_request_wipes_example =
    broker_request_wipes quiet-Promises (omega arith) codec 2 none body 10 given
      (record { broker = ready; world = idle_line })
      (record {
        initialized = refl;
        opened = refl;
        active = refl;
        counted = refl;
        filled = omega arith;
        bounded = omega arith;
      })
