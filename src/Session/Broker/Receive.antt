-- ===== src/Session/Broker/Receive.antt =====
-- src/core/broker.c: pbns_broker_receive, and the part of it that pbns_broker_bulk_receive repeats.
use pbns.Common.{
  ℕ, zero, suc, ◌+◌, ◌-◌, Bool, true, false, not, ◌||◌, Option, none, some, ltb, leb, ◌==◌,
  if◌then◌else◌, length, take, drop, copy_at, bytes_equal, Status, ok, err, Error, argument, limit,
  message_type, state, would_block, transport,
}
use pbns.Common.Memory.{View, Pointer, given, is_null}
use pbns.Common.Actions.{
  ◌>>=◌, ◌>>◌, pure, raise, guard, settle_status, out_of_fuel, returns, fails,
}
use pbns.Wire.Frame.{Frame, Decoded, response, error}
use pbns.Wire.Frame
use pbns.Wire.RecordReader
use pbns.Session.Stream
use pbns.Session.Broker.Types.{
  Transport, Platform, ErrorCodec, Broker, Task, Response, the_broker, update,
}
use pbns.Session.Broker.Link.{emptied_len, remaining_timeout}
use pbns.Session.Broker.RemoteError.{decode_remote_error}

-- The bytes that were received and not yet read.
abbrev pub unread : Broker → View
unread b = record {
  ptr = b.receive.ptr + b.receive_offset;
  bytes = take (b.receive_length - b.receive_offset) (drop b.receive_offset b.receive.bytes);
}

-- What the return of `receive` means: bytes to read, nothing yet, or a failure.
pub data Arrival : Type 0 where
  bytes_arrived nothing_yet : Arrival
  refused_with : Error → Arrival

unfoldable pub arrival : Status → ℕ → ℕ → Arrival
arrival ok received capacity =
    if received == 0 || ltb capacity received then refused_with transport else bytes_arrived
arrival (err would_block) received capacity =
    if not (received == 0) then refused_with transport else nothing_yet
arrival (err e) received capacity = refused_with e

module _ {W : Type 0} where
  -- `pbns_record_reader_push` on what is unread; a record, if one is complete.
  unfoldable pub push_unread : Task W (Option View)
  push_unread s =
      let b = s.broker in
      let pushed = RecordReader.push b.reader (unread b) given given given in
      let t = record s {
        broker = record b {
          reader = pushed.reader;
          receive_offset = b.receive_offset + pushed.consumed;
        };
      } in
      elim pushed.status [
        | err would_block ↦ (returns none, t)
        | err e ↦ (fails e, t)
        | ok ↦
            (if not pushed.record_ready
              then (fails state, t)
              else (returns (some pushed.cobs_record), t))
      ]

  -- The decoding of a record, after which the reader starts afresh.
  unfoldable pub decoded_frame : Option Decoded → Task W (Frame × View)
  decoded_frame none = do
    update λ b. record b { reader = RecordReader.reset b.reader }
    raise argument
  decoded_frame (some d) = do
    update λ b. record b {
      raw_scratch = record b.raw_scratch { bytes = d.scratch };
      reader = RecordReader.reset b.reader;
    }
    settle_status d.status
    pure (d.frame, d.payload)

  unfoldable pub decode_frame : View → Task W (Frame × View)
  unfolding decoded_frame
  decode_frame cobs_record = do
    b ← the_broker
    decoded_frame (Frame.decode cobs_record b.limits (emptied_len b.raw_scratch) given given)

  unfoldable pub accept_frame : Frame → View → Task W Unit
  accept_frame frame payload = do
    b ← the_broker
    let (status, stream) = Stream.accept b.stream (some frame) payload
    update λ c. record c { stream = stream }
    settle_status status

  -- The payload is copied to where the caller finds it.
  unfoldable pub deliver : Frame → View → Task W Response
  deliver frame payload = do
    b ← the_broker
    guard (ltb (length b.decoded.bytes) (length payload.bytes)) limit
    update λ c. record c {
      decoded = record c.decoded {
        len = length payload.bytes;
        bytes = copy_at c.decoded.bytes 0 payload.bytes;
      };
    }
    pure (record { frame = frame; payload = record { ptr = b.decoded.ptr; bytes = payload.bytes } })

module _ {W : Type 0} (codec : ErrorCodec) where
  -- The rest of the loop's body, from a record that is complete.
  unfoldable pub take_response : View → Task W Response
  unfolding decode_frame accept_frame decode_remote_error deliver
  take_response cobs_record = do
    (frame, payload) ← decode_frame cobs_record
    accept_frame frame payload
    b ← the_broker
    guard (not (bytes_equal frame.request_id b.request_id)) state
    if frame.type == error
        then decode_remote_error codec payload.bytes b.service
        else do guard (not (frame.type == response)) message_type; deliver frame payload

module _ {W : Type 0} (t : Transport W) (p : Platform W) where
  -- A call of the transport's `receive`; whether there is something to read.
  unfoldable pub call_receive : ℕ → Task W Bool
  unfolding arrival
  call_receive remaining_ms s =
      let b = s.broker in
      let r = t.receive s.world (emptied_len b.receive) remaining_ms in
      let filled = record b { receive = record b.receive { bytes = r.bytes } } in
      elim (arrival r.status r.received (length b.receive.bytes)) [
        | bytes_arrived ↦ (
          returns true,
          record { broker = record filled { receive_length = r.received }; world = r.world },
        )
        | nothing_yet ↦ (returns false, record { broker = filled; world = r.world })
        | refused_with e ↦ (fails e, record { broker = filled; world = r.world })
      ]

  -- More bytes, where all that were received have been read; whether there is something to read.
  unfoldable pub refill : Task W Bool
  unfolding remaining_timeout call_receive
  refill = do
    update λ b. record b { receive_offset = 0; receive_length = 0 }
    remaining_ms ← remaining_timeout t p
    call_receive remaining_ms

  -- One round of the loop, up to a record that is complete.
  unfoldable pub read_step : Task W (Option View)
  unfolding refill push_unread
  read_step = do
    b ← the_broker
    some_bytes ← if leb b.receive_length b.receive_offset then refill else pure true
    if some_bytes then push_unread else pure none

  -- The rounds of the loop that end in `continue`, on fuel.
  unfoldable pub read_record : ℕ → Task W View
  unfolding read_step
  read_record zero = out_of_fuel
  read_record (suc fuel) = do
    found ← read_step
    elim found [ some cobs_record ↦ pure cobs_record | none ↦ read_record fuel ]

  module _ (codec : ErrorCodec) where
    -- `pbns_broker_receive`; the pointer is `response`. The response of a call that fails is zero.
    unfoldable pub receive : ℕ → Pointer → Task W Response
    unfolding read_record take_response
    receive fuel response_pointer = do
      guard (is_null response_pointer) argument
      b ← the_broker
      guard (not b.initialized || not b.active || b.bulk_mode) state
      cobs_record ← read_record fuel
      take_response codec cobs_record
