-- ===== src/Session/Broker/Bulk.antt =====
-- src/core/broker.c: a download of an exact size, pbns_broker_bulk_begin, bulk_receive, bulk_ack and
-- bulk_finish.
use pbns.Common.{
  ℕ, ◌+◌, ◌-◌, ◌*◌, ◌%◌, ◌^◌, Bool, true, false, not, ◌&&◌, ◌||◌, Option, List, ◌++◌, ltb, ◌==◌,
  if◌then◌else◌, length, argument, limit, format, service, message_type, state, busy,
}
use pbns.Common.Memory.{View, Pointer, is_null, view_is_valid}
use pbns.Common.Words.{uint32_max, uint64_max, u32_be}
use pbns.Common.Actions.{◌>>=◌, ◌>>◌, guard, required, rescue}
use pbns.Wire.Frame.{Frame, service_is_valid, request, data_record, ack, error, complete}
use pbns.Wire.RecordReader
use pbns.Session.Stream
use pbns.Session.Stream.{fail_stream}
use pbns.Session.Broker.Types.{
  Transport, Platform, ErrorCodec, Broker, Task, Response, the_broker, update, call,
  zero_request_id,
}
use pbns.Session.Broker.Storage.{wipe_request_storage, request_id_is_nonzero}
use pbns.Session.Broker.Link.{
  query_effective_limits, begin_deadline, remaining_timeout, finish_session, encode_frame, emit,
  send_encoded, frame_of,
}
use pbns.Session.Broker.Receive.{read_record, decode_frame, accept_frame, deliver}
use pbns.Session.Broker.RemoteError.{decode_remote_error}

-- `PBNS_BROKER_BULK_WINDOW`
abbrev pub bulk_window : ℕ
bulk_window = 8

-- A fresh session for a request id, before the transport is opened.
unfoldable pub prepared : List ℕ → Broker → Broker
prepared request_id b =
    let wiped = wipe_request_storage false b in
    record wiped { reader = RecordReader.reset wiped.reader; request_id = request_id }

-- What is undone when the deadline cannot be set or the transport cannot be opened.
unfoldable pub forget_request : Broker → Broker
forget_request b = wipe_request_storage false (record b { request_id = zero_request_id })

-- The first frame of a request.
abbrev pub first_frame : ℕ → List ℕ → Frame
first_frame service_id request_id = record {
  service = service_id;
  type = request;
  flags = 0;
  request_id = request_id;
  sequence = 0;
}

module _ {W : Type 0} where
  -- `fail_bulk_session`
  unfoldable pub fail_bulk : Task W Unit
  fail_bulk = update λ b. record b { bulk_failed = true; stream = fail_stream b.stream }

  -- The limits of a download on a chunk of data, and on its end.
  unfoldable pub count_bulk : Frame → View → Task W Unit
  count_bulk frame payload = do
    b ← the_broker
    let size = length payload.bytes
    if frame.type == data_record
        then (do
          guard (size == 0) format
          guard
              (ltb b.bulk_exact_data_size b.bulk_received_data_size
                || ltb (b.bulk_exact_data_size - b.bulk_received_data_size) size)
              limit
          update λ c. record c {
            bulk_received_data_size = (c.bulk_received_data_size + size) % 2 ^ 64;
          })
        else guard (not (b.bulk_received_data_size == b.bulk_exact_data_size)) limit

  -- The rest of the loop's body of `pbns_broker_bulk_receive`, from a record that is complete.
  unfoldable pub take_bulk : ErrorCodec → View → Task W Response
  unfolding decode_frame accept_frame decode_remote_error deliver count_bulk
  take_bulk codec cobs_record = do
    (frame, payload) ← decode_frame cobs_record
    guard
        (not (frame.type == data_record)
          && not (frame.type == complete)
          && not (frame.type == error))
        message_type
    accept_frame frame payload
    b ← the_broker
    if frame.type == error
        then decode_remote_error codec payload.bytes b.service
        else do count_bulk frame payload; deliver frame payload

-- Whether a download does not go on.
abbrev pub bulk_is_over : Broker → Bool
bulk_is_over b =
    not b.initialized || not b.active || not b.bulk_mode || b.bulk_failed || b.stream.complete

module _ {W : Type 0} (t : Transport W) (p : Platform W) where
  -- The transport opened within a deadline.
  unfoldable pub open_session : (Broker → Broker) → ℕ → Task W Unit
  open_session undo timeout_ms = do
    rescue (begin_deadline t p timeout_ms) (update undo)
    rescue (call t.open_link) (update λ b. undo (record b { deadline_active = false }))
    update λ b. record b { opened = true }

  unfoldable pub bulk_limits : View → ℕ → Task W Unit
  unfolding query_effective_limits
  bulk_limits request_body exact_data_size = do
    query_effective_limits t p
    b ← the_broker
    guard
        (ltb b.limits.control_payload_max (length request_body.bytes)
          || b.limits.data_payload_max == 0
          || ltb (b.limits.data_payload_max * (uint32_max - 1)) exact_data_size)
        limit

  -- `pbns_broker_bulk_begin`; `none` is a request id at NULL.
  unfoldable pub bulk_begin : ℕ → Option (List ℕ) → View → ℕ → ℕ → Task W Unit
  unfolding prepared open_session bulk_limits emit finish_session
  bulk_begin service_id request_id request_body exact_data_size timeout_ms = do
    id ← required request_id
    guard
        (not (view_is_valid request_body)
          || not (request_id_is_nonzero id)
          || exact_data_size == 0
          || timeout_ms == 0)
        argument
    b ← the_broker
    guard (not b.initialized) state
    guard (not (service_is_valid service_id)) service
    guard (b.active || b.opened) busy
    update (prepared id)
    open_session forget_request timeout_ms
    rescue
        (do
          bulk_limits request_body exact_data_size
          emit t p (first_frame service_id id) request_body)
        (finish_session t p false)
    update λ c. record c {
      service = service_id;
      active = true;
      bulk_mode = true;
      bulk_exact_data_size = exact_data_size;
      stream = Stream.init service_id c.request_id uint64_max;
    }
    c ← the_broker
    rescue (guard (not c.stream.initialized) state) (finish_session t p false)

  -- The loop of `pbns_broker_bulk_receive`.
  unfoldable pub bulk_round : ErrorCodec → ℕ → Task W Response
  unfolding read_record take_bulk
  bulk_round codec fuel = do cobs_record ← read_record t p fuel; take_bulk codec cobs_record

  -- `pbns_broker_bulk_receive`
  unfoldable pub bulk_receive : ErrorCodec → ℕ → Pointer → Task W Response
  unfolding bulk_round fail_bulk
  bulk_receive codec fuel response_pointer = do
    guard (is_null response_pointer) argument
    b ← the_broker
    guard (bulk_is_over b) state
    rescue (bulk_round codec fuel) fail_bulk

  -- The acknowledgement, within the time that is left before it is encoded.
  unfoldable pub send_ack : Frame → View → Task W Unit
  unfolding remaining_timeout encode_frame send_encoded
  send_ack frame payload = do
    remaining_ms ← remaining_timeout t p
    written ← encode_frame frame payload
    send_encoded t p written remaining_ms

  -- `pbns_broker_bulk_ack`; its payload is a local array, at an address of its own.
  unfoldable pub bulk_ack : ℕ → ℕ → ℕ → Task W Unit
  unfolding send_ack frame_of fail_bulk
  bulk_ack next_data_sequence window payload_ptr = do
    b ← the_broker
    guard (bulk_is_over b) state
    guard
        (next_data_sequence == 0
          || not (next_data_sequence == b.stream.next_sequence)
          || not (next_data_sequence == (b.bulk_next_ack_sequence + 1) * bulk_window)
          || not (window == bulk_window)
          || b.bulk_next_ack_sequence == uint32_max)
        argument
    let payload = u32_be next_data_sequence ++ u32_be window
    rescue
        (send_ack (frame_of b ack b.bulk_next_ack_sequence)
          (record { ptr = payload_ptr; bytes = payload }))
        fail_bulk
    update λ c. record c { bulk_next_ack_sequence = c.bulk_next_ack_sequence + 1 }

  -- `pbns_broker_bulk_finish`
  unfoldable pub bulk_finish : Task W Unit
  unfolding finish_session
  bulk_finish = do
    b ← the_broker
    guard
        (not b.initialized
          || not b.active
          || not b.bulk_mode
          || b.bulk_failed
          || not b.stream.complete
          || not (b.bulk_received_data_size == b.bulk_exact_data_size))
        state
    finish_session t p false
