-- ===== src/Session/Broker/Link.antt =====
-- src/core/broker.c: what every request shares. The limits of the transport, the deadline, the
-- frames that are sent, and the end of a session.
use pbns.Common.{
  ℕ, ◌+◌, ◌-◌, min, Bool, true, false, not, ◌||◌, Option, none, some, [], ltb, leb, if◌then◌else◌,
  length, take, Status, ok, err, limit, state, timeout, unsupported, checks, ◌∷◌,
}
use pbns.Common.Memory.{View, Buffer, null_view, given}
use pbns.Common.Words.{uint32_max, uint64_max}
use pbns.Common.Actions.{◌>>=◌, ◌>>◌, pure, raise, guard, settle_status, status_of}
use pbns.Wire.Frame.{
  Frame, FrameLimits, header_size, trailer_size, control_payload_max, data_payload_max, wire_max,
  cancel,
}
use pbns.Wire.Frame
use pbns.Wire.RecordReader
use pbns.Session.Stream.{zero_stream}
use pbns.Session.Broker.Types.{
  Transport, Platform, Broker, Task, the_broker, update, call, call_for, zero_request_id,
}
use pbns.Session.Broker.Storage.{wipe_request_storage}

-- `PBNS_BROKER_CANCEL_TIMEOUT_MS`
abbrev pub cancel_timeout_ms : ℕ
cancel_timeout_ms = 1000

-- A buffer as it is passed to the codec of frames.
abbrev pub emptied_len : Buffer → Buffer
emptied_len b = record b { len = 0 }

abbrev pub limits_exceed : FrameLimits → Bool
limits_exceed l =
    ltb control_payload_max l.control_payload_max
    || ltb data_payload_max l.data_payload_max
    || ltb wire_max l.encoded_record_max
    || ltb l.encoded_record_max 2

-- The limits of the transport, cut down to what the storage holds.
unfoldable pub effective_limits : Broker → FrameLimits → FrameLimits
effective_limits b l =
    let payload_capacity = length b.raw_scratch.bytes - header_size - trailer_size in
    record {
      control_payload_max =
          min l.control_payload_max (min payload_capacity (length b.decoded.bytes));
      data_payload_max = min l.data_payload_max (min payload_capacity (length b.decoded.bytes));
      encoded_record_max = min l.encoded_record_max (length b.reader.storage.bytes);
    }

-- What `finish_session` leaves of a broker.
unfoldable pub ended : Bool → Broker → Broker
ended preserve_decoded b = wipe_request_storage preserve_decoded (record b {
  opened = false;
  active = false;
  deadline_active = false;
  deadline_ms = 0;
  receive_offset = 0;
  receive_length = 0;
  bulk_exact_data_size = 0;
  bulk_received_data_size = 0;
  bulk_next_ack_sequence = 0;
  upload_next_sequence = 0;
  bulk_mode = false;
  bulk_failed = false;
  upload_mode = false;
  upload_response_received = false;
  service = 0;
  request_id = zero_request_id;
  reader = RecordReader.reset b.reader;
  stream = zero_stream;
})

-- The time that is left at `now_ms`, before it is cut to 32 bits.
unfoldable pub remaining_at : Broker → ℕ → Option ℕ
remaining_at b now_ms =
    if leb b.deadline_ms now_ms
    then none
    else some
        (if ltb uint32_max (b.deadline_ms - now_ms) then uint32_max else b.deadline_ms - now_ms)

abbrev pub deadline_from : ℕ → ℕ → ℕ
deadline_from now_ms timeout_ms =
    if ltb (uint64_max - now_ms) timeout_ms then uint64_max else now_ms + timeout_ms

unfoldable pub timeout_of : {W : Type 0} → Option ℕ → Task W ℕ
timeout_of none = raise timeout
timeout_of (some remaining) = pure remaining

-- `local_status` of `pbns_broker_cancel`: a transport need not support a cancellation.
unfoldable pub tolerated : Status → Status
tolerated (err unsupported) = ok
tolerated status = status

-- `pbns_frame_encode` with the storage of the broker; the count of the bytes written.
unfoldable pub encode_frame : {W : Type 0} → Frame → View → Task W ℕ
encode_frame frame payload = do
  b ← the_broker
  let sent =
      Frame.encode (some frame) payload (emptied_len b.raw_scratch) (emptied_len b.reader.storage)
        given
  update λ c. record c {
    raw_scratch = record c.raw_scratch { bytes = sent.raw };
    reader = record c.reader { storage = record c.reader.storage { bytes = sent.output } };
  }
  settle_status sent.status
  pure sent.written

-- The header of every frame that the broker sends.
unfoldable pub frame_of : Broker → ℕ → ℕ → Frame
frame_of b type sequence = record {
  service = b.service;
  type = type;
  flags = 0;
  request_id = b.request_id;
  sequence = sequence;
}

module _ {W : Type 0} (t : Transport W) (p : Platform W) where
  unfoldable pub query_effective_limits : Task W Unit
  query_effective_limits = do
    transport_limits ← call_for t.limits
    guard (limits_exceed transport_limits) limit
    update λ b. record b { limits = effective_limits b transport_limits }

  unfoldable pub begin_deadline : ℕ → Task W Unit
  begin_deadline timeout_ms = do
    now_ms ← call_for p.monotonic_ms
    update λ b. record b { deadline_ms = deadline_from now_ms timeout_ms; deadline_active = true }

  unfoldable pub remaining_timeout : Task W ℕ
  unfolding remaining_at timeout_of
  remaining_timeout = do
    b ← the_broker
    guard (not b.deadline_active) state
    now_ms ← call_for p.monotonic_ms
    timeout_of (remaining_at b now_ms)

  -- `finish_session`; the status is that of `close`.
  unfoldable pub finish_session : Bool → Task W Unit
  unfolding ended
  finish_session preserve_decoded = do
    b ← the_broker
    closed ← status_of (if b.opened then call t.close_link else pure tt)
    update (ended preserve_decoded)
    settle_status closed

  -- The first bytes of the encoded buffer.
  unfoldable pub send_encoded : ℕ → ℕ → Task W Unit
  send_encoded written timeout_ms = do
    b ← the_broker
    call λ w. t.send w (take written b.reader.storage.bytes) timeout_ms

  unfoldable pub emit_cancel : Task W Unit
  unfolding encode_frame frame_of send_encoded
  emit_cancel = do
    b ← the_broker
    written ← encode_frame (frame_of b cancel 1) null_view
    send_encoded written cancel_timeout_ms

  unfoldable pub transport_cancel : Task W Unit
  transport_cancel = do b ← the_broker; call λ w. t.cancel_request w b.request_id

  -- A frame within the time that is left: `upload_emit`, and the requests before it.
  unfoldable pub emit : Frame → View → Task W Unit
  unfolding encode_frame remaining_timeout send_encoded
  emit frame payload = do
    written ← encode_frame frame payload
    remaining_ms ← remaining_timeout
    send_encoded written remaining_ms

  unfoldable pub cancel_session : Task W Unit
  unfolding emit_cancel transport_cancel finish_session tolerated
  cancel_session = do
    sent ← status_of emit_cancel
    cancelled ← status_of transport_cancel
    closed ← status_of (finish_session false)
    settle_status (checks (sent ∷ tolerated cancelled ∷ closed ∷ []))

  -- `pbns_broker_cancel`
  unfoldable pub cancel_request : Task W Unit
  unfolding cancel_session
  cancel_request = do
    b ← the_broker
    guard (not b.initialized || not b.active) state
    cancel_session
