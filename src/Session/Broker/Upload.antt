-- ===== src/Session/Broker/Upload.antt =====
-- src/core/broker.c: an upload, pbns_broker_upload_begin, upload_send and upload_finish.
use pbns.Common.{
  ℕ, ◌+◌, Bool, true, false, not, ◌||◌, Option, List, ltb, ◌==◌, if◌then◌else◌, length, argument,
  limit, service, state,
}
use pbns.Common.Memory.{View, Pointer, null_view, given, is_null, view_is_valid}
use pbns.Common.Words.{uint32_max}
use pbns.Common.Actions.{◌>>=◌, ◌>>◌, pure, guard, required, ignore, rescue}
use pbns.Wire.Frame.{service_is_valid, data_record, complete}
use pbns.Session.Stream
use pbns.Session.Broker.Types.{
  Transport, Platform, ErrorCodec, Broker, Task, Response, zero_response, the_broker, update,
  zero_request_id,
}
use pbns.Session.Broker.Storage.{request_id_is_nonzero}
use pbns.Session.Broker.Link.{
  query_effective_limits, finish_session, emit, frame_of, cancel_session,
}
use pbns.Session.Broker.Receive.{receive}
use pbns.Session.Broker.Bulk.{prepared, first_frame, open_session}

unfoldable pub clear_request_id : Broker → Broker
clear_request_id b = record b { request_id = zero_request_id }

module _ {W : Type 0} (t : Transport W) (p : Platform W) where
  -- `abort_upload_session`, which then returns the status that it was given.
  unfoldable pub abort_upload : Task W Unit
  unfolding cancel_session
  abort_upload = do b ← the_broker; if b.active then ignore (cancel_session t p) else pure tt

  -- `pbns_broker_upload_begin`; `none` is a request id at NULL.
  unfoldable pub upload_begin : ℕ → Option (List ℕ) → View → ℕ → Task W Unit
  unfolding prepared open_session clear_request_id query_effective_limits finish_session emit
      abort_upload
  upload_begin service_id request_id request_body timeout_ms = do
    id ← required request_id
    guard (not (view_is_valid request_body) || not (request_id_is_nonzero id) || timeout_ms == 0)
        argument
    b ← the_broker
    guard (not b.initialized || b.active || b.opened) state
    guard (not (service_is_valid service_id)) service
    update (prepared id)
    open_session t p clear_request_id timeout_ms
    rescue
        (do
          query_effective_limits t p
          c ← the_broker
          guard
              (ltb c.limits.control_payload_max (length request_body.bytes)
                || c.limits.data_payload_max == 0)
              limit
          update λ c. record c {
            service = service_id;
            upload_mode = true;
            upload_next_sequence = 0;
            stream = Stream.init service_id id c.limits.control_payload_max;
          }
          c ← the_broker
          guard (not c.stream.initialized) state)
        (finish_session t p false)
    update λ c. record c { active = true }
    rescue (emit t p (first_frame service_id id) request_body) (abort_upload)

  -- The frames of `pbns_broker_upload_send`: the data, and the end of the upload behind the last.
  unfoldable pub upload_frames : View → Bool → Task W Unit
  unfolding emit frame_of
  upload_frames payload final_record = do
    b ← the_broker
    guard
        (ltb b.limits.data_payload_max (length payload.bytes)
          || b.upload_next_sequence == uint32_max)
        limit
    emit t p (frame_of b data_record b.upload_next_sequence) payload
    update λ c. record c { upload_next_sequence = c.upload_next_sequence + 1 }
    if final_record
        then (do c ← the_broker; emit t p (frame_of c complete c.upload_next_sequence) null_view)
        else pure tt

  -- The answer to a complete upload.
  unfoldable pub upload_answer : ErrorCodec → ℕ → Task W Response
  unfolding receive
  upload_answer codec fuel = do
    update λ b. record b { upload_mode = false }
    response ← receive t p codec fuel given
    update λ b. record b { upload_response_received = true }
    pure response

  -- `pbns_broker_upload_send`; the pointer is `response`.
  unfoldable pub upload_send : ErrorCodec → ℕ → View → Bool → Pointer → Task W Response
  unfolding upload_frames upload_answer abort_upload
  upload_send codec fuel payload final_record response_pointer = do
    guard (is_null response_pointer || not (view_is_valid payload) || length payload.bytes == 0)
        argument
    b ← the_broker
    guard (not b.initialized || not b.active || not b.upload_mode || b.bulk_mode) state
    rescue
        (do
          upload_frames payload final_record
          if final_record then upload_answer codec fuel else pure zero_response)
        abort_upload

  -- `pbns_broker_upload_finish`
  unfoldable pub upload_finish : Task W Unit
  unfolding finish_session
  upload_finish = do
    b ← the_broker
    guard (not b.initialized || not b.active || b.upload_mode || not b.upload_response_received)
        state
    finish_session t p false
