-- ===== src/Session/Broker/Request.antt =====
-- src/core/broker.c: a request with one response, pbns_broker_request and request_with_id, and
-- pbns_broker_reset.
use pbns.Common.{
  ℕ, Bool, true, false, not, ◌||◌, Option, none, some, List, ltb, ◌==◌, if◌then◌else◌, length,
  Error, argument, limit, service, state, busy, timeout, entropy,
}
use pbns.Common.Memory.{View, Pointer, given, is_null, view_is_valid}
use pbns.Common.Actions.{◌>>=◌, ◌>>◌, pure, raise, settle, guard, ignore, rescue}
use pbns.Wire.Frame.{service_is_valid}
use pbns.Wire.RecordReader
use pbns.Session.Stream
use pbns.Session.Broker.Types.{
  Transport, Platform, ErrorCodec, BrokerStorage, Broker, zero_broker, Task, Response, the_broker,
  update, call, call_for, zero_request_id,
}
use pbns.Session.Broker.Storage.{wipe_buffer, wipe_request_storage, request_id_is_nonzero}
use pbns.Session.Broker.Link.{query_effective_limits, finish_session, emit, cancel_request}
use pbns.Session.Broker.Receive.{receive}
use pbns.Session.Broker.Bulk.{prepared, forget_request, first_frame, open_session}

unfoldable pub is_timeout : Error → Bool
is_timeout timeout = true
is_timeout _ = false

abbrev pub nonzero_or_absent : Option (List ℕ) → Bool
nonzero_or_absent none = true
nonzero_or_absent (some id) = request_id_is_nonzero id

unfoldable pub wipe_decoded : Broker → Broker
unfolding wipe_buffer
wipe_decoded b = record b { decoded = record (wipe_buffer b.decoded) { len = 0 } }

-- The storage that the caller has given, as the broker has it.
abbrev pub storage_of : Broker → BrokerStorage
storage_of b = record {
  encoded = b.reader.storage;
  raw_scratch = b.raw_scratch;
  receive = b.receive;
  decoded = b.decoded;
}

module _ {W : Type 0} (t : Transport W) (p : Platform W) where
  -- The request id: the one that was supplied, or a random one.
  unfoldable pub choose_request_id : Option (List ℕ) → Task W (List ℕ)
  unfolding request_id_is_nonzero
  choose_request_id (some id) = pure id
  choose_request_id none = do
    id ← call_for p.random
    guard (not (request_id_is_nonzero id)) entropy
    pure id

  -- The request is sent to a transport that is open; a failure ends the session.
  unfoldable pub send_request : ℕ → List ℕ → View → Task W Unit
  unfolding query_effective_limits emit finish_session
  send_request service_id id request_body =
      rescue
        (do
          query_effective_limits t p
          b ← the_broker
          guard (ltb b.limits.control_payload_max (length request_body.bytes)) limit
          emit t p (first_frame service_id id) request_body)
        (finish_session t p false)

  -- The session ends after the response; a failure of `close` takes the response back.
  unfoldable pub end_answered : Response → Task W Response
  unfolding finish_session wipe_decoded
  end_answered response = do rescue (finish_session t p true) (update wipe_decoded); pure response

  -- The session ends after a failure, by a cancellation if the time has run out.
  unfoldable pub end_failed : Error → Task W Response
  unfolding finish_session wipe_decoded cancel_request is_timeout
  end_failed e =
      if is_timeout e
      then ignore (cancel_request t p) >> raise e
      else do ignore (rescue (finish_session t p false) (update wipe_decoded)); raise e

  module _ (codec : ErrorCodec) where
    -- The response to a request that was sent.
    unfoldable pub await_response : ℕ → ℕ → Task W Response
    unfolding receive end_answered end_failed finish_session
    await_response fuel service_id = do
      update λ b. record b {
        service = service_id;
        active = true;
        stream = Stream.init service_id b.request_id b.limits.control_payload_max;
      }
      b ← the_broker
      rescue (guard (not b.stream.initialized) state) (finish_session t p false)
      update λ c. record c { reader = RecordReader.reset c.reader }
      settle (receive t p codec fuel given) end_answered end_failed

    -- `broker_request`; a request id of `none` is to be chosen, and the pointer is `response`.
    unfoldable pub broker_request : ℕ → ℕ → Option (List ℕ) → View → ℕ → Pointer → Task W Response
    unfolding prepared choose_request_id open_session send_request await_response forget_request
    broker_request fuel service_id supplied request_body timeout_ms response_pointer = do
      guard
          (is_null response_pointer
            || not (view_is_valid request_body)
            || timeout_ms == 0
            || not (nonzero_or_absent supplied))
          argument
      b ← the_broker
      guard (not b.initialized) state
      guard (not (service_is_valid service_id)) service
      guard (b.active || b.opened) busy
      update (prepared zero_request_id)
      id ← choose_request_id supplied
      update λ c. record c { request_id = id }
      open_session t p forget_request timeout_ms
      send_request service_id id request_body
      await_response fuel service_id

    -- `pbns_broker_request_with_id`; `none` is a request id at NULL.
    unfoldable pub request_with_id : ℕ → ℕ → Option (List ℕ) → View → ℕ → Pointer → Task W Response
    unfolding broker_request
    request_with_id fuel service_id none request_body timeout_ms response_pointer = raise argument
    request_with_id fuel service_id (some id) request_body timeout_ms response_pointer =
        broker_request fuel service_id (some id) request_body timeout_ms response_pointer

  -- `pbns_broker_reset`. It gives back the storage that the caller once gave to `init`, as it is
  -- then: the broker itself has no name for it any more.
  unfoldable pub reset : Task W BrokerStorage
  unfolding cancel_request wipe_request_storage
  reset = do
    b ← the_broker
    if not b.initialized then pure (storage_of b) else do
      if b.active
          then ignore (cancel_request t p)
          else if b.opened
          then ignore (call t.close_link) >> update (λ c. record c { opened = false })
          else pure tt
      update (wipe_request_storage false)
      c ← the_broker
      update λ c. zero_broker
      pure (storage_of c)
