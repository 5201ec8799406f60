-- ===== src/Session/Broker/Fresh.antt =====
-- A broker that has no active session has received nothing of a download: every call leaves it so.
use pbns.Common.{
  ℕ, ◌≡◌, refl, sym, ◌∙◌, Bool, true, false, Option, List, Error, arith, state, argument,
}
use pbns.Common.Memory.{View, Pointer}
use pbns.Common.Actions.Triples.{
  Triple-change, Triple-bind, Triple-rescue, Triple-guard-bind, Triple-from, Contract-weaken,
}
use pbns.Common.Actions.Keeps.{Leaving}
use pbns.Wire.Frame.{Frame}
use pbns.Session.Broker.Types.{Transport, Platform, ErrorCodec, Broker, Live, Response, update}
use pbns.Session.Broker.Storage.{wipe_request_storage}
use pbns.Session.Broker.Link.{finish_session, cancel_session, cancel_request}
use pbns.Session.Broker.Receive.{deliver, take_response, receive}
use pbns.Session.Broker.Bulk.{
  prepared, forget_request, open_session, bulk_begin, bulk_receive, bulk_ack, bulk_finish,
  bulk_round, take_bulk, count_bulk, fail_bulk,
}
use pbns.Session.Broker.Upload.{
  clear_request_id, abort_upload, upload_begin, upload_frames, upload_answer, upload_send,
  upload_finish,
}
use pbns.Session.Broker.Request.{
  wipe_decoded, send_request, end_answered, end_failed, await_response, broker_request, reset,
}
use pbns.Session.Broker.RemoteError.{decode_remote_error}
use pbns.Session.Broker.RemoteError.Leaving.{decode_remote_error-Leaving}
use pbns.Session.Broker.Named.{Triple-the_broker}
use pbns.Session.Broker.Progress.{
  Progress, progress_rules, decode_frame-Progress, accept_frame-Progress, begin_deadline-Progress,
  query_effective_limits-Progress, emit-Progress, emit_cancel-Progress, transport_cancel-Progress,
  send_ack-Progress, bulk_limits-Progress, choose_request_id-Progress, read_record-Progress,
}

-- Nothing is counted while no session is active.
abbrev pub Fresh : Bool → ℕ → List ℕ → Type 0
Fresh active received bytes = active ≡ false → received ≡ 0

abbrev Active : Bool → ℕ → List ℕ → Type 0
Active active received bytes = active ≡ true

runs : {W : Type 0} {s : Live W} → Progress Active s → Progress Fresh s
runs k = record { holds = λ q. absurd (ground (arith, k.holds, q)) }

module _ {W : Type 0} {U : Live W → Type 0} where
  Fresh-update :
      (f : Broker → Broker)
      → ((c : Broker) → (f c).active ≡ c.active)
      → ((c : Broker) → (f c).bulk_received_data_size ≡ c.bulk_received_data_size)
      → Leaving U (Progress Fresh) (update f)
  unfolding update
  Fresh-update f ha hr = record {
    triple =
        Triple-change _
          λ s k. record { holds = λ q. hr s.broker ∙ k.holds (sym (ha s.broker) ∙ q) };
  }

  Fresh-starts :
      (f : Broker → Broker)
      → ((c : Broker) → (f c).active ≡ true)
      → Leaving U (Progress Fresh) (update f)
  unfolding update
  Fresh-starts f h = record {
    triple = Triple-change _ λ s k. record { holds = λ q. absurd (ground (arith, h s.broker, q)) };
  }

  Fresh-ends :
      (f : Broker → Broker)
      → ((c : Broker) → (f c).bulk_received_data_size ≡ 0)
      → Leaving U (Progress Fresh) (update f)
  unfolding update
  Fresh-ends f h = record { triple = Triple-change _ λ s k. record { holds = λ q. h s.broker } }

  Active-update :
      (f : Broker → Broker)
      → ((c : Broker) → (f c).active ≡ c.active)
      → Leaving U (Progress Active) (update f)
  unfolding update
  Active-update f h = record {
    triple = Triple-change _ λ s k. record { holds = h s.broker ∙ k.holds };
  }

ruleset fresh_rules = (progress_rules, Fresh-update, Fresh-starts, Fresh-ends)

ruleset active_rules = (progress_rules, Active-update)

module _ {W : Type 0} {U : Live W → Type 0} where
  deliver-Fresh : (f : Frame) (v : View) → Leaving U (Progress Fresh) (deliver f v)
  unfolding deliver
  deliver-Fresh f v = search fresh_rules

  deliver-Active : (f : Frame) (v : View) → Leaving U (Progress Active) (deliver f v)
  unfolding deliver
  deliver-Active f v = search active_rules

  count_bulk-Active : (f : Frame) (v : View) → Leaving U (Progress Active) (count_bulk f v)
  unfolding count_bulk
  count_bulk-Active f v = search active_rules depth 10

  error-Fresh :
      {A : Type 0} (c : ErrorCodec) (payload : List ℕ) (s : ℕ)
      → Leaving U (Progress Fresh) (decode_remote_error c {A = A} payload s)
  error-Fresh c payload s =
      decode_remote_error-Leaving (λ d u k. record { holds = k.holds }) c payload s

  error-Active :
      {A : Type 0} (c : ErrorCodec) (payload : List ℕ) (s : ℕ)
      → Leaving U (Progress Active) (decode_remote_error c {A = A} payload s)
  error-Active c payload s =
      decode_remote_error-Leaving (λ d u k. record { holds = k.holds }) c payload s

  take_response-Fresh :
      (codec : ErrorCodec) (r : View) → Leaving U (Progress Fresh) (take_response codec r)
  unfolding take_response
  take_response-Fresh codec r =
      search (fresh_rules, decode_frame-Progress, accept_frame-Progress, error-Fresh, deliver-Fresh)
        depth 14

  take_bulk-Active :
      (codec : ErrorCodec) (r : View) → Leaving U (Progress Active) (take_bulk codec r)
  unfolding take_bulk
  take_bulk-Active codec r =
      search
        (
          active_rules, decode_frame-Progress, accept_frame-Progress, error-Active,
          count_bulk-Active, deliver-Active,
        )
        depth 14

  module _ (t : Transport W) (p : Platform W) where
    finish_session-Fresh : (keep : Bool) → Leaving U (Progress Fresh) (finish_session t p keep)
    unfolding finish_session wipe_request_storage
    finish_session-Fresh keep = search fresh_rules depth 10

    cancel_session-Fresh : Leaving U (Progress Fresh) (cancel_session t p)
    unfolding cancel_session
    cancel_session-Fresh =
        search (fresh_rules, emit_cancel-Progress, transport_cancel-Progress, finish_session-Fresh)
          depth 14

    pub cancel_request-Fresh : Leaving U (Progress Fresh) (cancel_request t p)
    unfolding cancel_request
    cancel_request-Fresh = search (fresh_rules, cancel_session-Fresh)

    abort_upload-Fresh : Leaving U (Progress Fresh) (abort_upload t p)
    unfolding abort_upload
    abort_upload-Fresh = search (fresh_rules, cancel_session-Fresh) depth 10

    open_forgetting-Fresh :
        (ms : ℕ) → Leaving U (Progress Fresh) (open_session t p forget_request ms)
    unfolding open_session forget_request wipe_request_storage
    open_forgetting-Fresh ms = search (fresh_rules, begin_deadline-Progress) depth 14

    open_clearing-Fresh :
        (ms : ℕ) → Leaving U (Progress Fresh) (open_session t p clear_request_id ms)
    unfolding open_session clear_request_id
    open_clearing-Fresh ms = search (fresh_rules, begin_deadline-Progress) depth 14

    prepared-Fresh : (id : List ℕ) → Leaving U (Progress Fresh) (update (prepared id))
    unfolding prepared wipe_request_storage
    prepared-Fresh id = search fresh_rules

    send_request-Fresh :
        (service_id : ℕ) (id : List ℕ) (body : View)
        → Leaving U (Progress Fresh) (send_request t p service_id id body)
    unfolding send_request
    send_request-Fresh service_id id body =
        search (fresh_rules, query_effective_limits-Progress, emit-Progress, finish_session-Fresh)
          depth 14

    wipe_decoded-Fresh : Leaving U (Progress Fresh) (update wipe_decoded)
    unfolding wipe_decoded
    wipe_decoded-Fresh = search fresh_rules

    end_answered-Fresh : (r : Response) → Leaving U (Progress Fresh) (end_answered t p r)
    unfolding end_answered
    end_answered-Fresh r = search (fresh_rules, finish_session-Fresh, wipe_decoded-Fresh) depth 10

    end_failed-Fresh : (e : Error) → Leaving U (Progress Fresh) (end_failed t p e)
    unfolding end_failed
    end_failed-Fresh e =
        search (fresh_rules, cancel_request-Fresh, finish_session-Fresh, wipe_decoded-Fresh) depth
          14

    pub bulk_ack-Fresh :
        (next window ptr : ℕ) → Leaving U (Progress Fresh) (bulk_ack t p next window ptr)
    unfolding bulk_ack fail_bulk
    bulk_ack-Fresh next window ptr = search (fresh_rules, send_ack-Progress) depth 14

    pub bulk_finish-Fresh : Leaving U (Progress Fresh) (bulk_finish t p)
    unfolding bulk_finish
    bulk_finish-Fresh = search (fresh_rules, finish_session-Fresh)

    pub upload_finish-Fresh : Leaving U (Progress Fresh) (upload_finish t p)
    unfolding upload_finish
    upload_finish-Fresh = search (fresh_rules, finish_session-Fresh)

    pub bulk_begin-Fresh :
        (service_id : ℕ) (id : Option (List ℕ)) (body : View) (size ms : ℕ)
        → Leaving U (Progress Fresh) (bulk_begin t p service_id id body size ms)
    unfolding bulk_begin
    bulk_begin-Fresh service_id id body size ms =
        search
          (
            fresh_rules, prepared-Fresh, open_forgetting-Fresh, bulk_limits-Progress, emit-Progress,
            finish_session-Fresh,
          )
          depth 30

    pub upload_begin-Fresh :
        (service_id : ℕ) (id : Option (List ℕ)) (body : View) (ms : ℕ)
        → Leaving U (Progress Fresh) (upload_begin t p service_id id body ms)
    unfolding upload_begin
    upload_begin-Fresh service_id id body ms =
        search
          (
            fresh_rules, prepared-Fresh, open_clearing-Fresh, query_effective_limits-Progress,
            emit-Progress, finish_session-Fresh, abort_upload-Fresh,
          )
          depth 30

    upload_frames-Fresh :
        (v : View) (final : Bool) → Leaving U (Progress Fresh) (upload_frames t p v final)
    unfolding upload_frames
    upload_frames-Fresh v final = search (fresh_rules, emit-Progress) depth 14

    pub reset-Fresh : Leaving U (Progress Fresh) (reset t p)
    unfolding reset
    reset-Fresh = search (fresh_rules, cancel_request-Fresh) depth 14

module _ {W : Type 0} (t : Transport W) (p : Platform W) (codec : ErrorCodec) (fuel : ℕ) where
  pub receive-Fresh :
      (r : Pointer) → Leaving (λ _. Unit {0}) (Progress Fresh) (receive t p codec fuel r)
  unfolding receive
  receive-Fresh r = search (fresh_rules, read_record-Progress, take_response-Fresh) depth 12

  await_response-Fresh :
      (service_id : ℕ)
      → Leaving (λ _. Unit {0}) (Progress Fresh) (await_response t p codec fuel service_id)
  unfolding await_response
  await_response-Fresh service_id =
      search
        (fresh_rules, receive-Fresh, finish_session-Fresh, end_answered-Fresh, end_failed-Fresh)
        depth 20

  pub broker_request-Fresh :
      (service_id : ℕ) (supplied : Option (List ℕ)) (body : View) (ms : ℕ) (r : Pointer)
      → Leaving
          (λ _. Unit {0})
          (Progress Fresh)
          (broker_request t p codec fuel service_id supplied body ms r)
  unfolding broker_request
  broker_request-Fresh service_id supplied body ms r =
      search
        (
          fresh_rules, prepared-Fresh, choose_request_id-Progress, open_forgetting-Fresh,
          send_request-Fresh, await_response-Fresh,
        )
        depth 30

  bulk_round-Active : Leaving (λ _. Unit {0}) (Progress Active) (bulk_round t p codec fuel)
  unfolding bulk_round
  bulk_round-Active = search (active_rules, read_record-Progress, take_bulk-Active)

  fail_bulk-Active : Leaving (λ _. Unit {0}) (Progress Active {W = W}) fail_bulk
  unfolding fail_bulk
  fail_bulk-Active = search active_rules

  -- While a download is active, nothing is asked of what it has counted.
  pub bulk_receive-Fresh :
      (r : Pointer) → Leaving (λ _. Unit {0}) (Progress Fresh) (bulk_receive t p codec fuel r)
  unfolding bulk_receive
  bulk_receive-Fresh r = record {
    triple =
        Triple-guard-bind _ argument (λ _ s h. h)
          λ _.
            Triple-bind
              (Triple-the_broker {Q = λ b s. Progress Fresh s × (s.broker.active ≡ b.active)}
                (λ s h. (h, refl)))
              λ b.
                Triple-guard-bind _ state (λ _ s h. h.0)
                  λ live.
                    Contract-weaken (λ _ s h. runs h) (λ _ s h. runs h) (λ s h. h)
                      (Triple-from (λ s h. record { holds = h.1 ∙ ground (arith, live) })
                        (Triple-rescue bulk_round-Active.triple fail_bulk-Active.triple));
  }

  upload_answer-Fresh : Leaving (λ _. Unit {0}) (Progress Fresh) (upload_answer t p codec fuel)
  unfolding upload_answer
  upload_answer-Fresh = search (fresh_rules, receive-Fresh) depth 10

  pub upload_send-Fresh :
      (v : View) (final : Bool) (r : Pointer)
      → Leaving (λ _. Unit {0}) (Progress Fresh) (upload_send t p codec fuel v final r)
  unfolding upload_send
  upload_send-Fresh v final r =
      search (fresh_rules, upload_frames-Fresh, upload_answer-Fresh, abort_upload-Fresh) depth 20
