-- ===== src/Session/Broker/Sessions/Transfers.antt =====
-- Downloads and uploads: how a session starts, goes on and ends.
use pbns.Common.{
  ◌^◌, ◌*◌, ◌<◌, ℕ, ◌+◌, ◌⊎◌, inl, inr, refl, Bool, true, false, Option, List, state, busy,
}
use pbns.Common.Memory.{View, Pointer}
use pbns.Common.Actions.Triples.{
  Triple, Triple-bind, Triple-pure, Triple-rescue, Triple-guard-bind, Triple-settle, Triple-map,
}
use pbns.Common.Actions.Keeps.{Leaving, Keeps, Keeps-guard, Keeps-required}
use pbns.Session.Broker.Types.{Transport, Platform, ErrorCodec}
use pbns.Session.Broker.Bulk.{
  open_session, bulk_limits, bulk_begin, bulk_receive, bulk_ack, bulk_finish,
}
use pbns.Session.Broker.Upload.{
  clear_request_id, abort_upload, upload_begin, upload_send, upload_finish,
}
use pbns.Session.Broker.Sessions.{
  Promises, Holds, Triple-update, session_rules, query_effective_limits-Keeps, emit-Keeps,
}
use pbns.Session.Broker.Sessions.Steps.{
  bulk_round-Keeps, fail_bulk-Keeps, send_ack-Keeps, upload_frames-Keeps, upload_answer-Keeps,
}
use pbns.Session.Broker.Sessions.Ends.{
  Idle, Running, Triple-read, finish_session-Idle, cancel_session-Idle, open_session-Holds,
}
use pbns.Session.Broker.Sessions.Requests.{prepared-Keeps, open_forgetting}

module _ {W : Type 0} {links : W → ℕ} {o a : Bool} {n : ℕ} {t : Transport W} {p : Platform W}
    {ticks : W → ℕ} {rate : ℕ} (c : Promises t p links ticks rate) where
  bulk_limits-Keeps :
      (body : View) (size : ℕ) → Keeps (Holds links o a n) (bulk_limits t p body size)
  unfolding bulk_limits
  bulk_limits-Keeps body size = search (session_rules, query_effective_limits-Keeps)

  pub bulk_ack-Keeps :
      (next window ptr : ℕ) → Keeps (Holds links o a n) (bulk_ack t p next window ptr)
  unfolding bulk_ack
  bulk_ack-Keeps next window ptr = search (session_rules, send_ack-Keeps, fail_bulk-Keeps) depth 10

  module _ {fuel : ℕ} (enough : rate * 2 ^ 64 + 1 < fuel) where
    pub bulk_receive-Keeps :
        (codec : ErrorCodec) (r : Pointer)
        → Keeps (Holds links o a n) (bulk_receive t p codec fuel r)
    unfolding bulk_receive
    bulk_receive-Keeps codec r =
        search (session_rules, bulk_round-Keeps c enough, fail_bulk-Keeps) depth 10

module _ {W : Type 0} {links : W → ℕ} {n : ℕ} {t : Transport W} {p : Platform W} {ticks : W → ℕ}
    {rate : ℕ} (c : Promises t p links ticks rate) where
  pub bulk_begin-Running :
      (service_id : ℕ) (id : Option (List ℕ)) (body : View) (size ms : ℕ)
      → Triple
          (Idle links n)
          (bulk_begin t p service_id id body size ms)
          (λ _ s. Running links n s)
          (λ _ s. Idle links n s)
  unfolding bulk_begin
  bulk_begin-Running service_id request_id body size ms =
      Triple-bind (Keeps-required request_id).triple λ id. Triple-bind (Keeps-guard _ _).triple λ _.
        Triple-read λ b _ _ _. Triple-bind (Keeps-guard _ _).triple λ _.
          Triple-bind (Keeps-guard _ _).triple λ _. Triple-bind (Keeps-guard _ _).triple λ _.
            Triple-bind (prepared-Keeps id).triple λ _. Triple-bind (open_forgetting c ms) λ _.
              Triple-bind
                (Triple-rescue
                  (Leaving.triple (search (session_rules, bulk_limits-Keeps, emit-Keeps)))
                  (finish_session-Idle c false))
                λ _.
                  Triple-bind
                    (Triple-update _ λ s k. record {
                      initialized = k.initialized;
                      opened = k.opened;
                      active = refl;
                      counted = k.counted;
                      filled = k.filled;
                      bounded = k.bounded;
                    })
                    λ _. Triple-read λ b _ _ _.
                      Triple-rescue (Keeps-guard _ state).triple (finish_session-Idle c false)

  pub bulk_finish-Idle :
      Triple
        (Running links n)
        (bulk_finish t p)
        (λ _ s. Idle links n s)
        (λ _ s. Idle links n s ⊎ Running links n s)
  unfolding bulk_finish
  bulk_finish-Idle = Triple-read λ b _ _ _.
      Triple-guard-bind _ state (λ _ s h. inr h)
        (λ _. Triple-map (λ _ s h. h) (λ _ s h. inl h) (finish_session-Idle c false))

  pub abort_upload-Idle :
      Triple (Running links n) (abort_upload t p) (λ _ s. Idle links n s) (λ _ s. Idle links n s)
  unfolding abort_upload
  abort_upload-Idle = Triple-read λ b _ _ a. rw a (
      Triple-settle (cancel_session-Idle c) (λ _. Triple-pure tt (λ s h. h))
        (λ _. Triple-pure tt (λ s h. h)))

  open_clearing :
      (ms : ℕ)
      → Triple
          (Idle links n)
          (open_session t p clear_request_id ms)
          (λ _ s. Holds links true false (n + 1) s)
          (λ _ s. Idle links n s)
  unfolding clear_request_id
  open_clearing ms = open_session-Holds c _ ms (search session_rules) (search session_rules)

  pub upload_begin-Running :
      (service_id : ℕ) (id : Option (List ℕ)) (body : View) (ms : ℕ)
      → Triple
          (Idle links n)
          (upload_begin t p service_id id body ms)
          (λ _ s. Running links n s)
          (λ _ s. Idle links n s)
  unfolding upload_begin
  upload_begin-Running service_id request_id body ms =
      Triple-bind (Keeps-required request_id).triple λ id. Triple-bind (Keeps-guard _ _).triple λ _.
        Triple-read λ b _ _ _. Triple-bind (Keeps-guard _ _).triple λ _.
          Triple-bind (Keeps-guard _ _).triple λ _. Triple-bind (prepared-Keeps id).triple λ _.
            Triple-bind (open_clearing ms) λ _.
              Triple-bind
                (Triple-rescue
                  (Leaving.triple (search (session_rules, query_effective_limits-Keeps) depth 10))
                  (finish_session-Idle c false))
                λ _.
                  Triple-bind
                    (Triple-update _ λ s k. record {
                      initialized = k.initialized;
                      opened = k.opened;
                      active = refl;
                      counted = k.counted;
                      filled = k.filled;
                      bounded = k.bounded;
                    })
                    λ _. Triple-rescue (emit-Keeps c _ body).triple abort_upload-Idle

  pub upload_finish-Idle :
      Triple
        (Running links n)
        (upload_finish t p)
        (λ _ s. Idle links n s)
        (λ _ s. Idle links n s ⊎ Running links n s)
  unfolding upload_finish
  upload_finish-Idle = Triple-read λ b _ _ _.
      Triple-guard-bind _ state (λ _ s h. inr h)
        (λ _. Triple-map (λ _ s h. h) (λ _ s h. inl h) (finish_session-Idle c false))

  module _ {fuel : ℕ} (enough : rate * 2 ^ 64 + 1 < fuel) where
    -- A failure of an upload that runs ends the session; so it does not go on with a part missing.
    pub upload_send-Idle :
        (codec : ErrorCodec) (v : View) (final : Bool) (r : Pointer)
        → Triple
            (Running links n)
            (upload_send t p codec fuel v final r)
            (λ _ s. Running links n s)
            (λ _ s. Idle links n s ⊎ Running links n s)
    unfolding upload_send
    upload_send-Idle codec v final r =
        Triple-guard-bind _ _ (λ _ s h. inr h)
          λ _. Triple-read λ b _ _ _.
            Triple-guard-bind _ _ (λ _ s h. inr h)
              λ _.
                Triple-map (λ _ s h. h) (λ _ s h. inl h)
                  (Triple-rescue
                    (Leaving.triple
                      (search (session_rules, upload_frames-Keeps, upload_answer-Keeps c enough)))
                    abort_upload-Idle)

module _ {W : Type 0} {links : W → ℕ} {m : ℕ} where
  -- While a session runs, no other one starts.
  pub bulk_begin-refused :
      (t : Transport W) (p : Platform W) (service_id : ℕ) (id : Option (List ℕ)) (body : View)
      (size ms : ℕ)
      → Triple
          (Holds links true true m)
          (bulk_begin t p service_id id body size ms)
          (λ _ s. ⊥)
          (λ _ s. Holds links true true m s)
  unfolding bulk_begin
  bulk_begin-refused t p service_id request_id body size ms =
      Triple-bind (Keeps-required request_id).triple λ id. Triple-bind (Keeps-guard _ _).triple λ _.
        Triple-read λ b _ o a. Triple-bind (Keeps-guard _ _).triple λ _.
          Triple-bind (Keeps-guard _ _).triple
            λ _. rw (o, a) (Triple-guard-bind true busy (λ _ s h. h) (λ q. cc))

  pub upload_begin-refused :
      (t : Transport W) (p : Platform W) (service_id : ℕ) (id : Option (List ℕ)) (body : View)
      (ms : ℕ)
      → Triple
          (Holds links true true m)
          (upload_begin t p service_id id body ms)
          (λ _ s. ⊥)
          (λ _ s. Holds links true true m s)
  unfolding upload_begin
  upload_begin-refused t p service_id request_id body ms =
      Triple-bind (Keeps-required request_id).triple λ id. Triple-bind (Keeps-guard _ _).triple λ _.
        Triple-read λ b i o a. rw (i, o, a) (Triple-guard-bind true state (λ _ s h. h) (λ q. cc))
