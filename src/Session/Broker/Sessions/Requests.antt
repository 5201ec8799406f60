-- ===== src/Session/Broker/Sessions/Requests.antt =====
-- A request leaves no session behind, and none starts while another one runs.
use pbns.Common.{
  replicate, ◌≤◌, ◌^◌, ◌*◌, ◌<◌, length-replicate, ℕ, ◌+◌, refl, Bool, true, false, Option, none,
  some, List, Error, arith, state, busy, length,
}
use pbns.Common.Memory.{View, Pointer, given}
use pbns.Common.Actions.Triples.{
  Triple, Triple-bind, Triple-pure, Triple-raise, Triple-rescue, Triple-settle, Triple-guard-bind,
  Triple-ignore-bind, Triple-if,
}
use pbns.Common.Actions.Keeps.{Leaving, Keeps, Keeps-guard}
use pbns.Session.Broker.Types.{Transport, Platform, ErrorCodec, Broker, Response, update}
use pbns.Session.Broker.Storage.{wipe_request_storage}
use pbns.Session.Broker.Link.{cancel_request}
use pbns.Session.Broker.Bulk.{open_session, prepared, forget_request}
use pbns.Session.Broker.Request.{
  choose_request_id, send_request, wipe_decoded, end_answered, end_failed, await_response,
  broker_request, is_timeout,
}
use pbns.Session.Broker.Sessions.{
  Promises, Holds, Triple-update, Keeps-update, session_rules, query_effective_limits-Keeps,
  emit-Keeps,
}
use pbns.Session.Broker.Sessions.Steps.{receive-Keeps}
use pbns.Session.Broker.Sessions.Ends.{
  Idle, Running, Triple-read, finish_session-Idle, cancel_session-Idle, open_session-Holds,
}

wiped-filled :
    (b : Broker)
    → b.receive_length ≤ length b.receive.bytes
    → b.receive_length ≤ length (replicate {A = ℕ} (length b.receive.bytes) 0)
wiped-filled b h = omega (arith, length-replicate {A = ℕ} (length b.receive.bytes) 0)

module _ {W : Type 0} {links : W → ℕ} {o a : Bool} {n : ℕ} where
  pub prepared-Keeps : (id : List ℕ) → Keeps (Holds links o a n) (update (prepared id))
  unfolding prepared wipe_request_storage
  prepared-Keeps id =
      Keeps-update _ (λ b. refl) (λ b. refl) (λ b. refl) (λ b. wiped-filled b) (λ b h. h)

  wipe_decoded-Keeps : Keeps (Holds links o a n) (update wipe_decoded)
  unfolding wipe_decoded
  wipe_decoded-Keeps = search session_rules

module _ {W : Type 0} {links : W → ℕ} {n : ℕ} {t : Transport W} {p : Platform W} {ticks : W → ℕ}
    {rate : ℕ} (c : Promises t p links ticks rate) where
  choose_request_id-Keeps :
      {o a : Bool} (supplied : Option (List ℕ))
      → Keeps (Holds links o a n) (choose_request_id t p supplied)
  unfolding choose_request_id
  choose_request_id-Keeps none = search (session_rules, c.random)
  choose_request_id-Keeps (some id) = search session_rules

  pub cancel_request-Idle :
      Triple (Running links n) (cancel_request t p) (λ _ s. Idle links n s) (λ _ s. Idle links n s)
  unfolding cancel_request
  cancel_request-Idle =
      Triple-read
        λ b i _ a. rw (i, a) (Triple-guard-bind false state (λ q. cc) (λ _. cancel_session-Idle c))

  pub open_forgetting :
      (ms : ℕ)
      → Triple
          (Idle links n)
          (open_session t p forget_request ms)
          (λ _ s. Holds links true false (n + 1) s)
          (λ _ s. Idle links n s)
  unfolding forget_request wipe_request_storage
  open_forgetting ms =
      open_session-Holds c _ ms
        (Keeps-update _ (λ b. refl) (λ b. refl) (λ b. refl) (λ b. wiped-filled b) (λ b h. h))
        (Keeps-update _ (λ b. refl) (λ b. refl) (λ b. refl) (λ b. wiped-filled b) (λ b h. h))

  send_request-Holds :
      (service_id : ℕ) (id : List ℕ) (body : View)
      → Triple
          (Holds links true false (n + 1))
          (send_request t p service_id id body)
          (λ _ s. Holds links true false (n + 1) s)
          (λ _ s. Idle links n s)
  unfolding send_request
  send_request-Holds service_id id body =
      Triple-rescue
        (Leaving.triple (search (session_rules, query_effective_limits-Keeps, emit-Keeps)))
        (finish_session-Idle c false)

  end_answered-Idle :
      (r : Response)
      → Triple
          (Running links n)
          (end_answered t p r)
          (λ _ s. Idle links n s)
          (λ _ s. Idle links n s)
  unfolding end_answered
  end_answered-Idle r =
      Triple-bind (Triple-rescue (finish_session-Idle c true) wipe_decoded-Keeps.triple)
        λ _. Triple-pure r (λ s h. h)

  end_failed-Idle :
      (e : Error)
      → Triple (Running links n) (end_failed t p e) (λ _ s. Idle links n s) (λ _ s. Idle links n s)
  unfolding end_failed
  end_failed-Idle e =
      Triple-if (is_timeout e) _ _
        (λ _. Triple-ignore-bind cancel_request-Idle (Triple-raise e (λ s h. h)))
        λ _.
          Triple-ignore-bind (Triple-rescue (finish_session-Idle c false) wipe_decoded-Keeps.triple)
            (Triple-raise e (λ s h. h))

  module _ {fuel : ℕ} (enough : rate * 2 ^ 64 + 1 < fuel) where
    await_response-Idle :
        (codec : ErrorCodec) (service_id : ℕ)
        → Triple
            (Holds links true false (n + 1))
            (await_response t p codec fuel service_id)
            (λ _ s. Idle links n s)
            (λ _ s. Idle links n s)
    unfolding await_response
    await_response-Idle codec service_id =
        Triple-bind
          (Triple-update _ λ s k. record {
            initialized = k.initialized;
            opened = k.opened;
            active = refl;
            counted = k.counted;
            filled = k.filled;
            bounded = k.bounded;
          })
          λ _. Triple-read λ b _ _ _.
            Triple-bind (Triple-rescue (Keeps-guard _ state).triple (finish_session-Idle c false))
              λ _.
                Triple-bind
                  (Triple-update _ λ s k. record {
                    initialized = k.initialized;
                    opened = k.opened;
                    active = k.active;
                    counted = k.counted;
                    filled = k.filled;
                    bounded = k.bounded;
                  })
                  λ _.
                    Triple-settle (receive-Keeps c enough codec given).triple end_answered-Idle
                      end_failed-Idle

    -- From no session a request comes back to no session.
    pub broker_request-Idle :
        (codec : ErrorCodec) (service_id : ℕ) (supplied : Option (List ℕ)) (body : View) (ms : ℕ)
        (r : Pointer)
        → Triple
            (Idle links n)
            (broker_request t p codec fuel service_id supplied body ms r)
            (λ _ s. Idle links n s)
            (λ _ s. Idle links n s)
    unfolding broker_request
    broker_request-Idle codec service_id supplied body ms r =
        Triple-bind (Keeps-guard _ _).triple λ _. Triple-read λ b _ o a.
          Triple-bind (Keeps-guard _ _).triple λ _. Triple-bind (Keeps-guard _ _).triple λ _.
            Triple-bind (Keeps-guard _ _).triple λ _. Triple-bind (prepared-Keeps _).triple λ _.
              Triple-bind (choose_request_id-Keeps supplied).triple λ id.
                Triple-bind (Leaving.triple (search session_rules)) λ _.
                  Triple-bind (open_forgetting ms) λ _.
                    Triple-bind (send_request-Holds service_id id body)
                      λ _. await_response-Idle codec service_id

module _ {W : Type 0} {links : W → ℕ} {m : ℕ} where
  -- While a session runs, a request is refused.
  pub broker_request-Running :
      (t : Transport W) (p : Platform W) (codec : ErrorCodec) (fuel service_id : ℕ)
      (supplied : Option (List ℕ)) (body : View) (ms : ℕ) (r : Pointer)
      → Triple
          (Holds links true true m)
          (broker_request t p codec fuel service_id supplied body ms r)
          (λ _ s. ⊥)
          (λ _ s. Holds links true true m s)
  unfolding broker_request
  broker_request-Running t p codec fuel service_id supplied body ms r =
      Triple-bind (Keeps-guard _ _).triple λ _. Triple-read λ b _ o a.
        Triple-bind (Keeps-guard _ _).triple λ _.
          Triple-bind (Keeps-guard _ _).triple
            λ _. rw (o, a) (Triple-guard-bind true busy (λ _ s h. h) (λ q. cc))
