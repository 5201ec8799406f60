-- ===== src/Session/Broker/Answered.antt =====
-- A response that has been received, and what the end of its session leaves of it.
use pbns.Common.{
  Error, drop, ℕ, ◌+◌, ◌≤◌, ◌≡◌, refl, true, some, List, length, take, copy_at, take-append_exact,
  Status, ok, err, Status-cases, inl, inr, ◌==◌, ==_iff, state, message_type, not-true, ltb, subst,
  Bool-cases,
}
use pbns.Common.Memory.{View, Pointer, given}
use pbns.Common.Actions.{settle}
use pbns.Common.Actions.Triples.{
  Contract, Triple-bind, Triple-settle, Triple-pure, Triple-raise, Contract-weaken, Gives,
  Gives-rescue, Gives-after, Triple-guard-bind, Triple-if, Triple-from, Triple-settle_status,
}
use pbns.Wire.Frame.{Frame, response, error}
use pbns.Session.Stream
use pbns.Session.Stream.{Stream}
use pbns.Session.Stream.Invariant.{Step, accept-Step}
use pbns.Session.Broker.Types.{
  Transport, Platform, ErrorCodec, Broker, Live, Response, the_broker, update, call,
}
use pbns.Session.Broker.Receive.{accept_frame, deliver, take_response, receive}
use pbns.Session.Broker.Link.{finish_session, ended}
use pbns.Session.Broker.Storage.{wipe_request_storage}
use pbns.Session.Broker.Request.{wipe_decoded, end_answered, end_failed, is_timeout}
use pbns.Session.Broker.RemoteError.Leaving.{decode_remote_error-raises}
use pbns.Session.Broker.Sessions.{Triple-update}
use pbns.Session.Broker.Named.{Triple-the_broker}
use pbns.Session.Broker.Reading.{Same, Same-refl, decode_frame-Stays, read_record-Stays}

-- A response that the stream `st` has accepted, in the storage of the decoded payload.
pub record Answered (st : Stream) (r : Response) {W : Type 0} (s : Live W) : Type 0 where
  pub type : r.frame.type ≡ response
  pub service : r.frame.service ≡ st.service
  pub request_id : r.frame.request_id ≡ st.request_id
  pub flags : r.frame.flags ≡ 0
  pub sequence : r.frame.sequence ≡ st.next_sequence
  pub limit : st.total_bytes + length r.payload.bytes ≤ st.byte_limit
  pub ptr : r.payload.ptr ≡ s.broker.decoded.ptr
  pub len : s.broker.decoded.len ≡ length r.payload.bytes
  pub stored : take (length r.payload.bytes) s.broker.decoded.bytes ≡ r.payload.bytes

take-copy_at : (xs ys : List ℕ) → take (length ys) (copy_at xs 0 ys) ≡ ys
take-copy_at xs ys = take-append_exact ys (drop (0 + length ys) xs) (length ys) refl

-- It depends on the decoded payload alone.
Answered-decoded :
    {st : Stream} {r : Response} {W : Type 0} {s u : Live W}
    → Answered st r s
    → u.broker.decoded ≡ s.broker.decoded
    → Answered st r u
Answered-decoded k e = record {
  type = k.type;
  service = k.service;
  request_id = k.request_id;
  flags = k.flags;
  sequence = k.sequence;
  limit = k.limit;
  ptr = rw e k.ptr;
  len = rw e k.len;
  stored = rw e k.stored;
}

module _ {W : Type 0} where
  accept_frame-Step :
      (st : Stream) (f : Frame) (v : View)
      → Gives
          (λ (s : Live W). s.broker.stream ≡ st)
          (accept_frame f v)
          (λ _ s. Step st f v.bytes s.broker.stream)
  unfolding accept_frame the_broker update settle
  accept_frame-Step st f v = record {
    at = λ s h. elim (Status-cases (Stream.accept s.broker.stream (some f) v).0) [
      | inl e ↦ rw e (
          subst (λ x. Step x f v.bytes (Stream.accept s.broker.stream (some f) v).1) h
            (accept-Step s.broker.stream f v e))
      | inr (x, e) ↦ rw e tt
    ];
  }

  deliver-Answered :
      (st u : Stream) (f : Frame) (v : View)
      → Step st f v.bytes u
      → f.type ≡ response
      → Gives (λ (s : Live W). Unit) (deliver f v) (λ r s. Answered st r s)
  unfolding deliver the_broker update settle
  deliver-Answered st u f v k is = record {
    at = λ s h.
        let b = s.broker in
        elim (Bool-cases (ltb (length b.decoded.bytes) (length v.bytes))) [
          | inl long ↦ rw long tt
          | inr fits ↦ rw fits (record {
            type = is;
            service = k.service;
            request_id = k.request_id;
            flags = k.flags;
            sequence = k.sequence;
            limit = k.bytes_room;
            ptr = refl;
            len = refl;
            stored = take-copy_at b.decoded.bytes v.bytes;
          })
        ];
  }

  -- A response, of the frames that the stream accepts.
  take_response-Answered :
      (codec : ErrorCodec) (b : Broker) (r : View)
      → Gives (λ (s : Live W). Same b s) (take_response codec r) (λ a s. Answered b.stream a s)
  unfolding take_response
  take_response-Answered codec b r =
      Triple-bind
        (Contract-weaken (λ _ s h. h) (λ _ s h. tt) (λ s h. tt)
          (decode_frame-Stays {U = λ _. Unit} r).triple)
        λ x.
          Triple-bind
            (Triple-from (λ s (h : Same b s). h.stream) (accept_frame-Step b.stream x.0 x.1))
            λ _. Triple-bind (Triple-the_broker (λ s h. h)) λ c.
              Triple-guard-bind _ state (λ _ s h. tt)
                λ _.
                  Triple-if (x.0.type == error) _ _
                    (λ _.
                      Contract-weaken (λ a s h. absurd h) (λ _ s h. tt) (λ s h. h)
                        (decode_remote_error-raises (λ d s k. k) codec x.1.bytes c.service))
                    λ _.
                      Triple-guard-bind _ message_type (λ _ s h. tt)
                        λ is. record {
                          at = λ s k.
                              (deliver-Answered b.stream s.broker.stream x.0 x.1 k
                                  ((==_iff x.0.type response).0 (not-true _ is))).at
                                s tt;
                        }

  receive-Answered :
      (t : Transport W) (p : Platform W) (codec : ErrorCodec) (fuel : ℕ) (ptr : Pointer)
      (st : Stream)
      → Gives
          (λ (s : Live W). s.broker.stream ≡ st)
          (receive t p codec fuel ptr)
          (λ a s. Answered st a s)
  unfolding receive
  receive-Answered t p codec fuel ptr st =
      Triple-guard-bind _ _ (λ _ s h. tt)
        λ _. Triple-bind (Triple-the_broker {Q = λ _ s. s.broker.stream ≡ st} (λ s h. h)) λ c.
          Triple-guard-bind _ state (λ _ s h. tt)
            λ _. record {
              at = λ s h.
                  let reading =
                    Contract-weaken {U = λ _. Unit} (λ _ u k. k) (λ _ u k. tt) (λ u k. tt)
                      (read_record-Stays t p fuel).triple in
                  let round = Triple-bind reading (λ r. take_response-Answered codec s.broker r) in
                  let answered =
                    Contract-weaken {U = λ _. Unit} (λ a u k. subst (λ x. Answered x a u) h k)
                      (λ _ u k. tt) (λ u k. tt) round in
                  answered.at s (Same-refl s);
            }

  call-Answered :
      (st : Stream) (r : Response) (f : W → Status × W)
      → Contract
          (λ s. Answered st r s)
          (call f)
          (λ _ s. Answered st r s)
          (λ _ s. Answered st r s)
          (λ _. Unit)
  unfolding call
  call-Answered st r f = record {
    at = λ s k. elim (Status-cases (f s.world).0) [
      | inl e ↦ rw e (Answered-decoded k refl)
      | inr (x, e) ↦ rw e (Answered-decoded k refl)
    ];
  }

  finish_session-Answered :
      (t : Transport W) (p : Platform W) (st : Stream) (r : Response)
      → Gives (λ (s : Live W). Answered st r s) (finish_session t p true) (λ _ s. Answered st r s)
  unfolding finish_session wipe_request_storage
  finish_session-Answered t p st r =
      Triple-bind (Triple-the_broker {Q = λ _ s. Answered st r s} (λ s h. h)) λ b.
        Triple-bind {Q = λ _ s. Answered st r s}
          (Triple-settle
            (Triple-if b.opened _ _ (λ _. call-Answered st r t.close_link)
              (λ _. Triple-pure tt (λ s h. h)))
            (λ _. Triple-pure ok (λ s h. h)) (λ e. Triple-pure (err e) (λ s h. h)))
          λ closed.
            Triple-bind
              (Triple-update {Q = λ _ s. Answered st r s} (ended true)
                (λ s k. Answered-decoded k refl))
              λ _. Triple-settle_status closed (λ _ s h. tt) (λ s h. h)

  -- A session that is ended with what was decoded kept.
  end_Answered-Answered :
      (t : Transport W) (p : Platform W) (st : Stream) (r : Response)
      → Gives (λ (s : Live W). Answered st r s) (end_answered t p r) (λ a s. Answered st a s)
  unfolding end_answered
  end_Answered-Answered t p st r =
      Triple-bind (Gives-rescue (update wipe_decoded) (finish_session-Answered t p st r))
        λ _. Triple-pure r (λ s h. h)

  end_failed-gives_none :
      {Q : Response → Live W → Type 0} (t : Transport W) (p : Platform W) (e : Error)
      → Gives (λ (s : Live W). Unit) (end_failed t p e) Q
  unfolding end_failed
  end_failed-gives_none t p e =
      Triple-if (is_timeout e) _ _ (λ _. Gives-after _ (λ _. Triple-raise e (λ s h. h)))
        (λ _. Gives-after _ (λ _. Triple-raise e (λ s h. h)))

  pub Answered-Answered :
      (t : Transport W) (p : Platform W) (codec : ErrorCodec) (fuel : ℕ) (st : Stream)
      → Gives
          (λ (s : Live W). s.broker.stream ≡ st)
          (settle (receive t p codec fuel given) (end_answered t p) (end_failed t p))
          (λ a s. Answered st a s)
  Answered-Answered t p codec fuel st =
      Triple-settle (receive-Answered t p codec fuel given st) (end_Answered-Answered t p st)
        (end_failed-gives_none t p)
