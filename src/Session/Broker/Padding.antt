-- ===== src/Session/Broker/Padding.antt =====
-- The decoded buffer behind the payload of a response.
use pbns.Common.{
  ℕ, zero, suc, ◌+◌, ◌-◌, ◌≡◌, refl, sym, subst, ap, true, Bool, Option, List, length, take, drop,
  copy_at, replicate, arith, state, message_type, argument, inl, inr, ◌==◌, ltb, Bool-cases,
  take-append_exact, drop-append_exact, ◌∙◌,
}
use pbns.Common.Memory.{View, Pointer, given}
use pbns.Common.Actions.{settle}
use pbns.Common.Actions.Triples.{
  Triple-bind, Triple-pure, Triple-raise, Triple-settle, Triple-guard-bind, Triple-guard,
  Triple-from, Triple-if, Triple-change, Gives, Gives-after, Gives-rescue, Contract-weaken,
}
use pbns.Common.Actions.Keeps.{Leaving, given_up}
use pbns.Wire.Frame.{Frame, error}
use pbns.Session.Broker.Types.{Transport, Platform, ErrorCodec, Broker, Live, the_broker, update}
use pbns.Session.Broker.Storage.{wipe_request_storage}
use pbns.Session.Broker.Link.{finish_session}
use pbns.Session.Broker.Receive.{deliver, take_response, receive}
use pbns.Session.Broker.Bulk.{prepared, forget_request}
use pbns.Session.Broker.Request.{
  wipe_decoded, send_request, end_answered, end_failed, is_timeout, await_response, broker_request,
}
use pbns.Session.Broker.RemoteError.Leaving.{decode_remote_error-raises}
use pbns.Session.Broker.Named.{Triple-the_broker}
use pbns.Session.Broker.Sessions.{Triple-update}
use pbns.Session.Broker.Sessions.Wiped.{IsZero, replicate-IsZero}
use pbns.Session.Broker.Progress.{
  Progress, progress_rules, decode_frame-Progress, accept_frame-Progress, open_session-Progress,
  query_effective_limits-Progress, emit-Progress, choose_request_id-Progress, read_record-Progress,
}

-- The payload is at the start of the bytes, and zeros are all that is behind it.
abbrev pub IsPadded : List ℕ → List ℕ → Type 0
IsPadded payload bytes =
    (take (length payload) bytes ≡ payload) × IsZero (drop (length payload) bytes)

-- What is said of the decoded bytes alone.
abbrev DecodedIs : (List ℕ → Type 0) → Bool → ℕ → List ℕ → Type 0
DecodedIs D active received bytes = D bytes

drop-replicate : (k n : ℕ) → drop k (replicate {A = ℕ} n 0) ≡ replicate (n - k) 0
drop-replicate zero n = let e : n - 0 ≡ n = omega arith in rw e refl
drop-replicate (suc k) zero = let e : 0 - suc k ≡ 0 = omega arith in rw e refl
drop-replicate (suc k) (suc n) =
    let e : suc n - suc k ≡ n - k = omega arith in
    drop-replicate k n ∙ ap (λ m. replicate m 0) (sym e)

drop-IsZero : (k : ℕ) (xs : List ℕ) → IsZero xs → IsZero (drop k xs)
drop-IsZero k xs h =
    subst (λ ys. IsZero (drop k ys)) (sym h)
      (subst IsZero (sym (drop-replicate k (length xs))) (replicate-IsZero (length xs - k)))

-- A payload that is copied over zeros.
copy_at-IsPadded : (xs ys : List ℕ) → IsZero xs → IsPadded ys (copy_at xs 0 ys)
copy_at-IsPadded xs ys h = (
  take-append_exact ys (drop (0 + length ys) xs) (length ys) refl,
  let e : drop (length ys) (copy_at xs 0 ys) ≡ drop (0 + length ys) xs =
        drop-append_exact ys (drop (0 + length ys) xs) (length ys) refl in
      subst IsZero (sym e) (drop-IsZero (0 + length ys) xs h),
)

module _ {W : Type 0} {D : List ℕ → Type 0} {U : Live W → Type 0} where
  Decoded-update :
      (f : Broker → Broker)
      → ((c : Broker) → (f c).decoded.bytes ≡ c.decoded.bytes)
      → Leaving U (Progress (DecodedIs D)) (update f)
  unfolding update
  Decoded-update f h = record {
    triple = Triple-change _ λ s k. record { holds = subst D (sym (h s.broker)) k.holds };
  }

module _ {W : Type 0} where
  deliver-Padded :
      (f : Frame) (v : View)
      → Gives
          (λ (s : Live W). Progress (DecodedIs IsZero) s)
          (deliver f v)
          (λ r s. Progress (DecodedIs (IsPadded r.payload.bytes)) s)
  unfolding deliver the_broker update settle
  deliver-Padded f v = record {
    at = λ s k.
        let b = s.broker in
        elim (Bool-cases (ltb (length b.decoded.bytes) (length v.bytes))) [
          | inl long ↦ rw long tt
          | inr fits ↦ rw fits (record { holds = copy_at-IsPadded b.decoded.bytes v.bytes k.holds })
        ];
  }

  take_response-Padded :
      (codec : ErrorCodec) (r : View)
      → Gives
          (λ (s : Live W). Progress (DecodedIs IsZero) s)
          (take_response codec r)
          (λ a s. Progress (DecodedIs (IsPadded a.payload.bytes)) s)
  unfolding take_response
  take_response-Padded codec r = Triple-bind (given_up (decode_frame-Progress r)) λ x.
      Triple-bind (given_up (accept_frame-Progress x.0 x.1)) λ _.
        Triple-bind (Triple-the_broker {Q = λ _ s. Progress (DecodedIs IsZero) s} (λ s h. h)) λ c.
          Triple-guard-bind _ state (λ _ s h. tt)
            λ _.
              Triple-if (x.0.type == error) _ _
                (λ _.
                  Triple-from (λ s h. tt)
                    (Contract-weaken (λ a s h. absurd h) (λ _ s h. tt) (λ s h. h)
                      (decode_remote_error-raises {P = λ _. Unit {0}} (λ d s k. tt) codec x.1.bytes
                        c.service)))
                λ _. Triple-guard-bind _ message_type (λ _ s h. tt) λ _. deliver-Padded x.0 x.1

  receive-Padded :
      (t : Transport W) (p : Platform W) (codec : ErrorCodec) (fuel : ℕ) (ptr : Pointer)
      → Gives
          (λ (s : Live W). Progress (DecodedIs IsZero) s)
          (receive t p codec fuel ptr)
          (λ a s. Progress (DecodedIs (IsPadded a.payload.bytes)) s)
  unfolding receive
  receive-Padded t p codec fuel ptr =
      Triple-guard-bind _ argument (λ _ s h. tt)
        λ _.
          Triple-bind (Triple-the_broker {Q = λ _ s. Progress (DecodedIs IsZero) s} (λ s h. h)) λ c.
            Triple-guard-bind _ state (λ _ s h. tt)
              λ _.
                Triple-bind (given_up (read_record-Progress t p fuel))
                  λ r. take_response-Padded codec r

  finish_session-Decoded :
      {D : List ℕ → Type 0} (t : Transport W) (p : Platform W)
      → Leaving (λ _. Unit {0}) (Progress (DecodedIs D)) (finish_session t p true)
  unfolding finish_session wipe_request_storage
  finish_session-Decoded t p = search (progress_rules, Decoded-update) depth 10

  await_response-Padded :
      (t : Transport W) (p : Platform W) (codec : ErrorCodec) (fuel service_id : ℕ)
      → Gives
          (λ (s : Live W). Progress (DecodedIs IsZero) s)
          (await_response t p codec fuel service_id)
          (λ a s. Progress (DecodedIs (IsPadded a.payload.bytes)) s)
  unfolding await_response end_answered end_failed
  await_response-Padded t p codec fuel service_id =
      Triple-bind (given_up (Decoded-update _ (λ c. refl))) λ _.
        Triple-bind (Triple-the_broker {Q = λ _ s. Progress (DecodedIs IsZero) s} (λ s h. h)) λ c.
          Triple-bind (Gives-rescue _ (Triple-guard _ state (λ _ s h. tt) (λ _ s h. h))) λ _.
            Triple-bind (given_up (Decoded-update _ (λ c. refl))) λ _.
              Triple-settle (receive-Padded t p codec fuel given)
                (λ r.
                  Triple-bind
                    (Gives-rescue (update wipe_decoded) (given_up (finish_session-Decoded t p)))
                    λ _. Triple-pure r (λ s h. h))
                λ e.
                  Triple-if (is_timeout e) _ _ (λ _. Gives-after _ (λ _. Triple-raise e (λ s h. h)))
                    (λ _. Gives-after _ (λ _. Triple-raise e (λ s h. h)))

  send_request-Decoded :
      (t : Transport W) (p : Platform W) (service_id : ℕ) (id : List ℕ) (body : View)
      → Gives
          (λ (s : Live W). Progress (DecodedIs IsZero) s)
          (send_request t p service_id id body)
          (λ _ s. Progress (DecodedIs IsZero) s)
  unfolding send_request
  send_request-Decoded t p service_id id body =
      Gives-rescue _
        (given_up (search (progress_rules, query_effective_limits-Progress, emit-Progress)))

  pub broker_request-Padded :
      (t : Transport W) (p : Platform W) (codec : ErrorCodec) (fuel service_id : ℕ)
      (supplied : Option (List ℕ)) (body : View) (ms : ℕ) (ptr : Pointer)
      → Gives
          (λ (s : Live W). Unit)
          (broker_request t p codec fuel service_id supplied body ms ptr)
          (λ r s. IsPadded r.payload.bytes s.broker.decoded.bytes)
  unfolding broker_request prepared wipe_request_storage
  broker_request-Padded t p codec fuel service_id supplied body ms ptr =
      Triple-guard-bind _ _ (λ _ s h. tt)
        λ _. Gives-after _ λ b.
          Triple-guard-bind _ _ (λ _ s h. tt)
            λ _.
              Triple-guard-bind _ _ (λ _ s h. tt)
                λ _.
                  Triple-guard-bind _ _ (λ _ s h. tt)
                    λ _.
                      Triple-bind {Q = λ _ s. Progress (DecodedIs IsZero) s}
                        (Triple-update _ λ s h. record { holds = replicate-IsZero _ })
                        λ _. Triple-bind (given_up (choose_request_id-Progress t p supplied)) λ id.
                          Triple-bind (given_up (Decoded-update _ (λ c. refl))) λ _.
                            Triple-bind (open_session-Progress t p forget_request ms) λ _.
                              Triple-bind (send_request-Decoded t p service_id id body) λ _.
                                Contract-weaken (λ r s h. h.holds) (λ _ s h. h) (λ s h. h)
                                  (await_response-Padded t p codec fuel service_id)
