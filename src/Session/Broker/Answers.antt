-- ===== src/Session/Broker/Answers.antt =====
-- What a request that returns has been answered with.
use pbns.Common.{
  or-false, entropy, ℕ, ◌≡◌, refl, ◌∙◌, ap, true, not, Option, none, some, List, length, take,
  arith, state, not-true, subst,
}
use pbns.Common.Memory.{View, Pointer}
use pbns.Common.Actions.{Answer, returns}
use pbns.Common.Actions.Triples.{
  Triple-bind, Triple-pure, Contract-weaken, Leaves, Gives, Gives-rescue, Gives-after,
  Triple-guard-bind, Triple-guard,
}
use pbns.Common.Actions.Keeps.{Leaving}
use pbns.Wire.Frame.{response, service_is_valid}
use pbns.Session.Stream
use pbns.Session.Stream.{Stream}
use pbns.Session.Broker.Types.{Transport, Platform, ErrorCodec, Broker, Live, Response}
use pbns.Session.Broker.Storage.{request_id_is_nonzero}
use pbns.Session.Broker.Bulk.{open_session, forget_request}
use pbns.Session.Broker.Request.{
  await_response, broker_request, send_request, choose_request_id, nonzero_or_absent,
}
use pbns.Session.Broker.Sessions.{Triple-update}
use pbns.Session.Broker.Named.{
  Named, Named-call, named_rules, Triple-the_broker, query_effective_limits-Named,
  begin_deadline-Named, emit-Named,
}
use pbns.Session.Broker.Answered.{Answered, Answered-Answered}

-- The id of a request: the one that was supplied, or a random one, and not zero.
abbrev Chosen : Option (List ℕ) → List ℕ → Type 0
Chosen supplied id = (request_id_is_nonzero id ≡ true) × ((i : List ℕ) → supplied ≡ some i → id ≡ i)

-- The stream of a request that was sent.
abbrev Started : ℕ → List ℕ → {W : Type 0} → Live W → Type 0
Started service_id id s = (limit : ℕ) × (s.broker.stream ≡ Stream.init service_id id limit)

module _ {W : Type 0} where
  await_response-Answered :
      (t : Transport W) (p : Platform W) (codec : ErrorCodec) (fuel service_id : ℕ) (id : List ℕ)
      → Gives
          (λ (s : Live W). Named id s)
          (await_response t p codec fuel service_id)
          (λ a s. (limit : ℕ) × Answered (Stream.init service_id id limit) a s)
  unfolding await_response
  await_response-Answered t p codec fuel service_id id =
      Triple-bind
        (Triple-update {Q = λ _ s. Started service_id id s} _ λ s k. (
          s.broker.limits.control_payload_max,
          ap (λ (i : List ℕ). Stream.init service_id i s.broker.limits.control_payload_max) k.named,
        ))
        λ _. Triple-bind (Triple-the_broker {Q = λ _ s. Started service_id id s} (λ s h. h)) λ c.
          Triple-bind (Gives-rescue _ (Triple-guard _ state (λ _ s h. tt) (λ _ s h. h))) λ _.
            Triple-bind (Triple-update {Q = λ _ s. Started service_id id s} _ (λ s h. h)) λ _.
              record {
                at = λ s h.
                    let answered =
                      Contract-weaken {U = λ _. Unit} (λ a u k. (h.0, k)) (λ _ u k. tt) (λ u k. tt)
                        (Answered-Answered t p codec fuel (Stream.init service_id id h.0)) in
                    answered.at s h.1;
              }

  send_request-Named :
      (t : Transport W) (p : Platform W) (service_id : ℕ) (id i : List ℕ) (body : View)
      → Gives (λ (s : Live W). Named id s) (send_request t p service_id i body) (λ _ s. Named id s)
  unfolding send_request
  send_request-Named t p service_id id i body = Gives-rescue _ (
      Contract-weaken {U = λ _. Unit} (λ _ s h. h) (λ _ s h. tt) (λ s h. tt)
        (Leaving.triple {U = λ _. Unit}
          (search (named_rules, query_effective_limits-Named, emit-Named))))

  open_session-Named :
      (t : Transport W) (p : Platform W) (undo : Broker → Broker) (ms : ℕ) (id : List ℕ)
      → Gives (λ (s : Live W). Named id s) (open_session t p undo ms) (λ _ s. Named id s)
  unfolding open_session
  open_session-Named t p undo ms id =
      Triple-bind
        (Gives-rescue _ (
          Contract-weaken {U = λ _. Unit} (λ _ s h. h) (λ _ s h. tt) (λ s h. tt)
            (begin_deadline-Named {U = λ _. Unit} t p ms).triple))
        λ _.
          Triple-bind
            (Gives-rescue _ (
              Contract-weaken {U = λ _. Unit} (λ _ s h. h) (λ _ s h. tt) (λ s h. tt)
                (Named-call {U = λ _. Unit} t.open_link).triple))
            λ _. Triple-update _ λ s k. record { named = k.named }

  choose-Chosen :
      (t : Transport W) (p : Platform W) (supplied : Option (List ℕ))
      → nonzero_or_absent supplied ≡ true
      → Gives (λ (s : Live W). Unit) (choose_request_id t p supplied) (λ id _. Chosen supplied id)
  unfolding choose_request_id
  choose-Chosen t p (some id) h = Triple-pure id (λ s k. (h, λ i e. ground arith))
  choose-Chosen t p none h = Gives-after _ λ id.
      Triple-guard-bind _ entropy (λ _ s k. tt)
        λ q. Triple-pure id (λ s k. (not-true _ q, λ i e. ground arith))

  request-Answered :
      (t : Transport W) (p : Platform W) (codec : ErrorCodec) (fuel service_id : ℕ)
      (supplied : Option (List ℕ)) (body : View) (ms : ℕ) (ptr : Pointer)
      → Gives
          (λ (s : Live W). Unit)
          (broker_request t p codec fuel service_id supplied body ms ptr)
          (λ a s.
            (service_is_valid service_id ≡ true)
            × (id : List ℕ) × Chosen supplied id
            × (limit : ℕ) × Answered (Stream.init service_id id limit) a s)
  unfolding broker_request
  request-Answered t p codec fuel service_id supplied body ms ptr =
      Triple-guard-bind _ _ (λ _ s h. tt)
        λ usable. Gives-after _ λ b.
          Triple-guard-bind _ _ (λ _ s h. tt)
            λ _.
              Triple-guard-bind _ _ (λ _ s h. tt)
                λ served.
                  Triple-guard-bind _ _ (λ _ s h. tt)
                    λ _. Gives-after _ λ _.
                      Triple-bind
                        (choose-Chosen t p supplied (
                          not-true (nonzero_or_absent supplied)
                            (or-false _ (not (nonzero_or_absent supplied)) usable).1))
                        λ id. record {
                          at = λ s chosen.
                              let rest =
                                Triple-bind {P = λ _. Unit {0}}
                                  (Triple-update {Q = λ _ s. Named id s} _
                                    (λ s k. record { named = refl }))
                                  λ _.
                                    Triple-bind (open_session-Named t p forget_request ms id) λ _.
                                      Triple-bind (send_request-Named t p service_id id id body)
                                        λ _.
                                          Contract-weaken {U = λ _. Unit}
                                            (λ a u k. (not-true _ served, id, chosen, k.0, k.1))
                                            (λ _ u k. tt) (λ u k. tt)
                                            (await_response-Answered t p codec fuel service_id
                                              id) in
                              rest.at s tt;
                        }

  -- A request that returns OK has been answered: with a frame that is a response of the service that
  -- was asked, the first of its stream, with no flags, and with the request id of the request, which
  -- is the one that the caller supplied, if it did, and never zero. The payload stands at the start
  -- of the storage of the decoded payload when the session is over.
  pub broker_request_answers :
      (t : Transport W) (p : Platform W) (codec : ErrorCodec) (fuel service_id : ℕ)
      (supplied : Option (List ℕ)) (body : View) (ms : ℕ) (ptr : Pointer) (s u : Live W)
      (r : Response)
      → broker_request t p codec fuel service_id supplied body ms ptr s ≡ (returns r, u)
      → (r.frame.type ≡ response)
        × (r.frame.service ≡ service_id)
        × (r.frame.flags ≡ 0)
        × (r.frame.sequence ≡ 0)
        × ((id : List ℕ) → supplied ≡ some id → r.frame.request_id ≡ id)
        × (request_id_is_nonzero r.frame.request_id ≡ true)
        × (r.payload.ptr ≡ u.broker.decoded.ptr)
        × (take (length r.payload.bytes) u.broker.decoded.bytes ≡ r.payload.bytes)
  unfolding Stream.init
  broker_request_answers t p codec fuel service_id supplied body ms ptr s u r h =
      let all = request-Answered t p codec fuel service_id supplied body ms ptr in
      let (served, id, chosen, l, k) =
        subst
          (λ (x : Answer Response × Live W).
            Leaves
              (λ a v.
                (service_is_valid service_id ≡ true)
                × (id : List ℕ) × Chosen supplied id
                × (limit : ℕ) × Answered (Stream.init service_id id limit) a v)
              (λ _ _. Unit {0}) (λ _. Unit {0}) x.0 x.1)
          h (all.at s tt) in
      let same_id : r.frame.request_id ≡ id = k.request_id ∙ rw served refl in
      (
        k.type,
        k.service ∙ rw served refl,
        k.flags,
        k.sequence ∙ rw served refl,
        λ i e. same_id ∙ chosen.1 i e,
        rw same_id chosen.0,
        k.ptr,
        k.stored,
      )
