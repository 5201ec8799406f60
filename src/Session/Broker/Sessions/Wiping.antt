-- ===== src/Session/Broker/Sessions/Wiping.antt =====
-- What a request leaves in the storage of the broker.
use pbns.Common.{
  ℕ, ◌+◌, ◌*◌, ◌^◌, ◌<◌, ◌≡◌, ◌≢◌, ◌⊎◌, refl, sym, subst, ◌∙◌, true, false, Option, none, some,
  List, Error, arith, state, length, length-replicate, inl, inr, Status-cases,
}
use pbns.Common.Memory.{View, Pointer, given}
use pbns.Common.Actions.{Answer, returns, fails, unfinished}
use pbns.Common.Actions.Triples.{
  Contract, Triple-bind, Triple-pure, Triple-rescue, Triple-settle, Triple-guard-bind, Triple-guard,
  Triple-from, Contract-weaken, Leaves, Triple-map,
}
use pbns.Common.Actions.Keeps.{Leaving}
use pbns.Session.Broker.Types.{Transport, Platform, ErrorCodec, Live, Response, update, call_for}
use pbns.Session.Broker.Storage.{wipe_request_storage}
use pbns.Session.Broker.Link.{ended}
use pbns.Session.Broker.Bulk.{open_session, prepared, forget_request}
use pbns.Session.Broker.Request.{choose_request_id, send_request, await_response, broker_request}
use pbns.Session.Broker.Named.{Triple-the_broker}
use pbns.Session.Broker.Sessions.{
  Promises, Holds, Holds-world, Triple-update, session_rules, query_effective_limits-Keeps,
  emit-Keeps, begin_deadline-Keeps,
}
use pbns.Session.Broker.Padding.{IsPadded, broker_request-Padded}
use pbns.Session.Broker.Sessions.Steps.{receive-Keeps}
use pbns.Session.Broker.Sessions.Ends.{Idle, call_open}
use pbns.Session.Broker.Sessions.Closing.{broker_request_closes}
use pbns.Session.Broker.Sessions.Wiped.{
  IsZero, Scrubbed, Wiped, replicate-IsZero, finish_session-Wiped, end_answered-Wiped,
  end_failed-Wiped, forget-Wiped, reset-bytes,
}

-- No session, and nothing left of an earlier one.
abbrev Clean : {W : Type 0} → (W → ℕ) → ℕ → Live W → Type 0
Clean links n s = Idle links n s × Wiped s

module _ {W : Type 0} {links : W → ℕ} {n : ℕ} {t : Transport W} {p : Platform W} {ticks : W → ℕ}
    {rate : ℕ} (c : Promises t p links ticks rate) where
  random-Clean :
      Contract
        (Clean links n)
        (call_for p.random)
        (λ _ s. Clean links n s)
        (λ _ s. Wiped s)
        (λ _. Unit)
  unfolding call_for
  random-Clean = record {
    at = λ s k.
        let kept = Holds-world k.0 (c.random s.world ∙ k.0.counted) in
        let wiped : Wiped (record { broker = s.broker; world = (p.random s.world).2 }) = record {
          scrubbed = record {
            encoded = k.1.scrubbed.encoded;
            raw_scratch = k.1.scrubbed.raw_scratch;
            receive = k.1.scrubbed.receive;
          };
          decoded = k.1.decoded;
        } in
        elim (Status-cases (p.random s.world).0) [
          | inl e ↦ rw e (kept, wiped)
          | inr (x, e) ↦ rw e wiped
        ];
  }

  prepared-Clean :
      (id : List ℕ) {F : Error → Live W → Type 0}
      → Contract (Idle links n) (update (prepared id)) (λ _ s. Clean links n s) F (λ _. Unit)
  unfolding prepared wipe_request_storage
  prepared-Clean id = Triple-update _ λ s k. (
    record {
      initialized = k.initialized;
      opened = k.opened;
      active = k.active;
      counted = k.counted;
      filled = omega (arith, k.filled, length-replicate {A = ℕ} (length s.broker.receive.bytes) 0);
      bounded = k.bounded;
    },
    record {
      scrubbed = record {
        encoded =
            subst IsZero (sym (reset-bytes _))
              (replicate-IsZero (length s.broker.reader.storage.bytes));
        raw_scratch = replicate-IsZero _;
        receive = replicate-IsZero _;
      };
      decoded = replicate-IsZero _;
    },
  )

  choose_request_id-Clean :
      (supplied : Option (List ℕ))
      → Contract
          (Clean links n)
          (choose_request_id t p supplied)
          (λ _ s. Clean links n s)
          (λ _ s. Wiped s)
          (λ _. Unit)
  unfolding choose_request_id
  choose_request_id-Clean (some id) = Triple-pure id (λ s h. h)
  choose_request_id-Clean none = Triple-bind random-Clean λ id.
      Triple-bind (Triple-guard _ _ (λ _ s h. h.1) (λ _ s h. h)) λ _. Triple-pure id (λ s h. h)

  open_session-Wiped :
      (ms : ℕ)
      → Contract
          (Idle links n)
          (open_session t p forget_request ms)
          (λ _ s. Holds links true false (n + 1) s)
          (λ _ s. Wiped s)
          (λ _. Unit)
  unfolding open_session
  open_session-Wiped ms =
      Triple-bind
        (Triple-rescue
          (Contract-weaken (λ _ s h. h) (λ _ s h. h) (λ s h. tt) (begin_deadline-Keeps c ms).triple)
          (forget-Wiped (λ b. b)))
        λ _.
          Triple-bind
            (Triple-rescue (Contract-weaken (λ _ s h. h) (λ _ s h. h) (λ s h. tt) (call_open c))
              (forget-Wiped (λ b. record b { deadline_active = false })))
            λ _. Triple-update _ λ s k. record {
              initialized = k.initialized;
              opened = refl;
              active = k.active;
              counted = k.counted;
              filled = k.filled;
              bounded = k.bounded;
            }

module _ {W : Type 0} {links : W → ℕ} {m : ℕ} {t : Transport W} {p : Platform W} {ticks : W → ℕ}
    {rate : ℕ} (c : Promises t p links ticks rate) where
  send_request-Wiped :
      (service_id : ℕ) (id : List ℕ) (body : View)
      → Contract
          (Holds links true false m)
          (send_request t p service_id id body)
          (λ _ s. Holds links true false m s)
          (λ _ s. Wiped s)
          (λ _. Unit)
  unfolding send_request
  send_request-Wiped service_id id body =
      Triple-rescue
        (Contract-weaken (λ _ s h. h) (λ _ s h. tt) (λ s h. tt)
          (Leaving.triple {U = λ _. ⊥} {P = Holds links true false m}
            (search (session_rules, query_effective_limits-Keeps, emit-Keeps))))
        (finish_session-Wiped t p)

  module _ {fuel : ℕ} (enough : rate * 2 ^ 64 + 1 < fuel) where
    await_response-Wiped :
        (codec : ErrorCodec) (service_id : ℕ)
        → Contract
            (Holds links true false m)
            (await_response t p codec fuel service_id)
            (λ _ s. Scrubbed s)
            (λ _ s. Wiped s)
            (λ _. Unit)
    unfolding await_response
    await_response-Wiped codec service_id =
        Triple-bind {Q = λ _ s. Holds links true true m s}
          (Triple-update _ λ s k. record {
            initialized = k.initialized;
            opened = k.opened;
            active = refl;
            counted = k.counted;
            filled = k.filled;
            bounded = k.bounded;
          })
          λ _.
            Triple-bind (Triple-the_broker {Q = λ _ s. Holds links true true m s} (λ s h. h)) λ b.
              Triple-bind {Q = λ _ s. Holds links true true m s}
                (Triple-rescue {E = λ _. Unit} (Triple-guard _ state (λ _ s h. tt) (λ _ s h. h))
                  (finish_session-Wiped t p))
                λ _.
                  Triple-bind {Q = λ _ s. Holds links true true m s}
                    (Triple-update _ λ s k. record {
                      initialized = k.initialized;
                      opened = k.opened;
                      active = k.active;
                      counted = k.counted;
                      filled = k.filled;
                      bounded = k.bounded;
                    })
                    λ _.
                      Triple-settle
                        (Contract-weaken (λ _ s h. h) (λ _ s h. h) (λ s h. tt)
                          (receive-Keeps c enough codec given).triple)
                        (λ r. Triple-from (λ s h. tt) (end_answered-Wiped t p r))
                        (end_failed-Wiped t p)

-- What has become of the storage when a request that started from `s` has come to its end.
abbrev pub Cleared : {W : Type 0} → Live W → Answer Response → Live W → Type 0
Cleared s (returns r) u = Scrubbed u × IsPadded r.payload.bytes u.broker.decoded.bytes
Cleared s (fails e) u = (u ≡ s) ⊎ Wiped u
Cleared s unfinished u = ⊥

module _ {W : Type 0} where
  Leaves-Cleared :
      (start : Live W) (a : Answer Response) (u : Live W)
      → a ≢ unfinished
      → Leaves (λ _ s. Scrubbed s) (λ _ s. (s ≡ start) ⊎ Wiped s) (λ _. Unit) a u
      → Leaves
          (λ r s. IsPadded r.payload.bytes s.broker.decoded.bytes)
          (λ _ _. Unit {0})
          (λ _. Unit {0})
          a
          u
      → Cleared start a u
  Leaves-Cleared start (returns r) u ended h padded = (h, padded)
  Leaves-Cleared start (fails e) u ended h padded = h
  Leaves-Cleared start unfinished u ended h padded = absurd (ended refl)

module _ {W : Type 0} {links ticks : W → ℕ} {rate n fuel : ℕ} {t : Transport W} {p : Platform W}
    (c : Promises t p links ticks rate) (enough : rate * 2 ^ 64 + 1 < fuel) where
  request-Wiped :
      (codec : ErrorCodec) (service_id : ℕ) (supplied : Option (List ℕ)) (body : View) (ms : ℕ)
      (r : Pointer) (start : Live W)
      → Contract
          (λ s. (s ≡ start) × Idle links n s)
          (broker_request t p codec fuel service_id supplied body ms r)
          (λ _ s. Scrubbed s)
          (λ _ s. (s ≡ start) ⊎ Wiped s)
          (λ _. Unit)
  unfolding broker_request prepared
  request-Wiped codec service_id supplied body ms r start =
      Triple-guard-bind _ _ (λ _ s h. inl h.0)
        λ _.
          Triple-bind (Triple-the_broker {Q = λ _ s. (s ≡ start) × Idle links n s} (λ s h. h)) λ b.
            Triple-guard-bind _ _ (λ _ s h. inl h.0)
              λ _.
                Triple-guard-bind _ _ (λ _ s h. inl h.0)
                  λ _.
                    Triple-guard-bind _ _ (λ _ s h. inl h.0)
                      λ _.
                        Triple-bind {Q = λ _ s. Clean links n s}
                          (Contract-weaken {U' = λ _. Unit} (λ _ s h. h) (λ _ s h. inr h) (λ s h. h)
                            (Triple-from (λ s h. h.1) (prepared-Clean c _)))
                          λ _.
                            Triple-map (λ _ s h. h) (λ _ s h. inr h)
                              (Triple-bind (choose_request_id-Clean c supplied) λ id.
                                Triple-bind {Q = λ _ s. Idle links n s}
                                  (Triple-update _ λ s k. record {
                                    initialized = k.0.initialized;
                                    opened = k.0.opened;
                                    active = k.0.active;
                                    counted = k.0.counted;
                                    filled = k.0.filled;
                                    bounded = k.0.bounded;
                                  })
                                  λ _. Triple-bind (open_session-Wiped c ms) λ _.
                                    Triple-bind (send_request-Wiped c service_id id body)
                                      λ _. await_response-Wiped c enough codec service_id)

  -- A request on an initialized broker that has no session, with a world that keeps its promises and
  -- fuel for every tick of a deadline: if it returns a response, every byte of the encoded, the raw and
  -- the receive buffer is zero then, and the decoded buffer holds the payload of the response at its
  -- start and zeros behind it; if it fails, it has either changed nothing at all, or every byte of all
  -- four buffers is zero.
  pub broker_request_wipes :
      (codec : ErrorCodec) (service_id : ℕ) (supplied : Option (List ℕ)) (body : View) (ms : ℕ)
      (r : Pointer) (s : Live W)
      → Holds links false false n s
      → let (answer, u) = broker_request t p codec fuel service_id supplied body ms r s in
        Cleared s answer u
  broker_request_wipes codec service_id supplied body ms r s h =
      Leaves-Cleared s _ _
        (broker_request_closes c enough codec service_id supplied body ms r s h).0
        ((request-Wiped codec service_id supplied body ms r s).at s (refl, h))
        ((broker_request-Padded t p codec fuel service_id supplied body ms r).at s tt)
