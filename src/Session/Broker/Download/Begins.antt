-- ===== src/Session/Broker/Download/Begins.antt =====
-- A download that begins on a broker after any other calls has counted nothing yet.
use pbns.Common.{
  ℕ, ◌≡◌, refl, ◌∙◌, subst, ap, Bool, Option, none, some, List, [], ◌∷◌, arith, state, argument,
  service, busy, ok,
}
use pbns.Common.Memory.{View, Pointer}
use pbns.Common.Actions.{Answer, returns, fails, unfinished}
use pbns.Common.Actions.Triples.{
  Triple-bind, Triple-guard-bind, Triple-required-bind, Triple-guard, Gives, Gives-rescue, Leaves,
}
use pbns.Common.Actions.Keeps.{Leaving, given_up, keeps_rules}
use pbns.Session.Broker.Types.{Transport, Platform, ErrorCodec, BrokerStorage, Live}
use pbns.Session.Broker.Storage
use pbns.Session.Broker.Storage.{wipe_request_storage}
use pbns.Session.Broker.Bulk.{bulk_begin, prepared, forget_request}
use pbns.Session.Broker.Request.{request_with_id}
use pbns.Session.Broker.Named.{Triple-the_broker}
use pbns.Session.Broker.Sessions.{Triple-update}
use pbns.Session.Broker.Sessions.Calls.{
  Call, request_once, request_named, receive_more, begin_download, next_chunk, acknowledge,
  finish_download, begin_upload, next_part, finish_upload, cancel_it, reset_it, perform, run,
  after_call,
}
use pbns.Session.Broker.Progress.{
  Progress, progress_rules, open_session-Progress, bulk_limits-Progress, emit-Progress,
}
use pbns.Session.Broker.Fresh.{
  Fresh, bulk_ack-Fresh, bulk_finish-Fresh, upload_finish-Fresh, bulk_begin-Fresh,
  upload_begin-Fresh, reset-Fresh, cancel_request-Fresh, receive-Fresh, broker_request-Fresh,
  bulk_receive-Fresh, upload_send-Fresh,
}

some-injective : {A : Type 0} {a b : A} → some a ≡ some b → a ≡ b
some-injective {A} {a} h = ap (λ (o : Option A). elim o [ none ↦ a | some x ↦ x ]) h

module _ {W : Type 0} (t : Transport W) (p : Platform W) (codec : ErrorCodec) (fuel : ℕ) where
  with_id-Fresh :
      (service_id : ℕ) (id : Option (List ℕ)) (body : View) (ms : ℕ) (r : Pointer)
      → Leaving
          (λ _. Unit {0})
          (Progress Fresh)
          (request_with_id t p codec fuel service_id id body ms r)
  unfolding request_with_id
  with_id-Fresh service_id none body ms r = search keeps_rules
  with_id-Fresh service_id (some id) body ms r =
      broker_request-Fresh t p codec fuel service_id (some id) body ms r

  perform-Fresh : (x : Call) → Leaving (λ _. Unit {0}) (Progress Fresh) (perform t p codec fuel x)
  unfolding perform
  perform-Fresh (request_once service_id id body ms r) =
      search (keeps_rules, broker_request-Fresh t p codec fuel service_id id body ms r)
  perform-Fresh (request_named service_id id body ms r) =
      search (keeps_rules, with_id-Fresh service_id id body ms r)
  perform-Fresh (receive_more r) = search (keeps_rules, receive-Fresh t p codec fuel r)
  perform-Fresh (begin_download service_id id body size ms) =
      search (keeps_rules, bulk_begin-Fresh t p service_id id body size ms)
  perform-Fresh (next_chunk r) = search (keeps_rules, bulk_receive-Fresh t p codec fuel r)
  perform-Fresh (acknowledge next window ptr) =
      search (keeps_rules, bulk_ack-Fresh t p next window ptr)
  perform-Fresh finish_download = search (keeps_rules, bulk_finish-Fresh t p)
  perform-Fresh (begin_upload service_id id body ms) =
      search (keeps_rules, upload_begin-Fresh t p service_id id body ms)
  perform-Fresh (next_part v final r) =
      search (keeps_rules, upload_send-Fresh t p codec fuel v final r)
  perform-Fresh finish_upload = search (keeps_rules, upload_finish-Fresh t p)
  perform-Fresh cancel_it = search (keeps_rules, cancel_request-Fresh t p)
  perform-Fresh reset_it = search (keeps_rules, reset-Fresh t p)

  ended-Fresh :
      (a : Answer Unit) (v u : Live W) (rest : Option (Live W))
      → Leaves (λ _ s. Progress Fresh s) (λ _ s. Progress Fresh s) (λ _. Unit {0}) a v
      → after_call a rest ≡ some u
      → Progress Fresh v × (rest ≡ some u)
  ended-Fresh (returns x) v u rest k h = (k, h)
  ended-Fresh (fails e) v u rest k h = (k, h)
  ended-Fresh unfinished v u rest k h = absurd (ground (arith, h))

  run-Fresh :
      (calls : List Call) (s u : Live W)
      → Progress Fresh s
      → run t p codec fuel calls s ≡ some u
      → Progress Fresh u
  unfolding run
  run-Fresh [] s u k h = subst (λ x. Progress Fresh x) (some-injective h) k
  run-Fresh (x ∷ xs) s u k h =
      let (answer, v) = perform t p codec fuel x s in
      let (fresh, goes_on) = ended-Fresh answer v u _ ((perform-Fresh x).triple.at s k) h in
      run-Fresh xs v u fresh goes_on

init-Fresh :
    {W : Type 0} (t : Transport W) (p : Platform W) (storage : BrokerStorage) (w : W)
    → (Storage.init (some t) (some p) storage).0 ≡ ok
    → Progress Fresh (record { broker = (Storage.init (some t) (some p) storage).1; world = w })
unfolding Storage.init
init-Fresh t p storage w h = record { holds = λ q. ground (arith, h) }

abbrev Uncounted : Bool → ℕ → List ℕ → Type 0
Uncounted active received bytes = received ≡ 0

-- The size that was asked for, and nothing received of it.
pub record Begun (n : ℕ) {W : Type 0} (s : Live W) : Type 0 where
  pub exact : s.broker.bulk_exact_data_size ≡ n
  pub received : s.broker.bulk_received_data_size ≡ 0

module _ {W : Type 0} (t : Transport W) (p : Platform W) where
  bulk_begin-Begun :
      (service_id : ℕ) (id : Option (List ℕ)) (body : View) (n ms : ℕ)
      → Gives (Progress Fresh) (bulk_begin t p service_id id body n ms) (λ _ s. Begun n s)
  unfolding bulk_begin prepared wipe_request_storage
  bulk_begin-Begun service_id request_id body n ms =
      Triple-required-bind request_id (λ s h. tt)
        λ id.
          Triple-guard-bind _ argument (λ _ s h. tt)
            λ _.
              Triple-bind
                (Triple-the_broker {Q = λ b s. Progress Fresh s × (s.broker.active ≡ b.active)}
                  (λ s h. (h, refl)))
                λ b.
                  Triple-guard-bind _ state (λ _ s h. tt)
                    λ _.
                      Triple-guard-bind _ service (λ _ s h. tt)
                        λ _.
                          Triple-guard-bind _ busy (λ _ s h. tt)
                            λ free.
                              Triple-bind {Q = λ _ s. Progress Uncounted s}
                                (Triple-update _
                                  λ s h. record { holds = h.0.holds (h.1 ∙ ground (arith, free)) })
                                λ _. Triple-bind (open_session-Progress t p forget_request ms) λ _.
                                  Triple-bind
                                    (Gives-rescue _ (
                                      given_up (
                                        search
                                          (progress_rules, bulk_limits-Progress, emit-Progress))))
                                    λ _.
                                      Triple-bind {Q = λ _ s. Begun n s}
                                        (Triple-update _
                                          λ s h. record { exact = refl; received = h.holds })
                                        λ _.
                                          Triple-bind
                                            (Triple-the_broker {Q = λ _ s. Begun n s} (λ s h. h))
                                            λ c.
                                              Gives-rescue _
                                                (Triple-guard _ state (λ _ s h. tt) (λ _ s h. h))

  returned_Leaves :
      (n : ℕ) (x : Answer Unit × Live W) (v : Live W)
      → x ≡ (returns tt, v)
      → Leaves (λ _ s. Begun n s) (λ _ _. Unit {0}) (λ _. Unit {0}) x.0 x.1
      → Begun n v
  returned_Leaves n x v h k =
      subst
        (λ (y : Answer Unit × Live W).
          Leaves (λ _ s. Begun n s) (λ _ _. Unit {0}) (λ _. Unit {0}) y.0 y.1)
        h k

  pub run-Begun :
      (codec : ErrorCodec) (fuel : ℕ) (storage : BrokerStorage) (w : W) (calls : List Call)
      (u v : Live W) (service_id : ℕ) (id : Option (List ℕ)) (body : View) (n ms : ℕ)
      → (Storage.init (some t) (some p) storage).0 ≡ ok
      → run t p codec fuel calls
          (record { broker = (Storage.init (some t) (some p) storage).1; world = w })
        ≡ some u
      → bulk_begin t p service_id id body n ms u ≡ (returns tt, v)
      → Begun n v
  run-Begun codec fuel storage w calls u v service_id id body n ms set_up ran begun =
      let fresh = run-Fresh t p codec fuel calls _ u (init-Fresh t p storage w set_up) ran in
      returned_Leaves n _ v begun ((bulk_begin-Begun service_id id body n ms).at u fresh)
