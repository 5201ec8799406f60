-- ===== src/Session/Broker/Progress.antt =====
-- What depends only on whether a session is active, on what it has received of a download and on the
-- bytes of the decoded buffer: the steps that leave all three.
use pbns.Common.{
  ℕ, zero, suc, ◌≡◌, refl, Bool, Option, none, some, List, Status, Status-cases, inl, inr, arith,
}
use pbns.Common.Memory.{View}
use pbns.Common.Actions.{Action, pure}
use pbns.Common.Actions.Triples.{Triple-gets, Triple-change, Triple-bind, Gives, Gives-rescue}
use pbns.Common.Actions.Keeps.{Leaving, keeps_rules, Keeps-settle, Keeps-out_of_fuel, given_up}
use pbns.Wire.Frame.{Frame, Decoded}
use pbns.Session.Broker.Types.{
  Transport, Platform, Broker, Live, the_broker, update, call, call_for,
}
use pbns.Session.Broker.Link.{
  timeout_of, query_effective_limits, begin_deadline, remaining_timeout, encode_frame, send_encoded,
  emit, emit_cancel, transport_cancel,
}
use pbns.Session.Broker.Bulk.{send_ack, open_session, bulk_limits}
use pbns.Session.Broker.Request.{choose_request_id}
use pbns.Session.Broker.Receive.{
  push_unread, decoded_frame, decode_frame, accept_frame, call_receive, refill, read_step,
  read_record,
}

pub record Progress (R : Bool → ℕ → List ℕ → Type 0) {W : Type 0} (s : Live W) : Type 0 where
  pub holds : R s.broker.active s.broker.bulk_received_data_size s.broker.decoded.bytes

module _ {W : Type 0} {R : Bool → ℕ → List ℕ → Type 0} where
  Progress-world :
      {b : Broker} {w w' : W}
      → Progress R (record { broker = b; world = w })
      → Progress R (record { broker = b; world = w' })
  Progress-world k = record { holds = k.holds }

module _ {W : Type 0} {U : Live W → Type 0} {R : Bool → ℕ → List ℕ → Type 0} where
  pub Progress-the_broker : Leaving U (Progress R) (the_broker)
  unfolding the_broker
  Progress-the_broker = record { triple = Triple-gets _ (λ s h. h) }

  pub Progress-update :
      (f : Broker → Broker)
      → ((c : Broker) → (f c).active ≡ c.active)
      → ((c : Broker) → (f c).bulk_received_data_size ≡ c.bulk_received_data_size)
      → ((c : Broker) → (f c).decoded.bytes ≡ c.decoded.bytes)
      → Leaving U (Progress R) (update f)
  unfolding update
  Progress-update f ha hr hd = record {
    triple =
        Triple-change _
          λ s k. record { holds = rw (ha s.broker, hr s.broker, hd s.broker) k.holds };
  }

  pub Progress-call : (f : W → Status × W) → Leaving U (Progress R) (call f)
  unfolding call
  Progress-call f = record {
    triple = record {
      at = λ s k. elim (Status-cases (f s.world).0) [
        | inl e ↦ rw e (Progress-world k)
        | inr (x, e) ↦ rw e (Progress-world k)
      ];
    };
  }

  pub Progress-call_for :
      {A : Type 0} (f : W → Status × A × W) → Leaving U (Progress R) (call_for f)
  unfolding call_for
  Progress-call_for f = record {
    triple = record {
      at = λ s k. elim (Status-cases (f s.world).0) [
        | inl e ↦ rw e (Progress-world k)
        | inr (x, e) ↦ rw e (Progress-world k)
      ];
    };
  }

pub ruleset progress_rules =
    (keeps_rules, Progress-the_broker, Progress-update, Progress-call, Progress-call_for)

module _ {W : Type 0} {U : Live W → Type 0} {R : Bool → ℕ → List ℕ → Type 0} where
  timeout_of-Progress : (o : Option ℕ) → Leaving U (Progress R) (timeout_of o)
  unfolding timeout_of
  timeout_of-Progress none = search keeps_rules
  timeout_of-Progress (some a) = search keeps_rules

  encode_frame-Progress : (f : Frame) (v : View) → Leaving U (Progress R) (encode_frame f v)
  unfolding encode_frame
  encode_frame-Progress f v = search progress_rules

  push_unread-Progress : Leaving U (Progress R) push_unread
  unfolding push_unread
  push_unread-Progress = record { triple = record { at = λ s k. ground arith } }

  decoded_frame-Progress : (d : Option Decoded) → Leaving U (Progress R) (decoded_frame d)
  unfolding decoded_frame
  decoded_frame-Progress none = search progress_rules
  decoded_frame-Progress (some d) = search progress_rules

  pub decode_frame-Progress : (r : View) → Leaving U (Progress R) (decode_frame r)
  unfolding decode_frame
  decode_frame-Progress r = search (progress_rules, decoded_frame-Progress)

  pub accept_frame-Progress : (f : Frame) (v : View) → Leaving U (Progress R) (accept_frame f v)
  unfolding accept_frame
  accept_frame-Progress f v = search progress_rules

  after_read-Progress :
      (found : Option View) {rest : Action (Live W) View}
      → Leaving U (Progress R) rest
      → Leaving U (Progress R) (elim found [ some r ↦ pure r | none ↦ rest ])
  after_read-Progress none k = k
  after_read-Progress (some r) k = search keeps_rules

  module _ (t : Transport W) (p : Platform W) where
    pub query_effective_limits-Progress : Leaving U (Progress R) (query_effective_limits t p)
    unfolding query_effective_limits
    query_effective_limits-Progress = search progress_rules

    pub begin_deadline-Progress : (ms : ℕ) → Leaving U (Progress R) (begin_deadline t p ms)
    unfolding begin_deadline
    begin_deadline-Progress ms = search progress_rules

    remaining_timeout-Progress : Leaving U (Progress R) (remaining_timeout t p)
    unfolding remaining_timeout
    remaining_timeout-Progress = search (progress_rules, timeout_of-Progress)

    send_encoded-Progress : (written ms : ℕ) → Leaving U (Progress R) (send_encoded t p written ms)
    unfolding send_encoded
    send_encoded-Progress written ms = search progress_rules

    pub emit-Progress : (f : Frame) (v : View) → Leaving U (Progress R) (emit t p f v)
    unfolding emit
    emit-Progress f v =
        search
          (progress_rules, encode_frame-Progress, remaining_timeout-Progress, send_encoded-Progress)

    pub emit_cancel-Progress : Leaving U (Progress R) (emit_cancel t p)
    unfolding emit_cancel
    emit_cancel-Progress = search (progress_rules, encode_frame-Progress, send_encoded-Progress)

    pub transport_cancel-Progress : Leaving U (Progress R) (transport_cancel t p)
    unfolding transport_cancel
    transport_cancel-Progress = search progress_rules

    pub send_ack-Progress : (f : Frame) (v : View) → Leaving U (Progress R) (send_ack t p f v)
    unfolding send_ack
    send_ack-Progress f v =
        search
          (progress_rules, encode_frame-Progress, remaining_timeout-Progress, send_encoded-Progress)

    pub bulk_limits-Progress :
        (body : View) (size : ℕ) → Leaving U (Progress R) (bulk_limits t p body size)
    unfolding bulk_limits
    bulk_limits-Progress body size = search (progress_rules, query_effective_limits-Progress)

    pub choose_request_id-Progress :
        (supplied : Option (List ℕ)) → Leaving U (Progress R) (choose_request_id t p supplied)
    unfolding choose_request_id
    choose_request_id-Progress none = search progress_rules
    choose_request_id-Progress (some id) = search progress_rules

    call_receive-Progress : (ms : ℕ) → Leaving U (Progress R) (call_receive t p ms)
    unfolding call_receive
    call_receive-Progress ms = record { triple = record { at = λ s k. ground arith } }

    refill-Progress : Leaving U (Progress R) (refill t p)
    unfolding refill
    refill-Progress = search (progress_rules, remaining_timeout-Progress, call_receive-Progress)

    read_step-Progress : Leaving U (Progress R) (read_step t p)
    unfolding read_step
    read_step-Progress = search (progress_rules, refill-Progress, push_unread-Progress) depth 8

module _ {W : Type 0} {R : Bool → ℕ → List ℕ → Type 0} (t : Transport W) (p : Platform W) where
  pub read_record-Progress :
      (fuel : ℕ) → Leaving (λ _. Unit {0}) (Progress R) (read_record t p fuel)
  unfolding read_record
  read_record-Progress zero = Keeps-out_of_fuel
  read_record-Progress (suc fuel) =
      Keeps-settle _ _ _ (read_step-Progress t p)
        (λ found. after_read-Progress found (read_record-Progress fuel)) (λ e. search keeps_rules)

  -- A session that is opened; a failure is left aside.
  pub open_session-Progress :
      (undo : Broker → Broker) (ms : ℕ)
      → Gives (Progress R) (open_session t p undo ms) (λ _ s. Progress R s)
  unfolding open_session
  open_session-Progress undo ms =
      Triple-bind (Gives-rescue _ (given_up (begin_deadline-Progress t p ms))) λ _.
        Triple-bind (Gives-rescue _ (given_up (Progress-call t.open_link)))
          λ _. given_up (Progress-update _ (λ c. refl) (λ c. refl) (λ c. refl))
