-- ===== src/Session/Broker/Reading.antt =====
-- Reading a record leaves the session that it is read for, and so does sending an acknowledgement.
use pbns.Common.{
  ℕ, zero, suc, ◌≡◌, refl, ◌∙◌, Option, none, some, Status, arith, Status-cases, inl, inr,
}
use pbns.Common.Memory.{View}
use pbns.Common.Actions.{Action, pure}
use pbns.Common.Actions.Triples.{Triple-gets, Triple-change}
use pbns.Common.Actions.Keeps.{Leaving, Stays, keeps_rules, Stays-out_of_fuel, Keeps-settle}
use pbns.Wire.Frame.{Frame, Decoded}
use pbns.Session.Broker.Types.{
  Transport, Platform, Broker, Live, the_broker, update, call, call_for,
}
use pbns.Session.Broker.Link.{timeout_of, remaining_timeout, encode_frame, send_encoded}
use pbns.Session.Broker.Bulk.{send_ack}
use pbns.Session.Broker.Receive.{
  push_unread, decoded_frame, decode_frame, call_receive, refill, read_step, read_record,
}

-- What a broker knows of its session.
pub record Same (b : Broker) {W : Type 0} (s : Live W) : Type 0 where
  pub stream : s.broker.stream ≡ b.stream
  pub request_id : s.broker.request_id ≡ b.request_id
  pub service : s.broker.service ≡ b.service
  pub limits : s.broker.limits ≡ b.limits
  pub exact : s.broker.bulk_exact_data_size ≡ b.bulk_exact_data_size
  pub received : s.broker.bulk_received_data_size ≡ b.bulk_received_data_size
  pub failed : s.broker.bulk_failed ≡ b.bulk_failed

pub Same-refl : {W : Type 0} (s : Live W) → Same s.broker s
Same-refl s = record {
  stream = refl;
  request_id = refl;
  service = refl;
  limits = refl;
  exact = refl;
  received = refl;
  failed = refl;
}

module _ {W : Type 0} {b : Broker} where
  Same-world :
      {c : Broker} {w w' : W}
      → Same b (record { broker = c; world = w })
      → Same b (record { broker = c; world = w' })
  Same-world k = record {
    stream = k.stream;
    request_id = k.request_id;
    service = k.service;
    limits = k.limits;
    exact = k.exact;
    received = k.received;
    failed = k.failed;
  }

module _ {W : Type 0} {U : Live W → Type 0} {b : Broker} where
  Stays-the_broker : Leaving U (Same b) (the_broker)
  unfolding the_broker
  Stays-the_broker = record { triple = Triple-gets _ (λ s h. h) }

  Stays-update :
      (f : Broker → Broker)
      → ((c : Broker) → (f c).stream ≡ c.stream)
      → ((c : Broker) → (f c).request_id ≡ c.request_id)
      → ((c : Broker) → (f c).service ≡ c.service)
      → ((c : Broker) → (f c).limits ≡ c.limits)
      → ((c : Broker) → (f c).bulk_exact_data_size ≡ c.bulk_exact_data_size)
      → ((c : Broker) → (f c).bulk_received_data_size ≡ c.bulk_received_data_size)
      → ((c : Broker) → (f c).bulk_failed ≡ c.bulk_failed)
      → Leaving U (Same b) (update f)
  unfolding update
  Stays-update f h1 h2 h3 h4 h5 h6 h7 = record {
    triple = Triple-change _ λ s k. record {
      stream = h1 s.broker ∙ k.stream;
      request_id = h2 s.broker ∙ k.request_id;
      service = h3 s.broker ∙ k.service;
      limits = h4 s.broker ∙ k.limits;
      exact = h5 s.broker ∙ k.exact;
      received = h6 s.broker ∙ k.received;
      failed = h7 s.broker ∙ k.failed;
    };
  }

  Stays-call : (f : W → Status × W) → Leaving U (Same b) (call f)
  unfolding call
  Stays-call f = record {
    triple = record {
      at = λ s k. elim (Status-cases (f s.world).0) [
        | inl e ↦ rw e (Same-world k)
        | inr (x, e) ↦ rw e (Same-world k)
      ];
    };
  }

  Stays-call_for : {A : Type 0} (f : W → Status × A × W) → Leaving U (Same b) (call_for f)
  unfolding call_for
  Stays-call_for f = record {
    triple = record {
      at = λ s k. elim (Status-cases (f s.world).0) [
        | inl e ↦ rw e (Same-world k)
        | inr (x, e) ↦ rw e (Same-world k)
      ];
    };
  }

ruleset reading_rules = (keeps_rules, Stays-the_broker, Stays-update, Stays-call, Stays-call_for)

module _ {W : Type 0} {U : Live W → Type 0} {b : Broker} where
  timeout_of-Stays : (o : Option ℕ) → Leaving U (Same b) (timeout_of o)
  unfolding timeout_of
  timeout_of-Stays none = search keeps_rules
  timeout_of-Stays (some a) = search keeps_rules

  push_unread-Stays : Leaving U (Same b) push_unread
  unfolding push_unread
  push_unread-Stays = record { triple = record { at = λ s k. ground arith } }

  decoded_frame-Stays : (d : Option Decoded) → Leaving U (Same b) (decoded_frame d)
  unfolding decoded_frame
  decoded_frame-Stays none = search reading_rules
  decoded_frame-Stays (some d) = search reading_rules

  pub decode_frame-Stays : (r : View) → Leaving U (Same b) (decode_frame r)
  unfolding decode_frame
  decode_frame-Stays r = search (reading_rules, decoded_frame-Stays)

  after_read-Stays :
      (found : Option View) {rest : Action (Live W) View}
      → Leaving U (Same b) rest
      → Leaving U (Same b) (elim found [ some r ↦ pure r | none ↦ rest ])
  after_read-Stays none k = k
  after_read-Stays (some r) k = search keeps_rules

  module _ (t : Transport W) (p : Platform W) where
    remaining_timeout-Stays : Leaving U (Same b) (remaining_timeout t p)
    unfolding remaining_timeout
    remaining_timeout-Stays = search (reading_rules, timeout_of-Stays)

    call_receive-Stays : (ms : ℕ) → Leaving U (Same b) (call_receive t p ms)
    unfolding call_receive
    call_receive-Stays ms = record { triple = record { at = λ s k. ground arith } }

    refill-Stays : Leaving U (Same b) (refill t p)
    unfolding refill
    refill-Stays = search (reading_rules, remaining_timeout-Stays, call_receive-Stays)

    read_step-Stays : Leaving U (Same b) (read_step t p)
    unfolding read_step
    read_step-Stays = search (reading_rules, refill-Stays, push_unread-Stays) depth 8

    pub send_ack-Stays : (f : Frame) (v : View) → Leaving U (Same b) (send_ack t p f v)
    unfolding send_ack encode_frame send_encoded
    send_ack-Stays f v = search (reading_rules, remaining_timeout-Stays) depth 14

module _ {W : Type 0} {b : Broker} (t : Transport W) (p : Platform W) where
  pub read_record-Stays : (fuel : ℕ) → Stays (Same b) (read_record t p fuel)
  unfolding read_record
  read_record-Stays zero = Stays-out_of_fuel
  read_record-Stays (suc fuel) =
      Keeps-settle _ _ _ (read_step-Stays t p)
        (λ found. after_read-Stays found (read_record-Stays fuel)) (λ e. search keeps_rules)
