-- ===== src/Session/Broker/Named.antt =====
-- The steps up to the answer to a request leave its request id.
use pbns.Common.{Error, ℕ, ◌≡◌, ◌∙◌, Option, none, some, List, Status, Status-cases, inl, inr}
use pbns.Common.Memory.{View}
use pbns.Common.Actions.Triples.{Contract, Triple-gets, Triple-change}
use pbns.Common.Actions.Keeps.{Leaving, Keeps, keeps_rules}
use pbns.Wire.Frame.{Frame}
use pbns.Session.Broker.Types.{
  Transport, Platform, Broker, Live, the_broker, update, call, call_for,
}
use pbns.Session.Broker.Link.{
  timeout_of, query_effective_limits, begin_deadline, remaining_timeout, encode_frame, send_encoded,
  emit,
}

-- The request id of the session.
pub record Named (id : List ℕ) {W : Type 0} (s : Live W) : Type 0 where
  pub named : s.broker.request_id ≡ id

-- No promise.
abbrev pub Any : {W : Type 0} → Live W → Type 0
Any s = Unit

module _ {W : Type 0} {P U : Live W → Type 0} {Q : Broker → Live W → Type 0}
    {E : Error → Live W → Type 0} where
  pub Triple-the_broker : ((s : Live W) → P s → Q s.broker s) → Contract P the_broker Q E U
  unfolding the_broker
  Triple-the_broker h = Triple-gets _ h

module _ {W : Type 0} {U : Live W → Type 0} {id : List ℕ} where
  pub Named-the_broker : Leaving U (Named id) (the_broker)
  unfolding the_broker
  Named-the_broker = record { triple = Triple-gets _ (λ s h. h) }

  pub Named-update :
      (f : Broker → Broker)
      → ((b : Broker) → (f b).request_id ≡ b.request_id)
      → Leaving U (Named id) (update f)
  unfolding update
  Named-update f h = record {
    triple = Triple-change _ λ s k. record { named = h s.broker ∙ k.named };
  }

  pub Named-call : (f : W → Status × W) → Leaving U (Named id) (call f)
  unfolding call
  Named-call f = record {
    triple = record {
      at = λ s k. elim (Status-cases (f s.world).0) [
        | inl e ↦ rw e (record { named = k.named })
        | inr (x, e) ↦ rw e (record { named = k.named })
      ];
    };
  }

  pub Named-call_for : {A : Type 0} (f : W → Status × A × W) → Leaving U (Named id) (call_for f)
  unfolding call_for
  Named-call_for f = record {
    triple = record {
      at = λ s k. elim (Status-cases (f s.world).0) [
        | inl e ↦ rw e (record { named = k.named })
        | inr (x, e) ↦ rw e (record { named = k.named })
      ];
    };
  }

pub ruleset named_rules = (keeps_rules, Named-the_broker, Named-update, Named-call, Named-call_for)

module _ {W : Type 0} {U : Live W → Type 0} {id : List ℕ} where
  timeout_of-Named : (o : Option ℕ) → Leaving U (Named id) (timeout_of o)
  unfolding timeout_of
  timeout_of-Named none = search keeps_rules
  timeout_of-Named (some a) = search keeps_rules

  encode_frame-Named : (f : Frame) (v : View) → Leaving U (Named id) (encode_frame f v)
  unfolding encode_frame
  encode_frame-Named f v = search named_rules

  module _ (t : Transport W) (p : Platform W) where
    pub query_effective_limits-Named : Leaving U (Named id) (query_effective_limits t p)
    unfolding query_effective_limits
    query_effective_limits-Named = search named_rules

    pub begin_deadline-Named : (ms : ℕ) → Leaving U (Named id) (begin_deadline t p ms)
    unfolding begin_deadline
    begin_deadline-Named ms = search named_rules

    pub emit-Named : (f : Frame) (v : View) → Leaving U (Named id) (emit t p f v)
    unfolding emit remaining_timeout send_encoded
    emit-Named f v = search (named_rules, encode_frame-Named, timeout_of-Named) depth 14
