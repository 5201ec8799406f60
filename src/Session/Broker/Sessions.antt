-- ===== src/Session/Broker/Sessions.antt =====
-- The links that a broker opens and closes. The steps of a session leave them as they are; its end
-- closes the one that is open.
pub mod Ticks
pub mod Rounds
pub mod Steps
pub mod Ends
pub mod Requests
pub mod Transfers
pub mod Resets
pub mod Calls
pub mod Runs
pub mod Closing
pub mod Wiped
pub mod Wiping
use pbns.Common.{
  min, ℕ, zero, suc, ◌+◌, ◌-◌, ◌/◌, ◌^◌, ◌<◌, ◌≤◌, length, ◌≡◌, ◌≢◌, ◌∙◌, inl, inr, refl, Bool,
  true, false, Option, none, some, List, if◌then◌else◌, Status, ok, err, Error, arith, Bool-cases,
  Status-cases,
}
use pbns.Common.Memory.{View, Buffer}
use pbns.Common.Words.{uint64_max}
use pbns.Common.Actions.{Action, gets, change, settle, pure, raise}
use pbns.Common.Actions.Triples.{Contract, Triple, Triple-bind, Triple-gets, Triple-change}
use pbns.Common.Actions.Keeps.{Keeps, keeps_rules, Keeps-settle}
use pbns.Wire.Frame.{Frame, Decoded}
use pbns.Session.Broker.Types.{
  Transport, Platform, ErrorCodec, Broker, Live, the_broker, update, call, call_for,
}
use pbns.Session.Broker.Link.{
  timeout_of, encode_frame, query_effective_limits, begin_deadline, remaining_timeout, send_encoded,
  emit_cancel, transport_cancel, emit,
}

-- What the world promises. Of the links that are open: opening adds one where it succeeds, closing
-- takes one away, and nothing else counts. Of the time: the clock counts ticks, of which `rate` make
-- a millisecond, up to the last one that it can show, every `receive` takes one, and it leaves the size of its buffer.
pub record Promises {W : Type 0} (t : Transport W) (p : Platform W) (links ticks : W → ℕ) (rate : ℕ)
    : Type 0 where
  pub open_ok : (w : W) → (t.open_link w).0 ≡ ok → links (t.open_link w).1 ≡ links w + 1
  pub open_err : (w : W) → (t.open_link w).0 ≢ ok → links (t.open_link w).1 ≡ links w
  pub close : (w : W) → links (t.close_link w).1 ≡ links w - 1
  pub send : (w : W) (bytes : List ℕ) (ms : ℕ) → links (t.send w bytes ms).1 ≡ links w
  pub receive : (w : W) (b : Buffer) (ms : ℕ) → links (t.receive w b ms).world ≡ links w
  pub cancel : (w : W) (id : List ℕ) → links (t.cancel_request w id).1 ≡ links w
  pub limits : (w : W) → links (t.limits w).2 ≡ links w
  pub random : (w : W) → links (p.random w).2 ≡ links w
  pub monotonic_ms : (w : W) → links (p.monotonic_ms w).2 ≡ links w
  pub rate_pos : 0 < rate
  pub clock :
      (w : W) → (p.monotonic_ms w).0 ≡ ok → (p.monotonic_ms w).1 ≡ min (ticks w / rate) uint64_max
  pub clock_ticks : (w : W) → ticks w ≤ ticks (p.monotonic_ms w).2
  pub receive_ticks : (w : W) (b : Buffer) (ms : ℕ) → ticks w < ticks (t.receive w b ms).world
  pub receive_size :
      (w : W) (b : Buffer) (ms : ℕ) → length (t.receive w b ms).bytes ≡ length b.bytes

-- An initialized broker, whether it has opened and started a session, and how many links there are.
pub record Holds {W : Type 0} (links : W → ℕ) (o a : Bool) (n : ℕ) (s : Live W) : Type 0 where
  pub initialized : s.broker.initialized ≡ true
  pub opened : s.broker.opened ≡ o
  pub active : s.broker.active ≡ a
  pub counted : links s.world ≡ n
  pub filled : s.broker.receive_length ≤ length s.broker.receive.bytes
  pub bounded : s.broker.deadline_ms < 2 ^ 64

module _ {W : Type 0} {links : W → ℕ} {o a : Bool} {n m : ℕ} where
  -- The world has changed.
  pub Holds-world :
      {b : Broker} {w w' : W}
      → Holds links o a n (record { broker = b; world = w })
      → links w' ≡ m
      → Holds links o a m (record { broker = b; world = w' })
  Holds-world k h = record {
    initialized = k.initialized;
    opened = k.opened;
    active = k.active;
    counted = h;
    filled = k.filled;
    bounded = k.bounded;
  }

module _ {W : Type 0} {P : Live W → Type 0} where
  pub Keeps-the_broker : Keeps P (the_broker)
  unfolding the_broker
  Keeps-the_broker = record { triple = Triple-gets _ (λ s h. h) }

module _ {W : Type 0} {P U : Live W → Type 0} {Q : Unit {0} → Live W → Type 0}
    {E : Error → Live W → Type 0} where
  pub Triple-update :
      (f : Broker → Broker)
      → ((s : Live W) → P s → Q tt (record s { broker = f s.broker }))
      → Contract P (update f) Q E U
  unfolding update
  Triple-update f h = Triple-change _ h

module _ {W : Type 0} {links : W → ℕ} {o a : Bool} {n : ℕ} where
  pub Keeps-update :
      (f : Broker → Broker)
      → ((b : Broker) → (f b).initialized ≡ b.initialized)
      → ((b : Broker) → (f b).opened ≡ b.opened)
      → ((b : Broker) → (f b).active ≡ b.active)
      → ((b : Broker)
          → b.receive_length ≤ length b.receive.bytes
          → (f b).receive_length ≤ length (f b).receive.bytes)
      → ((b : Broker) → b.deadline_ms < 2 ^ 64 → (f b).deadline_ms < 2 ^ 64)
      → Keeps (Holds links o a n) (update f)
  unfolding update
  Keeps-update f hi ho ha hf hb = record {
    triple = Triple-change _ (λ s k. record {
      initialized = hi s.broker ∙ k.initialized;
      opened = ho s.broker ∙ k.opened;
      active = ha s.broker ∙ k.active;
      counted = k.counted;
      filled = hf s.broker k.filled;
      bounded = hb s.broker k.bounded;
    });
  }

  pub Keeps-call :
      (f : W → Status × W)
      → ((w : W) → links (f w).1 ≡ links w)
      → Keeps (Holds links o a n) (call f)
  unfolding call
  Keeps-call f h = record {
    triple = record {
      at = λ s k. elim (Status-cases (f s.world).0) [
        | inl e ↦ rw e (Holds-world k (h s.world ∙ k.counted))
        | inr (x, e) ↦ rw e (Holds-world k (h s.world ∙ k.counted))
      ];
    };
  }

  pub Keeps-call_for :
      {A : Type 0} (f : W → Status × A × W)
      → ((w : W) → links (f w).2 ≡ links w)
      → Keeps (Holds links o a n) (call_for f)
  unfolding call_for
  Keeps-call_for f h = record {
    triple = record {
      at = λ s k. elim (Status-cases (f s.world).0) [
        | inl e ↦ rw e (Holds-world k (h s.world ∙ k.counted))
        | inr (x, e) ↦ rw e (Holds-world k (h s.world ∙ k.counted))
      ];
    };
  }

pub ruleset session_rules =
    (keeps_rules, Keeps-the_broker, Keeps-update, Keeps-call, Keeps-call_for)

module _ {W : Type 0} {P : Live W → Type 0} where
  timeout_of-Keeps : (o : Option ℕ) → Keeps P (timeout_of o)
  unfolding timeout_of
  timeout_of-Keeps none = search keeps_rules
  timeout_of-Keeps (some a) = search keeps_rules

module _ {W : Type 0} {links : W → ℕ} {o a : Bool} {n : ℕ} where
  pub encode_frame-Keeps : (f : Frame) (v : View) → Keeps (Holds links o a n) (encode_frame f v)
  unfolding encode_frame
  encode_frame-Keeps f v = search session_rules

  module _ {t : Transport W} {p : Platform W} {ticks : W → ℕ} {rate : ℕ}
      (c : Promises t p links ticks rate) where
    pub query_effective_limits-Keeps : Keeps (Holds links o a n) (query_effective_limits t p)
    unfolding query_effective_limits
    query_effective_limits-Keeps = search (session_rules, c.limits)

    read_clock :
        Triple
          (Holds links o a n)
          (call_for p.monotonic_ms)
          (λ now s. Holds links o a n s × (now < 2 ^ 64))
          (λ _ s. Holds links o a n s)
    unfolding call_for
    read_clock = record {
      at = λ s k.
          let kept = Holds-world k (c.monotonic_ms s.world ∙ k.counted) in
          elim (Status-cases (p.monotonic_ms s.world).0) [
            | inl e ↦ rw e (kept, omega (arith, c.clock s.world e))
            | inr (x, e) ↦ rw e kept
          ];
    }

    pub begin_deadline-Keeps : (ms : ℕ) → Keeps (Holds links o a n) (begin_deadline t p ms)
    unfolding begin_deadline
    begin_deadline-Keeps ms = record {
      triple = Triple-bind read_clock λ now. Triple-update _ λ s k. record {
        initialized = k.0.initialized;
        opened = k.0.opened;
        active = k.0.active;
        counted = k.0.counted;
        filled = k.0.filled;
        bounded = ground (arith, k.1);
      };
    }

    pub remaining_timeout-Keeps : Keeps (Holds links o a n) (remaining_timeout t p)
    unfolding remaining_timeout
    remaining_timeout-Keeps = search (session_rules, c.monotonic_ms, timeout_of-Keeps)

    pub send_encoded-Keeps :
        (written ms : ℕ) → Keeps (Holds links o a n) (send_encoded t p written ms)
    unfolding send_encoded
    send_encoded-Keeps written ms =
        Keeps-settle _ _ _ Keeps-the_broker (λ b. Keeps-call _ (λ w. c.send w _ ms))
          (λ e. search keeps_rules)

    pub emit_cancel-Keeps : Keeps (Holds links o a n) (emit_cancel t p)
    unfolding emit_cancel
    emit_cancel-Keeps = search (session_rules, encode_frame-Keeps, send_encoded-Keeps)

    pub transport_cancel-Keeps : Keeps (Holds links o a n) (transport_cancel t p)
    unfolding transport_cancel
    transport_cancel-Keeps =
        Keeps-settle _ _ _ Keeps-the_broker (λ b. Keeps-call _ (λ w. c.cancel w b.request_id))
          (λ e. search keeps_rules)

    pub emit-Keeps : (f : Frame) (v : View) → Keeps (Holds links o a n) (emit t p f v)
    unfolding emit
    emit-Keeps f v =
        search (session_rules, encode_frame-Keeps, send_encoded-Keeps, remaining_timeout-Keeps)
