-- ===== src/Session/Broker/Sessions/Ticks.antt =====
-- The ticks that are left until the last deadline, and the parts of a round of the loop that reads.
use pbns.Common.{
  ℕ, zero, suc, ◌+◌, ◌-◌, ◌*◌, ◌/◌, ◌^◌, ◌≤◌, ◌<◌, ◌≡◌, refl, ◌∙◌, Bool, true, false, not, none,
  List, [], ◌∷◌, length, drop, length-take, length-drop, leb, if◌then◌else◌, err, would_block,
  state, timeout, arith, inl, inr, Bool-cases, Status-cases,
}
use pbns.Common.Memory.{View, given}
use pbns.Common.Words.{uint64_max}
use pbns.Common.Actions.{settle, pure}
use pbns.Common.Actions.Triples.{
  Triple, Triple-bind, Triple-pure, Triple-raise, Triple-guard, Triple-map, Triple-from,
}
use pbns.Wire.RecordReader
use pbns.Wire.RecordReader.{Reader, store, push_loop}
use pbns.Session.Broker.Types.{Transport, Platform, Broker, Live, the_broker, update, call_for}
use pbns.Session.Broker.Link.{emptied_len, remaining_timeout, remaining_at, timeout_of}
use pbns.Session.Broker.Receive.{unread, push_unread, call_receive, refill}
use pbns.Session.Broker.Sessions.{Promises, Holds, Holds-world, Triple-update}

push_loop-waits :
    (xs : List ℕ) (i : ℕ) (r : Reader)
    → (push_loop xs i r).status ≡ err would_block
    → (push_loop xs i r).consumed ≡ i + length xs
unfolding push_loop
push_loop-waits [] i r h = omega arith
push_loop-waits (x ∷ xs) i r h = ground (
  arith,
  push_loop-waits xs (i + 1) r,
  push_loop-waits xs (i + 1) (record r { discarding = true }),
  push_loop-waits xs (i + 1) (store r x),
)

-- A reader that waits for more has consumed all that it was given.
push-waits :
    (r : Reader) (v : View)
    → (RecordReader.push r v given given given).status ≡ err would_block
    → (RecordReader.push r v given given given).consumed ≡ length v.bytes
unfolding RecordReader.push
push-waits r v h = ground (arith, push_loop-waits v.bytes 0 r)

lt_of_div : (x r m : ℕ) → 0 < r → x / r < m → x < r * m
lt_of_div x r m pos h = grind arith

module _ {W : Type 0} (links ticks : W → ℕ) (rate : ℕ) (o a : Bool) (n : ℕ) where
  -- At most `k` ticks are left until the last possible deadline.
  pub record Within (k : ℕ) (s : Live W) : Type 0 where
    pub held : Holds links o a n s
    pub left : rate * 2 ^ 64 ≤ ticks s.world + k

  -- And all that was received has been read.
  pub record Drained (k : ℕ) (s : Live W) : Type 0 where
    pub within : Within k s
    pub drained : s.broker.receive_length ≤ s.broker.receive_offset

module _ {W : Type 0} {links ticks : W → ℕ} {rate : ℕ} {o a : Bool} {n : ℕ} {t : Transport W}
    {p : Platform W} (c : Promises t p links ticks rate) where
  read_clock-Drained :
      (k : ℕ)
      → Triple
          (Drained links ticks rate o a n k)
          (call_for p.monotonic_ms)
          (λ now s. Drained links ticks rate o a n k s × (now < uint64_max → 0 < k))
          (λ _ s. Holds links o a n s)
  unfolding call_for
  read_clock-Drained k = record {
    at = λ s d.
        let w = s.world in
        let held = Holds-world d.within.held (c.monotonic_ms w ∙ d.within.held.counted) in
        let drained : Drained links ticks rate o a n k
            (record { broker = s.broker; world = (p.monotonic_ms w).2 }) =
          record {
            within = record { held = held; left = omega (arith, c.clock_ticks w, d.within.left) };
            drained = d.drained;
          } in
        elim (Status-cases (p.monotonic_ms w).0) [
          | inl e ↦ rw e (
            drained,
            λ early.
                let now = c.clock w e in
                let before = lt_of_div (ticks w) rate (2 ^ 64) c.rate_pos (omega arith) in
                omega arith,
          )
          | inr (x, e) ↦ rw e held
        ];
  }

  timeout_of-Drained :
      (b : Broker) (now k : ℕ)
      → b.deadline_ms < 2 ^ 64
      → Triple
          (λ s. Drained links ticks rate o a n k s × (now < uint64_max → 0 < k))
          (timeout_of (remaining_at b now))
          (λ _ s. Drained links ticks rate o a n k s × (0 < k))
          (λ _ s. Holds links o a n s)
  unfolding remaining_at timeout_of
  timeout_of-Drained b now k bounded = elim (Bool-cases (leb b.deadline_ms now)) [
    | inl late ↦ rw late (Triple-raise timeout (λ s h. h.0.within.held))
    | inr early ↦ rw early (Triple-pure _ (λ s h. (h.0, h.1 (ground arith))))
  ]

  -- The time that is left, and a tick of it at least.
  remaining_timeout-Drained :
      (k : ℕ)
      → Triple
          (Drained links ticks rate o a n k)
          (remaining_timeout t p)
          (λ _ s. Drained links ticks rate o a n k s × (0 < k))
          (λ _ s. Holds links o a n s)
  unfolding remaining_timeout settle the_broker
  remaining_timeout-Drained k = record {
    at = λ s d.
        let b = s.broker in
        let rest =
          Triple-bind
            (Triple-guard (not b.deadline_active) state (λ _ s h. h.within.held) (λ _ s h. h))
            λ _.
              Triple-bind (read_clock-Drained k)
                λ now. timeout_of-Drained b now k d.within.held.bounded in
        rest.at s d;
  }

  call_receive-Within :
      (k ms : ℕ)
      → Triple
          (Drained links ticks rate o a n (suc k))
          (call_receive t p ms)
          (λ found s.
            Within links ticks rate o a n k s
            × (found ≡ false → Drained links ticks rate o a n k s))
          (λ _ s. Holds links o a n s)
  unfolding call_receive
  call_receive-Within k ms = record {
    at = λ s d. ground (
      arith,
      c.receive s.world (emptied_len s.broker.receive) ms,
      c.receive_ticks s.world (emptied_len s.broker.receive) ms,
      c.receive_size s.world (emptied_len s.broker.receive) ms,
    );
  }

  pub push_unread-Drained :
      (k : ℕ)
      → Triple
          (Within links ticks rate o a n k)
          push_unread
          (λ found s. Holds links o a n s × (found ≡ none → Drained links ticks rate o a n k s))
          (λ _ s. Holds links o a n s)
  unfolding push_unread
  push_unread-Drained k = record {
    at = λ s d. ground (
      arith,
      push-waits s.broker.reader (unread s.broker),
      length-take (s.broker.receive_length - s.broker.receive_offset)
          (drop s.broker.receive_offset s.broker.receive.bytes),
      length-drop s.broker.receive_offset s.broker.receive.bytes,
    );
  }

  nothing_received-Drained :
      (k : ℕ)
      → Triple
          (Drained links ticks rate o a n k)
          (update λ b. record b { receive_offset = 0; receive_length = 0 })
          (λ _ s. Drained links ticks rate o a n k s)
          (λ _ s. Holds links o a n s)
  nothing_received-Drained k = Triple-update _ λ s d. record {
    within = record {
      held = record {
        initialized = d.within.held.initialized;
        opened = d.within.held.opened;
        active = d.within.held.active;
        counted = d.within.held.counted;
        filled = omega arith;
        bounded = d.within.held.bounded;
      };
      left = d.within.left;
    };
    drained = omega arith;
  }

  pub refill-Within :
      (k : ℕ)
      → Triple
          (Drained links ticks rate o a n k)
          (refill t p)
          (λ found s.
            (j : ℕ) × (k ≡ suc j)
            × Within links ticks rate o a n j s
            × (found ≡ false → Drained links ticks rate o a n j s))
          (λ _ s. Holds links o a n s)
  unfolding refill
  refill-Within zero = Triple-bind (nothing_received-Drained zero) λ _.
      Triple-bind (remaining_timeout-Drained zero)
        λ ms. record { at = λ s h. absurd (omega (arith, h.1)) }
  refill-Within (suc j) = Triple-bind (nothing_received-Drained (suc j)) λ _.
      Triple-bind (remaining_timeout-Drained (suc j)) λ ms.
        Triple-map (λ found s h. (j, refl, h.0, h.1)) (λ e s h. h)
          (Triple-from (λ s h. h.0) (call_receive-Within j ms))

  pub push_if-Drained :
      (b : Bool) (j : ℕ)
      → Triple
          (λ s.
            Within links ticks rate o a n j s × (b ≡ false → Drained links ticks rate o a n j s))
          (if b then push_unread else pure none)
          (λ found s. Holds links o a n s × (found ≡ none → Drained links ticks rate o a n j s))
          (λ _ s. Holds links o a n s)
  push_if-Drained true j = Triple-from (λ s h. h.0) (push_unread-Drained j)
  push_if-Drained false j = Triple-pure none (λ s h. (h.0.held, λ _. h.1 refl))
