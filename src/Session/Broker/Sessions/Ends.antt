-- ===== src/Session/Broker/Sessions/Ends.antt =====
-- How a session begins and ends.
use pbns.Common.{
  ℕ, ◌+◌, ◌≡◌, refl, ap, ◌∙◌, inl, inr, Bool, true, false, Error, arith, Status-cases,
}
use pbns.Common.Actions.{Action, settle, raise}
use pbns.Common.Actions.Triples.{Triple, Triple-bind, Triple-status_of, Triple-rescue}
use pbns.Common.Actions.Keeps.{Keeps, Keeps-settle_status}
use pbns.Session.Broker.Types.{Transport, Platform, Broker, Live, the_broker, update, call}
use pbns.Session.Broker.Link.{ended, finish_session, cancel_session}
use pbns.Session.Broker.Storage.{wipe_request_storage}
use pbns.Session.Broker.Bulk.{open_session}
use pbns.Session.Broker.Sessions.{
  Promises, Holds, Holds-world, Triple-update, emit_cancel-Keeps, transport_cancel-Keeps,
  begin_deadline-Keeps,
}

-- No session, and one that runs, over `n` links of others.
abbrev pub Idle : {W : Type 0} → (W → ℕ) → ℕ → Live W → Type 0
Idle links n = Holds links false false n

abbrev pub Running : {W : Type 0} → (W → ℕ) → ℕ → Live W → Type 0
Running links n = Holds links true true (n + 1)

module _ {W A : Type 0} {links : W → ℕ} {o a : Bool} {n : ℕ} {R : A → Live W → Type 0}
    {F : Error → Live W → Type 0} where
  -- A read of the broker, of which the block may use whether it has a session.
  pub Triple-read :
      {f : Broker → Action (Live W) A}
      → ((b : Broker)
          → b.initialized ≡ true
          → b.opened ≡ o
          → b.active ≡ a
          → Triple (Holds links o a n) (f b) R F)
      → Triple (Holds links o a n) (settle the_broker f raise) R F
  unfolding settle the_broker
  Triple-read h = record { at = λ s k. (h s.broker k.initialized k.opened k.active).at s k }

module _ {W : Type 0} {links : W → ℕ} {n : ℕ} {t : Transport W} {p : Platform W} {ticks : W → ℕ}
    {rate : ℕ} (c : Promises t p links ticks rate) where
  call_close :
      {o a : Bool}
      → Triple
          (Holds links o a (n + 1))
          (call t.close_link)
          (λ _ s. Holds links o a n s)
          (λ _ s. Holds links o a n s)
  unfolding call
  call_close = record {
    at = λ s k.
        let counted : links (t.close_link s.world).1 ≡ n =
          omega (arith, c.close s.world, k.counted) in
        elim (Status-cases (t.close_link s.world).0) [
          | inl e ↦ rw e (Holds-world k counted)
          | inr (x, e) ↦ rw e (Holds-world k counted)
        ];
  }

  pub call_open :
      Triple
        (Idle links n)
        (call t.open_link)
        (λ _ s. Holds links false false (n + 1) s)
        (λ _ s. Idle links n s)
  unfolding call
  call_open = record {
    at = λ s k. elim (Status-cases (t.open_link s.world).0) [
      | inl e ↦ rw e (Holds-world k (c.open_ok s.world e ∙ ap (λ (x : ℕ). x + 1) k.counted))
      | inr (x, e) ↦
          rw e (Holds-world k (c.open_err s.world (λ q. ground (arith, e, q)) ∙ k.counted))
    ];
  }

  -- The end of a session closes its link, whatever it returns.
  pub finish_session-Idle :
      {a : Bool} (keep : Bool)
      → Triple
          (Holds links true a (n + 1))
          (finish_session t p keep)
          (λ _ s. Idle links n s)
          (λ _ s. Idle links n s)
  unfolding finish_session wipe_request_storage
  finish_session-Idle keep = Triple-read λ b _ o _. rw o (
      Triple-bind (Triple-status_of call_close) λ closed.
        Triple-bind
          (Triple-update (ended keep) λ s k. record {
            initialized = k.initialized;
            opened = refl;
            active = refl;
            counted = k.counted;
            filled = omega arith;
            bounded = omega arith;
          })
          λ _. (Keeps-settle_status closed).triple)

  pub cancel_session-Idle :
      Triple (Running links n) (cancel_session t p) (λ _ s. Idle links n s) (λ _ s. Idle links n s)
  unfolding cancel_session
  cancel_session-Idle = Triple-bind (Triple-status_of (emit_cancel-Keeps c).triple) λ _.
      Triple-bind (Triple-status_of (transport_cancel-Keeps c).triple) λ _.
        Triple-bind (Triple-status_of (finish_session-Idle false))
          λ _. (Keeps-settle_status _).triple

  pub open_session-Holds :
      (undo : Broker → Broker) (ms : ℕ)
      → Keeps (Idle links n) (update undo)
      → Keeps (Idle links n) (update λ b. undo (record b { deadline_active = false }))
      → Triple
          (Idle links n)
          (open_session t p undo ms)
          (λ _ s. Holds links true false (n + 1) s)
          (λ _ s. Idle links n s)
  unfolding open_session
  open_session-Holds undo ms undone no_deadline =
      Triple-bind (Triple-rescue (begin_deadline-Keeps c ms).triple undone.triple) λ _.
        Triple-bind (Triple-rescue call_open no_deadline.triple) λ _. Triple-update _ λ s k.
          record {
            initialized = k.initialized;
            opened = refl;
            active = k.active;
            counted = k.counted;
            filled = k.filled;
            bounded = k.bounded;
          }
