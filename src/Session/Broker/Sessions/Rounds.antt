-- ===== src/Session/Broker/Sessions/Rounds.antt =====
-- The loop that reads a record comes to its end before the deadline has passed: each round but the
-- first takes a tick of the clock.
use pbns.Common.{
  le→leb, leb→le, ℕ, zero, suc, ◌+◌, ◌*◌, ◌^◌, ◌<◌, ◌≡◌, refl, Bool, Option, none, some, leb, arith,
  inl, inr, Bool-cases,
}
use pbns.Common.Memory.{View}
use pbns.Common.Actions.{Action, settle, pure}
use pbns.Common.Actions.Triples.{Triple, Triple-bind, Triple-pure, Triple-map, Triple-from, Leaves}
use pbns.Common.Actions.Keeps.{Keeps}
use pbns.Session.Broker.Types.{Transport, Platform, Live, the_broker}
use pbns.Session.Broker.Receive.{read_step, read_record}
use pbns.Session.Broker.Sessions.{Promises, Holds}
use pbns.Session.Broker.Sessions.Ticks.{
  Within, Drained, push_unread-Drained, refill-Within, push_if-Drained,
}

module _ {W : Type 0} {H D : Live W → Type 0} where
  found_or-Holds :
      (found : Option View) (rest : Action (Live W) View)
      → ((s : Live W) → D s → Leaves (λ _ u. H u) (λ _ u. H u) (λ _. ⊥) (rest s).0 (rest s).1)
      → Triple
          (λ s. H s × (found ≡ none → D s))
          (elim found [ some cobs_record ↦ pure cobs_record | none ↦ rest ])
          (λ _ s. H s)
          (λ _ s. H s)
  found_or-Holds none rest h = record { at = λ s k. h s (k.1 refl) }
  found_or-Holds (some r) rest h = Triple-pure r (λ s k. k.0)

module _ {W : Type 0} {links ticks : W → ℕ} {rate : ℕ} {o a : Bool} {n : ℕ} {t : Transport W}
    {p : Platform W} (c : Promises t p links ticks rate) where
  -- One round from a state where all has been read: if it finds no record, it has taken a tick.
  read_step-Drained :
      (k : ℕ)
      → Triple
          (Drained links ticks rate o a n k)
          (read_step t p)
          (λ found s.
            Holds links o a n s
            × (found ≡ none → (j : ℕ) × (k ≡ suc j) × Drained links ticks rate o a n j s))
          (λ _ s. Holds links o a n s)
  unfolding read_step settle the_broker
  read_step-Drained k = record {
    at = λ s d.
        let rest = Triple-bind (refill-Within c k) λ b. record {
          at = λ u h.
              let kept =
                Triple-map (λ found v q. (q.0, λ z. (h.0, h.1, q.1 z))) (λ e v q. q)
                  (push_if-Drained c b h.0) in
              kept.at u (h.2, h.3);
        } in
        rw (le→leb s.broker.receive_length s.broker.receive_offset d.drained) (rest.at s d);
  }

  weaker :
      {k : ℕ} {s : Live W}
      → (j : ℕ) × (k ≡ suc j) × Drained links ticks rate o a n j s
      → Drained links ticks rate o a n k s
  weaker (j, e, d) = record {
    within = record { held = d.within.held; left = omega (arith, d.within.left, e) };
    drained = d.drained;
  }

  -- The first round may find bytes that were left unread.
  read_step-Within :
      (k : ℕ)
      → Triple
          (Within links ticks rate o a n k)
          (read_step t p)
          (λ found s. Holds links o a n s × (found ≡ none → Drained links ticks rate o a n k s))
          (λ _ s. Holds links o a n s)
  unfolding read_step settle the_broker
  read_step-Within k = record {
    at = λ s d. elim (Bool-cases (leb s.broker.receive_length s.broker.receive_offset)) [
      | inl all_read ↦
          let drained : Drained links ticks rate o a n k s = record {
            within = d;
            drained = leb→le _ _ all_read;
          } in
          let sooner =
            Triple-map (λ found v q. (q.0, λ z. weaker (q.1 z))) (λ e v q. q)
              (read_step-Drained k) in
          sooner.at s drained
      | inr unread_left ↦ rw unread_left ((push_unread-Drained c k).at s d)
    ];
  }

  read_record-Drained :
      (fuel k : ℕ)
      → k < fuel
      → Triple
          (Drained links ticks rate o a n k)
          (read_record t p fuel)
          (λ _ s. Holds links o a n s)
          (λ _ s. Holds links o a n s)
  unfolding read_record
  read_record-Drained zero k h = absurd (omega arith)
  read_record-Drained (suc fuel) k h = Triple-bind (read_step-Drained k) λ found.
      found_or-Holds found (read_record t p fuel)
        λ s e. let (j, same, d) = e in (read_record-Drained fuel j (omega arith)).at s d

  -- With fuel for every tick up to the last deadline, and for the bytes that are unread, the loop
  -- ends, and leaves the session as it was.
  pub read_record-Keeps :
      (fuel : ℕ) → rate * 2 ^ 64 + 1 < fuel → Keeps (Holds links o a n) (read_record t p fuel)
  unfolding read_record
  read_record-Keeps zero h = absurd (omega arith)
  read_record-Keeps (suc fuel) h = record {
    triple =
        Triple-from (λ s k. record { held = k; left = omega arith })
          (Triple-bind (read_step-Within (rate * 2 ^ 64)) λ found.
            found_or-Holds found (read_record t p fuel)
              λ s d. (read_record-Drained fuel (rate * 2 ^ 64) (omega arith)).at s d);
  }
