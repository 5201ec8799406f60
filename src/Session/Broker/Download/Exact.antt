-- ===== src/Session/Broker/Download/Exact.antt =====
-- The bytes that a download delivers are counted, and those of its data are the size asked for.
use pbns.Common.{
  ℕ, ◌+◌, ◌^◌, ◌<◌, ◌≡◌, refl, ◌∙◌, ◌==◌, if◌then◌else◌, length, limit, arith, message_type,
}
use pbns.Common.Memory.{View}
use pbns.Common.Actions.{settle, ◌>>◌}
use pbns.Common.Actions.Triples.{
  Contract, Triple-bind, Triple-pure, Triple-if, Triple-change, Triple-gets, Contract-weaken,
  Leaves,
}
use pbns.Common.Actions.Keeps.{Leaving, Keeps-guard, keeps_rules}
use pbns.Wire.Frame.{Frame, data_record, error}
use pbns.Session.Broker.Types.{Transport, Platform, ErrorCodec, Broker, Live, the_broker, update}
use pbns.Session.Broker.Receive.{accept_frame, deliver}
use pbns.Session.Broker.RemoteError.{decode_remote_error}
use pbns.Session.Broker.RemoteError.Leaving.{decode_remote_error-raises}
use pbns.Session.Broker.Bulk.{count_bulk, take_bulk, bulk_round}
use pbns.Session.Broker.Reading.{Same, Same-refl, decode_frame-Stays, read_record-Stays}

-- The bytes of data in a frame.
abbrev pub data_bytes : Frame → View → ℕ
data_bytes frame payload = if frame.type == data_record then length payload.bytes else 0

-- The size that was asked for, and what has been counted.
pub record Tally (n total : ℕ) {W : Type 0} (s : Live W) : Type 0 where
  pub exact : s.broker.bulk_exact_data_size ≡ n
  pub received : s.broker.bulk_received_data_size ≡ total

pub record Sized (n : ℕ) {W : Type 0} (s : Live W) : Type 0 where
  pub exact : s.broker.bulk_exact_data_size ≡ n

module _ {W : Type 0} {U : Live W → Type 0} {n total : ℕ} where
  Tally-the_broker : Leaving U (Tally n total) (the_broker)
  unfolding the_broker
  Tally-the_broker = record { triple = Triple-gets _ (λ s h. h) }

  Tally-update :
      (f : Broker → Broker)
      → ((c : Broker) → (f c).bulk_exact_data_size ≡ c.bulk_exact_data_size)
      → ((c : Broker) → (f c).bulk_received_data_size ≡ c.bulk_received_data_size)
      → Leaving U (Tally n total) (update f)
  unfolding update
  Tally-update f he hr = record {
    triple =
        Triple-change _
          λ s k. record { exact = he s.broker ∙ k.exact; received = hr s.broker ∙ k.received };
  }

ruleset tally_rules = (keeps_rules, Tally-the_broker, Tally-update)

module _ {W : Type 0} {U : Live W → Type 0} {n total : ℕ} where
  accept_frame-Tally : (f : Frame) (v : View) → Leaving U (Tally n total) (accept_frame f v)
  unfolding accept_frame
  accept_frame-Tally f v = search tally_rules

  -- What is delivered is the frame and the payload that were given.
  deliver-Tally :
      (f : Frame) (v : View)
      → Contract
          (Tally n total)
          (deliver f v)
          (λ r s. Tally n total s × (data_bytes r.frame r.payload ≡ data_bytes f v))
          (λ _ s. Tally n total s)
          U
  unfolding deliver
  deliver-Tally f v = Triple-bind Tally-the_broker.triple λ b.
      Triple-bind (Keeps-guard _ limit).triple
        λ _. Triple-bind (Leaving.triple (search tally_rules)) λ _. Triple-pure _ (λ s h. (h, refl))

  count_bulk-Tally :
      (f : Frame) (v : View)
      → n < 2 ^ 64
      → Contract
          (Tally n total)
          (count_bulk f v)
          (λ _ s. Tally n (total + data_bytes f v) s)
          (λ _ s. Tally n total s)
          U
  unfolding count_bulk the_broker settle update
  count_bulk-Tally f v small = record { at = λ s k. ground arith }

sized : {n total : ℕ} {W : Type 0} {s : Live W} → Tally n total s → Sized n s
sized k = record { exact = k.exact }

tallied :
    {n total : ℕ} {W : Type 0} (b : Broker) {s : Live W}
    → b.bulk_exact_data_size ≡ n
    → b.bulk_received_data_size ≡ total
    → Same b s
    → Tally n total s
tallied b e k h = record { exact = h.exact ∙ e; received = h.received ∙ k }

module _ {W : Type 0} {n total : ℕ} (codec : ErrorCodec) where
  -- A frame that is decoded: an error never returns, and what returns has been counted.
  take_frame-Tally :
      (f : Frame) (v : View) (service : ℕ)
      → n < 2 ^ 64
      → Contract
          (Tally n total)
          (if f.type == error
            then decode_remote_error codec v.bytes service
            else count_bulk f v >> deliver f v)
          (λ r (s : Live W). Tally n (total + data_bytes r.frame r.payload) s)
          (λ _ s. Sized n s)
          (λ s. Tally n total s)
  take_frame-Tally f v service small =
      Triple-if (f.type == error) _ _
        (λ _.
          Contract-weaken (λ r s h. absurd h) (λ _ s h. sized h) (λ s h. h)
            (decode_remote_error-raises (λ d u k. record { exact = k.exact; received = k.received })
              codec v.bytes service))
        λ _.
          Triple-bind
            (Contract-weaken (λ _ s h. h) (λ _ s h. sized h) (λ s h. h)
              (count_bulk-Tally f v small))
            λ _.
              Contract-weaken
                (λ r s h. record { exact = h.0.exact; received = omega (arith, h.0.received, h.1) })
                (λ _ s h. sized h) (λ s h. h) (deliver-Tally f v)

  take_bulk-Tally :
      (b : Broker) (r : View)
      → n < 2 ^ 64
      → b.bulk_exact_data_size ≡ n
      → b.bulk_received_data_size ≡ total
      → Contract
          (Same b)
          (take_bulk codec r)
          (λ a (s : Live W). Tally n (total + data_bytes a.frame a.payload) s)
          (λ _ s. Sized n s)
          (λ s. Tally n total s)
  unfolding take_bulk
  take_bulk-Tally b r small e k =
      Triple-bind
        (Contract-weaken (λ _ s h. tallied b e k h) (λ _ s h. sized (tallied b e k h)) (λ s h. h)
          (decode_frame-Stays r).triple)
        λ x.
          Triple-bind
            (Contract-weaken (λ _ s h. h) (λ _ s h. sized h) (λ s h. h)
              (Keeps-guard _ message_type).triple)
            λ _.
              Triple-bind
                (Contract-weaken (λ _ s h. h) (λ _ s h. sized h) (λ s h. h)
                  (accept_frame-Tally x.0 x.1).triple)
                λ _.
                  Triple-bind
                    (Contract-weaken (λ _ s h. h) (λ _ s h. sized h) (λ s h. h)
                      Tally-the_broker.triple)
                    λ c. take_frame-Tally x.0 x.1 c.service small

  pub bulk_round-Tally :
      (t : Transport W) (p : Platform W) (fuel : ℕ) (s : Live W)
      → n < 2 ^ 64
      → Tally n total s
      → Leaves
          (λ a u. Tally n (total + data_bytes a.frame a.payload) u)
          (λ _ u. Sized n u)
          (λ u. Tally n total u)
          (bulk_round t p codec fuel s).0
          (bulk_round t p codec fuel s).1
  unfolding bulk_round
  bulk_round-Tally t p fuel s small k =
      let b = s.broker in
      let reading =
        Contract-weaken {U = Tally n total} (λ _ u h. h)
          (λ _ u h. sized (tallied b k.exact k.received h)) (λ u h. tallied b k.exact k.received h)
          (read_record-Stays t p fuel).triple in
      let round = Triple-bind reading λ r. take_bulk-Tally b r small k.exact k.received in
      round.at s (Same-refl s)
