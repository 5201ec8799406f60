-- ===== src/Session/Broker/Download/Counting.antt =====
-- What a download has counted, over its calls.
use pbns.Common.{ℕ, ◌+◌, ◌^◌, ◌<◌, ◌≡◌, sym, ◌∙◌, false, arith, Bool-cases, inl, inr}
use pbns.Common.Memory.{View, given}
use pbns.Common.Actions.{
  Answer, returns, fails, unfinished, continue, settle, raise, pure, ignore, ◌>>◌,
}
use pbns.Common.Actions.Triples.{Leaves, Triple-gets, Triple-change, Contract-weaken}
use pbns.Common.Actions.Keeps.{Stays, keeps_rules}
use pbns.Wire.Frame.{Frame}
use pbns.Session.Broker.Types.{
  Transport, Platform, ErrorCodec, Broker, Live, Response, the_broker, update,
}
use pbns.Session.Broker.Bulk.{fail_bulk, bulk_receive, bulk_ack, bulk_is_over, send_ack}
use pbns.Session.Broker.Reading.{Same, Same-refl, send_ack-Stays}
use pbns.Session.Broker.Download.{bulk_receive_over, bulk_receive_live}
use pbns.Session.Broker.Download.Exact.{data_bytes, Tally, Sized, bulk_round-Tally}

-- What has been counted is what was delivered, unless the download has failed.
pub record Counting (n total : ℕ) {W : Type 0} (s : Live W) : Type 0 where
  pub exact : s.broker.bulk_exact_data_size ≡ n
  pub counted : s.broker.bulk_failed ≡ false → s.broker.bulk_received_data_size ≡ total

tallied-Counting : {n total : ℕ} {W : Type 0} {s : Live W} → Tally n total s → Counting n total s
tallied-Counting k = record { exact = k.exact; counted = λ _. k.received }

module _ {W : Type 0} (n total : ℕ) where
  rescued-Counting :
      (a : Answer Response) (v : Live W)
      → Leaves
          (λ r u. Tally n (total + data_bytes r.frame r.payload) u)
          (λ _ u. Sized n u)
          (λ u. Tally n total u)
          a
          v
      → let r = continue pure (λ e. ignore fail_bulk >> raise e) a v in
        Leaves
          (λ r u. Counting n (total + data_bytes r.frame r.payload) u)
          (λ _ u. Counting n total u)
          (λ u. Counting n total u)
          r.0
          r.1
  unfolding fail_bulk update settle
  rescued-Counting (returns r) v h = tallied-Counting h
  rescued-Counting (fails e) v h = record { exact = h.exact; counted = λ q. cc }
  rescued-Counting unfinished v h = tallied-Counting h

  pub bulk_receive-Counting :
      (t : Transport W) (p : Platform W) (codec : ErrorCodec) (fuel : ℕ) (s : Live W)
      → n < 2 ^ 64
      → Counting n total s
      → let r = bulk_receive t p codec fuel given s in
        Leaves
          (λ a u. Counting n (total + data_bytes a.frame a.payload) u)
          (λ _ u. Counting n total u)
          (λ u. Counting n total u)
          r.0
          r.1
  unfolding settle
  bulk_receive-Counting t p codec fuel s small k = elim (Bool-cases (bulk_is_over s.broker)) [
    | inl over ↦ rw (bulk_receive_over t p codec fuel s over) k
    | inr live ↦
        let tally : Tally n total s = record {
          exact = k.exact;
          received = k.counted (ground (arith, live));
        } in
        rw (bulk_receive_live t p codec fuel s live)
          (rescued-Counting _ _ (bulk_round-Tally codec t p fuel s small tally))
  ]

  kept-Counting : {s u : Live W} → Counting n total s → Same s.broker u → Counting n total u
  kept-Counting k h = record {
    exact = h.exact ∙ k.exact;
    counted = λ q. h.received ∙ k.counted (sym h.failed ∙ q);
  }

  send_ack-Counting :
      (t : Transport W) (p : Platform W) (f : Frame) (v : View)
      → Stays (Counting n total) (send_ack t p f v)
  send_ack-Counting t p f v = record {
    triple = record {
      at = λ s k.
          let sent =
            Contract-weaken {U = Counting n total} (λ _ u h. kept-Counting k h)
              (λ _ u h. kept-Counting k h) (λ u h. kept-Counting k h)
              (send_ack-Stays {U = Same s.broker} t p f v).triple in
          sent.at s (Same-refl s);
    };
  }

  fail_bulk-Counting : Stays (Counting n total {W = W}) fail_bulk
  unfolding fail_bulk update
  fail_bulk-Counting = record {
    triple = Triple-change _ λ s k. record { exact = k.exact; counted = λ q. cc };
  }

  read-Counting : Stays (Counting n total {W = W}) the_broker
  unfolding the_broker
  read-Counting = record { triple = Triple-gets _ (λ s h. h) }

  next_ack-Counting :
      (f : Broker → ℕ)
      → Stays (Counting n total {W = W}) (update λ c. record c { bulk_next_ack_sequence = f c })
  unfolding update
  next_ack-Counting f = record {
    triple = Triple-change _ λ s k. record { exact = k.exact; counted = k.counted };
  }

  pub bulk_ack-Counting :
      (t : Transport W) (p : Platform W) (next window ptr : ℕ)
      → Stays (Counting n total) (bulk_ack t p next window ptr)
  unfolding bulk_ack
  bulk_ack-Counting t p next window ptr =
      search (keeps_rules, read-Counting, send_ack-Counting, fail_bulk-Counting, next_ack-Counting)
        depth 12
