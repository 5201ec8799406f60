-- ===== src/Session/Broker/Download.antt =====
-- What a download delivers: it can be finished only when exactly the size has come that was asked
-- for, and it does not go on after a failure.
pub mod Exact
pub mod Counting
pub mod Begins
pub mod Traces
use pbns.Common.{
  sym, ap, ◌≢◌, ◌⊎◌, inl, inr, ◌++◌, ◌*◌, ◌∙◌, ℕ, zero, suc, ◌+◌, ◌-◌, ◌%◌, ◌^◌, ◌≤◌, ◌<◌, ◌≡◌,
  refl, Bool, true, false, not, ◌&&◌, ◌||◌, Option, none, some, List, [], ◌∷◌, ltb, ◌==◌,
  if◌then◌else◌, length, Status, ok, err, Error, state, arith,
}
use pbns.Common.Memory.{View, Pointer, given}
use pbns.Common.Actions.{
  Action, Answer, returns, fails, unfinished, continue, settle, ◌>>◌, raise, guard, pure, ignore,
  rescue,
}
use pbns.Common.Words.{u32_be, uint32_max}
use pbns.Wire.Frame.{ack}
use pbns.Session.Broker.Link.{frame_of}
use pbns.Session.Stream.{Stream}
use pbns.Session.Broker.Types.{
  Transport, Platform, ErrorCodec, Broker, Live, Response, Task, the_broker, update,
}
use pbns.Session.Broker.Bulk.{
  bulk_window, send_ack, fail_bulk, bulk_round, bulk_receive, bulk_ack, bulk_finish, bulk_is_over,
}

module _ {W : Type 0} (t : Transport W) (p : Platform W) where
  -- A session that has failed refuses to go on, and stays as it is.
  bulk_receive-failed :
      (codec : ErrorCodec) (fuel : ℕ) (s : Live W)
      → s.broker.bulk_failed ≡ true
      → bulk_receive t p codec fuel given s ≡ (fails state, s)
  unfolding bulk_receive settle the_broker
  bulk_receive-failed codec fuel s h = ground arith

  bulk_ack-failed :
      (next window ptr : ℕ) (s : Live W)
      → s.broker.bulk_failed ≡ true
      → bulk_ack t p next window ptr s ≡ (fails state, s)
  unfolding bulk_ack settle the_broker
  bulk_ack-failed next window ptr s h = ground arith

  bulk_finish-failed :
      (s : Live W) → s.broker.bulk_failed ≡ true → bulk_finish t p s ≡ (fails state, s)
  unfolding bulk_finish settle the_broker
  bulk_finish-failed s h = ground arith

pub fails-ne-returns : {e : Error} → fails e ≢ returns (tt {0})
fails-ne-returns h = ground (arith, h)

module _ {W A : Type 0} where
  rescued :
      (a : Answer A) (v u : Live W) (e : Error)
      → continue pure (λ x. ignore fail_bulk >> raise x) a v ≡ (fails e, u)
      → u.broker.bulk_failed ≡ true
  unfolding fail_bulk update settle
  rescued (returns x) v u e h = ground arith
  rescued (fails x) v u e h = ground arith
  rescued unfinished v u e h = ground arith

  rescue-fails :
      (m : Task W A) (s u : Live W) (e : Error)
      → rescue m fail_bulk s ≡ (fails e, u)
      → u.broker.bulk_failed ≡ true
  unfolding settle
  rescue-fails m s u e h = rescued (m s).0 (m s).1 u e h

module _ {W : Type 0} where
  then_count :
      (a : Answer Unit) (v u : Live W) (e : Error) (count : Task W Unit)
      → ((w : Live W) → (count w).0 ≡ returns tt)
      → continue (λ _. count) raise a v ≡ (fails e, u)
      → let r : Answer Unit × Live W = (a, v) in r ≡ (fails e, u)
  unfolding settle
  then_count (returns x) v u e count counts h =
      absurd (fails-ne-returns (ap (λ r. r.0) (sym h) ∙ counts v))
  then_count (fails x) v u e count counts h = h
  then_count unfinished v u e count counts h = h

  rescue_then-fails :
      (m count : Task W Unit) (s u : Live W) (e : Error)
      → ((w : Live W) → (count w).0 ≡ returns tt)
      → (rescue m fail_bulk >> count) s ≡ (fails e, u)
      → u.broker.bulk_failed ≡ true
  unfolding settle
  rescue_then-fails m count s u e counts h =
      rescue-fails m s u e (then_count _ _ u e count counts h)

-- An acknowledgement of the frames that were taken, with its window, while there is a number left.
abbrev pub ack_is_due : Broker → ℕ → ℕ → Bool
ack_is_due b next window =
    not (next == 0)
    && next == b.stream.next_sequence
    && next == (b.bulk_next_ack_sequence + 1) * bulk_window
    && window == bulk_window
    && not (b.bulk_next_ack_sequence == uint32_max)

module _ {W : Type 0} (t : Transport W) (p : Platform W) where
  pub bulk_receive_over :
      (codec : ErrorCodec) (fuel : ℕ) (s : Live W)
      → bulk_is_over s.broker ≡ true
      → bulk_receive t p codec fuel given s ≡ (fails state, s)
  unfolding bulk_receive settle the_broker
  bulk_receive_over codec fuel s over = rw (over, bulk_receive, settle) refl

  pub bulk_receive_live :
      (codec : ErrorCodec) (fuel : ℕ) (s : Live W)
      → bulk_is_over s.broker ≡ false
      → bulk_receive t p codec fuel given s ≡ rescue (bulk_round t p codec fuel) fail_bulk s
  unfolding bulk_receive settle the_broker
  bulk_receive_live codec fuel s live = rw (live, bulk_receive, settle) refl

  pub bulk_ack_due :
      (next window ptr : ℕ) (s : Live W)
      → bulk_is_over s.broker ≡ false
      → ack_is_due s.broker next window ≡ true
      → (sent : Task W Unit) × (count : Task W Unit) × (bulk_ack t p next window ptr s
          ≡ (rescue sent fail_bulk >> count) s)
        × ((u : Live W) → (count u).0 ≡ returns tt)
  unfolding bulk_ack settle the_broker update
  bulk_ack_due next window ptr s live due =
      let payload = u32_be next ++ u32_be window in
      let ready : (next == 0
            || not (next == s.broker.stream.next_sequence)
            || not (next == (s.broker.bulk_next_ack_sequence + 1) * bulk_window)
            || not (window == bulk_window)
            || s.broker.bulk_next_ack_sequence == uint32_max)
          ≡ false =
        ground (arith, due) in
      (
        send_ack t p (frame_of s.broker ack s.broker.bulk_next_ack_sequence)
            (record { ptr = ptr; bytes = payload }),
        update λ c. record c { bulk_next_ack_sequence = c.bulk_next_ack_sequence + 1 },
        rw (live, ready, bulk_ack, settle) refl,
        λ u. refl,
      )

  -- Whether a call of a download that goes on has failed with `e`: a call for a chunk, or an
  -- acknowledgement that is due.
  abbrev pub HasFailed : ErrorCodec → ℕ → Live W → Live W → Error → Type 0
  HasFailed codec fuel s u e =
      (bulk_receive t p codec fuel given s ≡ (fails e, u))
      ⊎ (next : ℕ) × (window : ℕ) × (ptr : ℕ) × (ack_is_due s.broker next window ≡ true)
        × (bulk_ack t p next window ptr s ≡ (fails e, u))

  HasFailed-failed :
      (codec : ErrorCodec) (fuel : ℕ) (s u : Live W) (e : Error)
      → bulk_is_over s.broker ≡ false
      → HasFailed codec fuel s u e
      → u.broker.bulk_failed ≡ true
  HasFailed-failed codec fuel s u e live (inl h) =
      rescue-fails (bulk_round t p codec fuel) s u e (sym (bulk_receive_live codec fuel s live) ∙ h)
  HasFailed-failed codec fuel s u e live (inr (next, window, ptr, due, h)) =
      let (sent, count, same, counts) = bulk_ack_due next window ptr s live due in
      rescue_then-fails sent count s u e counts (sym same ∙ h)

  -- Once a call of a download that goes on has failed, for whatever reason, be it the call for a chunk
  -- or an acknowledgement that is due, the download gives no more and can be neither acknowledged nor
  -- finished: all these calls are refused with `STATE` and change nothing.
  pub download_sticky :
      (codec : ErrorCodec) (fuel : ℕ) (s u : Live W) (e : Error)
      → bulk_is_over s.broker ≡ false
      → HasFailed codec fuel s u e
      → (bulk_receive t p codec fuel given u ≡ (fails state, u))
        × ((next window ptr : ℕ) → bulk_ack t p next window ptr u ≡ (fails state, u))
        × (bulk_finish t p u ≡ (fails state, u))
  download_sticky codec fuel s u e live h =
      let failed = HasFailed-failed codec fuel s u e live h in
      (
        bulk_receive-failed t p codec fuel u failed,
        λ next window ptr. bulk_ack-failed t p next window ptr u failed,
        bulk_finish-failed t p u failed,
      )
