-- ===== src/Session/Broker/Sessions/Wiped.antt =====
-- What the end of a session leaves in the storage of the broker.
use pbns.Common.{
  ℕ, ◌≡◌, sym, ap, Bool, true, false, List, Error, arith, state, length, replicate,
  length-replicate,
}
use pbns.Common.Actions.{status_of}
use pbns.Common.Actions.Triples.{
  Contract, Triple-bind, Triple-pure, Triple-raise, Triple-rescue, Triple-guard-bind,
  Triple-ignore-bind, Triple-if, Triple-from, Triple-status_of, Triple-settle_status,
  Contract-weaken, Gives-trivial,
}
use pbns.Wire.RecordReader
use pbns.Wire.RecordReader.{Reader}
use pbns.Session.Broker.Types.{Transport, Platform, Broker, Live, Task, Response, update}
use pbns.Session.Broker.Storage.{wipe_request_storage}
use pbns.Session.Broker.Link.{ended, finish_session, cancel_session, cancel_request}
use pbns.Session.Broker.Bulk.{forget_request}
use pbns.Session.Broker.Request.{wipe_decoded, end_answered, end_failed, is_timeout}
use pbns.Session.Broker.Named.{Triple-the_broker}
use pbns.Session.Broker.Sessions.{Holds, Triple-update}

-- All bytes are zero.
abbrev pub IsZero : List ℕ → Type 0
IsZero xs = xs ≡ replicate (length xs) 0

-- Nothing is left but the decoded payload.
pub record Scrubbed {W : Type 0} (s : Live W) : Type 0 where
  pub encoded : IsZero s.broker.reader.storage.bytes
  pub raw_scratch : IsZero s.broker.raw_scratch.bytes
  pub receive : IsZero s.broker.receive.bytes

-- Nothing is left.
pub record Wiped {W : Type 0} (s : Live W) : Type 0 where
  pub scrubbed : Scrubbed s
  pub decoded : IsZero s.broker.decoded.bytes

pub replicate-IsZero : (n : ℕ) → IsZero (replicate n 0)
replicate-IsZero n = ap (λ k. replicate k 0) (sym (length-replicate n 0))

pub reset-bytes : (r : Reader) → (RecordReader.reset r).storage.bytes ≡ r.storage.bytes
unfolding RecordReader.reset
reset-bytes r = ground arith

module _ {W : Type 0} where
  wipe-Scrubbed :
      (keep : Bool) (b : Broker) (w : W)
      → Scrubbed (record { broker = wipe_request_storage keep b; world = w })
  unfolding wipe_request_storage
  wipe-Scrubbed keep b w = record {
    encoded = replicate-IsZero _;
    raw_scratch = replicate-IsZero _;
    receive = replicate-IsZero _;
  }

  wipe-Wiped :
      (b : Broker) (w : W) → Wiped (record { broker = wipe_request_storage false b; world = w })
  unfolding wipe_request_storage
  wipe-Wiped b w = record { scrubbed = wipe-Scrubbed false b w; decoded = replicate-IsZero _ }

  pub forget-Wiped :
      {P : Live W → Type 0} {F : Error → Live W → Type 0} (f : Broker → Broker)
      → Contract P (update (λ b. forget_request (f b))) (λ _ s. Wiped s) F (λ _. Unit)
  unfolding forget_request
  forget-Wiped f = Triple-update _ (λ s h. wipe-Wiped _ s.world)

  -- An action of which only the status counts.
  any_status :
      {P : Live W → Type 0} {F : Error → Live W → Type 0} (m : Task W Unit)
      → Contract P (status_of m) (λ _ _. Unit) F (λ _. Unit)
  any_status m = Triple-status_of (Gives-trivial m)

  finish_session-Scrubbed :
      (t : Transport W) (p : Platform W) (keep : Bool)
      → Contract
          (λ (s : Live W). Unit)
          (finish_session t p keep)
          (λ _ s. Scrubbed s)
          (λ _ s. Scrubbed s)
          (λ _. Unit)
  unfolding finish_session
  finish_session-Scrubbed t p keep =
      Triple-bind (Triple-the_broker {Q = λ _ _. Unit} (λ s h. tt)) λ b.
        Triple-bind (any_status _) λ closed.
          Triple-bind (Triple-update (ended keep) (λ s h. wipe-Scrubbed keep _ s.world))
            λ _. Triple-settle_status closed (λ e s h. h) (λ s h. h)

  pub finish_session-Wiped :
      (t : Transport W) (p : Platform W)
      → Contract
          (λ (s : Live W). Unit)
          (finish_session t p false)
          (λ _ s. Wiped s)
          (λ _ s. Wiped s)
          (λ _. Unit)
  unfolding finish_session
  finish_session-Wiped t p = Triple-bind (Triple-the_broker {Q = λ _ _. Unit} (λ s h. tt)) λ b.
      Triple-bind (any_status _) λ closed.
        Triple-bind (Triple-update (ended false) (λ s h. wipe-Wiped _ s.world))
          λ _. Triple-settle_status closed (λ e s h. h) (λ s h. h)

  wipe_decoded-Wiped :
      {F : Error → Live W → Type 0}
      → Contract (λ (s : Live W). Scrubbed s) (update wipe_decoded) (λ _ s. Wiped s) F (λ _. Unit)
  unfolding wipe_decoded
  wipe_decoded-Wiped = Triple-update _ λ s h. record {
    scrubbed = record { encoded = h.encoded; raw_scratch = h.raw_scratch; receive = h.receive };
    decoded = replicate-IsZero _;
  }

  cancel_session-Wiped :
      (t : Transport W) (p : Platform W)
      → Contract
          (λ (s : Live W). Unit)
          (cancel_session t p)
          (λ _ s. Wiped s)
          (λ _ s. Wiped s)
          (λ _. Unit)
  unfolding cancel_session
  cancel_session-Wiped t p = Triple-bind (any_status _) λ _. Triple-bind (any_status _) λ _.
      Triple-bind (Triple-status_of (finish_session-Wiped t p))
        λ _. Triple-settle_status _ (λ e s h. h) (λ s h. h)

  pub end_answered-Wiped :
      (t : Transport W) (p : Platform W) (r : Response)
      → Contract
          (λ (s : Live W). Unit)
          (end_answered t p r)
          (λ _ s. Scrubbed s)
          (λ _ s. Wiped s)
          (λ _. Unit)
  unfolding end_answered
  end_answered-Wiped t p r =
      Triple-bind (Triple-rescue (finish_session-Scrubbed t p true) wipe_decoded-Wiped)
        λ _. Triple-pure r (λ s h. h)

module _ {W : Type 0} {links : W → ℕ} {m : ℕ} where
  cancel_request-Wiped :
      (t : Transport W) (p : Platform W)
      → Contract
          (Holds links true true m)
          (cancel_request t p)
          (λ _ s. Wiped s)
          (λ _ s. Wiped s)
          (λ _. Unit)
  unfolding cancel_request
  cancel_request-Wiped t p =
      Triple-bind
        (Triple-the_broker {Q = λ b _. (b.initialized ≡ true) × (b.active ≡ true)}
          (λ s k. (k.initialized, k.active)))
        λ b.
          Triple-guard-bind _ state (λ q s h. absurd (ground (arith, h, q)))
            λ _. Triple-from (λ s h. tt) (cancel_session-Wiped t p)

  pub end_failed-Wiped :
      (t : Transport W) (p : Platform W) (e : Error)
      → Contract
          (Holds links true true m)
          (end_failed t p e)
          (λ _ s. Scrubbed s)
          (λ _ s. Wiped s)
          (λ _. Unit)
  unfolding end_failed
  end_failed-Wiped t p e =
      Triple-if (is_timeout e) _ _
        (λ _. Triple-ignore-bind (cancel_request-Wiped t p) (Triple-raise e (λ s h. h)))
        λ _.
          Triple-ignore-bind
            (Triple-rescue
              (Triple-from (λ s h. tt)
                (Contract-weaken (λ _ s h. h) (λ _ s h. h.scrubbed) (λ s h. h)
                  (finish_session-Wiped t p)))
              wipe_decoded-Wiped)
            (Triple-raise e (λ s h. h))
