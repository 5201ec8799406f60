-- ===== src/Session/Broker/Sessions/Resets.antt =====
-- A broker that was reset: its link is closed, and every call is refused until it is set up again.
use pbns.Common.{ℕ, ◌≡◌, refl, Bool, true, false, Option, List, Error, state, argument}
use pbns.Common.Memory.{View, Pointer}
use pbns.Common.Actions.{Action, settle, raise, pure}
use pbns.Common.Actions.Triples.{
  Triple, Triple-bind, Triple-pure, Triple-guard-bind, Triple-required-bind, Triple-ignore-bind,
}
use pbns.Session.Broker.Types.{
  Transport, Platform, ErrorCodec, Broker, zero_broker, Live, the_broker, update,
}
use pbns.Session.Broker.Link.{cancel_request}
use pbns.Session.Broker.Receive.{receive}
use pbns.Session.Broker.Bulk.{bulk_begin, bulk_receive, bulk_ack, bulk_finish}
use pbns.Session.Broker.Upload.{upload_begin, upload_send, upload_finish}
use pbns.Session.Broker.Request.{broker_request, reset, storage_of}
use pbns.Session.Broker.Storage.{wipe_request_storage}
use pbns.Session.Broker.Named.{Triple-the_broker}
use pbns.Session.Broker.Sessions.{Promises, Triple-update}
use pbns.Session.Broker.Sessions.Ends.{Idle, Running, Triple-read}
use pbns.Session.Broker.Sessions.Requests.{cancel_request-Idle}

-- A broker that is not set up, over `n` links of others.
pub record Off {W : Type 0} (links : W → ℕ) (n : ℕ) (s : Live W) : Type 0 where
  pub uninitialized : s.broker.initialized ≡ false
  pub closed : s.broker.opened ≡ false
  pub inactive : s.broker.active ≡ false
  pub counted : links s.world ≡ n

module _ {W : Type 0} {links : W → ℕ} {n : ℕ} where
  Off-zero :
      {F : Error → Live W → Type 0}
      → Triple
          (Idle links n)
          (settle
            (update (wipe_request_storage false))
            (λ _.
              settle the_broker
                (λ c. settle (update (λ _. zero_broker)) (λ _. pure (storage_of c)) raise)
                raise)
            raise)
          (λ _ s. Off links n s)
          F
  Off-zero = Triple-bind {Q = λ _ s. links s.world ≡ n} (Triple-update _ λ s k. k.counted) λ _.
      Triple-bind (Triple-the_broker {Q = λ _ s. links s.world ≡ n} (λ s h. h)) λ c.
        Triple-bind {Q = λ _ s. Off links n s}
          (Triple-update _
            λ s k. record { uninitialized = refl; closed = refl; inactive = refl; counted = k })
          λ _. Triple-pure (storage_of c) (λ s h. h)

  module _ (t : Transport W) (p : Platform W) where
    pub reset-Idle :
        {F : Error → Live W → Type 0} → Triple (Idle links n) (reset t p) (λ _ s. Off links n s) F
    unfolding reset
    reset-Idle =
        Triple-read
          λ b i o a. rw (i, o, a) (Triple-bind (Triple-pure tt (λ s h. h)) (λ _. Off-zero))

    pub reset-Running :
        {F : Error → Live W → Type 0} {ticks : W → ℕ} {rate : ℕ}
        → Promises t p links ticks rate
        → Triple (Running links n) (reset t p) (λ _ s. Off links n s) F
    unfolding reset
    reset-Running c =
        Triple-read λ b i o a. rw (i, a) (Triple-ignore-bind (cancel_request-Idle c) Off-zero)

module _ {W A : Type 0} {links : W → ℕ} {n : ℕ} {R : A → Live W → Type 0}
    {F : Error → Live W → Type 0} where
  read_Off :
      {f : Broker → Action (Live W) A}
      → ((b : Broker) → b.initialized ≡ false → Triple (Off links n) (f b) R F)
      → Triple (Off links n) (settle the_broker f raise) R F
  unfolding settle the_broker
  read_Off h = record { at = λ s k. (h s.broker k.uninitialized).at s k }

-- The call fails, and the broker stays as it is.
abbrev pub Refused : {W A : Type 0} → (W → ℕ) → ℕ → Action (Live W) A → Type 0
Refused links n m = Triple (Off links n) m (λ _ s. ⊥) (λ _ s. Off links n s)

module _ {W : Type 0} {links : W → ℕ} {n : ℕ} (t : Transport W) (p : Platform W) where
  pub broker_request-Off :
      (codec : ErrorCodec) (fuel service_id : ℕ) (supplied : Option (List ℕ)) (body : View) (ms : ℕ)
      (r : Pointer)
      → Refused links n (broker_request t p codec fuel service_id supplied body ms r)
  unfolding broker_request
  broker_request-Off codec fuel service_id supplied body ms r =
      Triple-guard-bind _ argument (λ _ s h. h)
        λ _. read_Off λ b i. rw i (Triple-guard-bind true state (λ _ s h. h) (λ q. cc))

  pub receive-Off :
      (codec : ErrorCodec) (fuel : ℕ) (r : Pointer) → Refused links n (receive t p codec fuel r)
  unfolding receive
  receive-Off codec fuel r =
      Triple-guard-bind _ argument (λ _ s h. h)
        λ _. read_Off λ b i. rw i (Triple-guard-bind true state (λ _ s h. h) (λ q. cc))

  pub bulk_begin-Off :
      (service_id : ℕ) (id : Option (List ℕ)) (body : View) (size ms : ℕ)
      → Refused links n (bulk_begin t p service_id id body size ms)
  unfolding bulk_begin
  bulk_begin-Off service_id id body size ms =
      Triple-required-bind id (λ s h. h)
        λ _.
          Triple-guard-bind _ argument (λ _ s h. h)
            λ _. read_Off λ b i. rw i (Triple-guard-bind true state (λ _ s h. h) (λ q. cc))

  pub bulk_receive-Off :
      (codec : ErrorCodec) (fuel : ℕ) (r : Pointer)
      → Refused links n (bulk_receive t p codec fuel r)
  unfolding bulk_receive
  bulk_receive-Off codec fuel r =
      Triple-guard-bind _ argument (λ _ s h. h)
        λ _. read_Off λ b i. rw i (Triple-guard-bind true state (λ _ s h. h) (λ q. cc))

  pub bulk_ack-Off : (next window ptr : ℕ) → Refused links n (bulk_ack t p next window ptr)
  unfolding bulk_ack
  bulk_ack-Off next window ptr =
      read_Off λ b i. rw i (Triple-guard-bind true state (λ _ s h. h) (λ q. cc))

  pub bulk_finish-Off : Refused links n (bulk_finish t p)
  unfolding bulk_finish
  bulk_finish-Off = read_Off λ b i. rw i (Triple-guard-bind true state (λ _ s h. h) (λ q. cc))

  pub upload_begin-Off :
      (service_id : ℕ) (id : Option (List ℕ)) (body : View) (ms : ℕ)
      → Refused links n (upload_begin t p service_id id body ms)
  unfolding upload_begin
  upload_begin-Off service_id id body ms =
      Triple-required-bind id (λ s h. h)
        λ _.
          Triple-guard-bind _ argument (λ _ s h. h)
            λ _. read_Off λ b i. rw i (Triple-guard-bind true state (λ _ s h. h) (λ q. cc))

  pub upload_send-Off :
      (codec : ErrorCodec) (fuel : ℕ) (v : View) (final : Bool) (r : Pointer)
      → Refused links n (upload_send t p codec fuel v final r)
  unfolding upload_send
  upload_send-Off codec fuel v final r =
      Triple-guard-bind _ argument (λ _ s h. h)
        λ _. read_Off λ b i. rw i (Triple-guard-bind true state (λ _ s h. h) (λ q. cc))

  pub upload_finish-Off : Refused links n (upload_finish t p)
  unfolding upload_finish
  upload_finish-Off = read_Off λ b i. rw i (Triple-guard-bind true state (λ _ s h. h) (λ q. cc))

  pub cancel_request-Off : Refused links n (cancel_request t p)
  unfolding cancel_request
  cancel_request-Off = read_Off λ b i. rw i (Triple-guard-bind true state (λ _ s h. h) (λ q. cc))

  pub reset-Off :
      {F : Error → Live W → Type 0} → Triple (Off links n) (reset t p) (λ _ s. Off links n s) F
  unfolding reset
  reset-Off = read_Off λ b i. rw i (Triple-pure (storage_of b) (λ s h. h))
