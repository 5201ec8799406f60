-- ===== src/Session/Broker/Sessions/Calls.antt =====
-- The calls of a broker, and those that are refused where there is no session.
use pbns.Common.{ℕ, ◌⊎◌, Bool, true, Option, none, some, List, [], ◌∷◌, state}
use pbns.Common.Memory.{View, Pointer}
use pbns.Common.Actions.{Answer, unfinished, settle, raise, pure}
use pbns.Common.Actions.Triples.{
  Triple, Triple-pure, Triple-raise, Triple-guard-bind, Triple-settle,
}
use pbns.Session.Broker.Types.{Transport, Platform, ErrorCodec, Live, Task}
use pbns.Session.Broker.Link.{cancel_request}
use pbns.Session.Broker.Receive.{receive}
use pbns.Session.Broker.Bulk.{bulk_begin, bulk_receive, bulk_ack, bulk_finish}
use pbns.Session.Broker.Upload.{upload_begin, upload_send, upload_finish}
use pbns.Session.Broker.Request.{broker_request, request_with_id, reset}
use pbns.Session.Broker.Sessions.Ends.{Idle, Running, Triple-read}
use pbns.Session.Broker.Sessions.Resets.{Off}

-- The calls that a client makes of a broker that `init` has set up, with their arguments.
pub data Call : Type 0 where
  request_once : ℕ → Option (List ℕ) → View → ℕ → Pointer → Call
  request_named : ℕ → Option (List ℕ) → View → ℕ → Pointer → Call
  receive_more : Pointer → Call
  begin_download : ℕ → Option (List ℕ) → View → ℕ → ℕ → Call
  next_chunk : Pointer → Call
  acknowledge : ℕ → ℕ → ℕ → Call
  finish_download : Call
  begin_upload : ℕ → Option (List ℕ) → View → ℕ → Call
  next_part : View → Bool → Pointer → Call
  finish_upload : Call
  cancel_it : Call
  reset_it : Call

module _ {W : Type 0} where
  -- A call of which only the status counts.
  abbrev pub silent : {A : Type 0} → Task W A → Task W Unit
  silent m = settle m (λ _. pure tt) raise

-- Nothing comes after a call that does not end.
abbrev pub after_call : {W : Type 0} → Answer (Unit {0}) → Option (Live W) → Option (Live W)
after_call unfinished rest = none
after_call _ rest = rest

module _ {W : Type 0} (t : Transport W) (p : Platform W) (codec : ErrorCodec) (fuel : ℕ) where
  unfoldable pub perform : Call → Task W Unit
  perform (request_once service id body ms r) =
      silent (broker_request t p codec fuel service id body ms r)
  perform (request_named service id body ms r) =
      silent (request_with_id t p codec fuel service id body ms r)
  perform (receive_more r) = silent (receive t p codec fuel r)
  perform (begin_download service id body size ms) = silent (bulk_begin t p service id body size ms)
  perform (next_chunk r) = silent (bulk_receive t p codec fuel r)
  perform (acknowledge next window ptr) = silent (bulk_ack t p next window ptr)
  perform finish_download = silent (bulk_finish t p)
  perform (begin_upload service id body ms) = silent (upload_begin t p service id body ms)
  perform (next_part v final r) = silent (upload_send t p codec fuel v final r)
  perform finish_upload = silent (upload_finish t p)
  perform cancel_it = silent (cancel_request t p)
  perform reset_it = silent (reset t p)

  -- One call after the other, whatever they return; `none` if one does not come to its end.
  unfoldable pub run : List Call → Live W → Option (Live W)
  unfolding perform
  run [] s = some s
  run (c ∷ cs) s = let (answer, u) = perform c s in after_call answer (run cs u)

-- Between two calls there is no session, or one that runs, or the broker has been reset.
abbrev pub Balanced : {W : Type 0} → (W → ℕ) → ℕ → Live W → Type 0
Balanced links n s = Idle links n s ⊎ Running links n s ⊎ Off links n s

module _ {W A : Type 0} {links : W → ℕ} {n : ℕ} {P Q E : Live W → Type 0} where
  pub silent-Balanced :
      {m : Task W A}
      → Triple P m (λ _ s. Q s) (λ _ s. E s)
      → ((s : Live W) → Q s → Balanced links n s)
      → ((s : Live W) → E s → Balanced links n s)
      → Triple P (silent m) (λ _ s. Balanced links n s) (λ _ s. Balanced links n s)
  silent-Balanced km hq he = Triple-settle km (λ _. Triple-pure tt hq) (λ e. Triple-raise e he)

module _ {W : Type 0} {links : W → ℕ} {n : ℕ} where
  -- What needs a session is refused where there is none.
  pub finishes_refused :
      (t : Transport W) (p : Platform W)
      → Triple (Idle links n) (bulk_finish t p) (λ _ s. ⊥) (λ _ s. Idle links n s)
  unfolding bulk_finish
  finishes_refused t p =
      Triple-read λ b i o a. rw (i, a) (Triple-guard-bind true state (λ _ s h. h) (λ q. cc))

  pub upload_finish_refused :
      (t : Transport W) (p : Platform W)
      → Triple (Idle links n) (upload_finish t p) (λ _ s. ⊥) (λ _ s. Idle links n s)
  unfolding upload_finish
  upload_finish_refused t p =
      Triple-read λ b i o a. rw (i, a) (Triple-guard-bind true state (λ _ s h. h) (λ q. cc))

  pub cancel_refused :
      (t : Transport W) (p : Platform W)
      → Triple (Idle links n) (cancel_request t p) (λ _ s. ⊥) (λ _ s. Idle links n s)
  unfolding cancel_request
  cancel_refused t p =
      Triple-read λ b i o a. rw (i, a) (Triple-guard-bind true state (λ _ s h. h) (λ q. cc))

  pub upload_send_refused :
      (t : Transport W) (p : Platform W) (codec : ErrorCodec) (fuel : ℕ) (v : View) (final : Bool)
      (r : Pointer)
      → Triple
          (Idle links n)
          (upload_send t p codec fuel v final r)
          (λ _ s. ⊥)
          (λ _ s. Idle links n s)
  unfolding upload_send
  upload_send_refused t p codec fuel v final r =
      Triple-guard-bind _ _ (λ _ s h. h)
        λ _. Triple-read λ b i o a. rw (i, a) (Triple-guard-bind true state (λ _ s h. h) (λ q. cc))
