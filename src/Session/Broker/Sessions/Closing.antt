-- ===== src/Session/Broker/Sessions/Closing.antt =====
-- The calls that leave no session open: a request, and an upload that fails.
use pbns.Common.{
  ℕ, ◌+◌, ◌*◌, ◌^◌, ◌<◌, ◌≡◌, ◌≢◌, Bool, true, false, Option, List, arith, length, ◌==◌, refl,
  if◌then◌else◌,
}
use pbns.Common.Memory.{View, Pointer, given, view_is_valid}
use pbns.Common.Actions.{Answer, returns, fails, unfinished, settle, rescue, ◌>>◌, pure}
use pbns.Common.Actions.Triples.{Triple, Triple-rescue, Leaves}
use pbns.Common.Actions.Keeps.{Leaving}
use pbns.Session.Broker.Types.{
  Transport, Platform, ErrorCodec, Live, Response, zero_response, the_broker,
}
use pbns.Session.Broker.Upload.{upload_frames, upload_answer, abort_upload, upload_send}
use pbns.Session.Broker.Request.{broker_request}
use pbns.Session.Broker.Sessions.{Promises, Holds, session_rules}
use pbns.Session.Broker.Sessions.Steps.{upload_frames-Keeps, upload_answer-Keeps}
use pbns.Session.Broker.Sessions.Ends.{Idle, Running}
use pbns.Session.Broker.Sessions.Requests.{broker_request-Idle}
use pbns.Session.Broker.Sessions.Transfers.{abort_upload-Idle}

module _ {W A : Type 0} where
  -- An answer that has come, with what holds then.
  both_Leaves :
      (Q : Live W → Type 0) (a : Answer A) (u : Live W)
      → Leaves (λ _ s. Q s) (λ _ s. Q s) (λ _. ⊥) a u
      → (a ≢ unfinished) × Q u
  both_Leaves Q (returns x) u h = (λ e. ground (arith, e), h)
  both_Leaves Q (fails x) u h = (λ e. ground (arith, e), h)
  both_Leaves Q unfinished u h = absurd h

-- With a world that keeps its promises and fuel for every tick of a deadline: a request on an
-- initialized broker that has no session comes to its end, and whatever it returns, the broker has
-- no session then and has left as many links open as there were.
pub broker_request_closes :
    {W : Type 0} {links ticks : W → ℕ} {rate n fuel : ℕ} {t : Transport W} {p : Platform W}
    → Promises t p links ticks rate
    → rate * 2 ^ 64 + 1 < fuel
    → (codec : ErrorCodec) (service_id : ℕ) (supplied : Option (List ℕ)) (body : View) (ms : ℕ)
      (r : Pointer) (s : Live W)
    → Holds links false false n s
    → let (answer, u) = broker_request t p codec fuel service_id supplied body ms r s in
      (answer ≢ unfinished) × Holds links false false n u
broker_request_closes {links} {n} c enough codec service_id supplied body ms r s h =
    both_Leaves (Holds links false false n) _ _
      ((broker_request-Idle c enough codec service_id supplied body ms r).at s h)

abbrev pub Sent : {W : Type 0} → (W → ℕ) → ℕ → Answer Response → Live W → Type 0
Sent links n (returns r) u = Running links n u
Sent links n (fails e) u = Idle links n u
Sent links n unfinished u = ⊥

module _ {W : Type 0} (links : W → ℕ) (n : ℕ) where
  sent_Leaves :
      (a : Answer Response) (u : Live W)
      → Leaves (λ _ s. Running links n s) (λ _ s. Idle links n s) (λ _. ⊥) a u
      → Sent links n a u
  sent_Leaves (returns r) u h = h
  sent_Leaves (fails e) u h = h
  sent_Leaves unfinished u h = h

module _ {W : Type 0} (t : Transport W) (p : Platform W) where
  -- The guards of an upload that is under way let a part pass.
  upload_send_live :
      (codec : ErrorCodec) (fuel : ℕ) (v : View) (final : Bool) (s : Live W)
      → view_is_valid v ≡ true
      → 0 < length v.bytes
      → s.broker.upload_mode ≡ true
      → s.broker.bulk_mode ≡ false
      → s.broker.initialized ≡ true
      → s.broker.active ≡ true
      → upload_send t p codec fuel v final given s
        ≡ rescue
            (upload_frames t p v final
              >> (if final then upload_answer t p codec fuel else pure zero_response))
            (abort_upload t p)
            s
  unfolding upload_send settle the_broker
  upload_send_live codec fuel v final s valid some_bytes up no_bulk initialized active =
      let no_zero : (length v.bytes == 0) ≡ false = ground arith in
      rw (valid, no_zero, initialized, active, up, no_bulk, upload_send, settle) refl

module _ {W : Type 0} {links ticks : W → ℕ} {rate fuel : ℕ} {t : Transport W} {p : Platform W}
    (c : Promises t p links ticks rate) (enough : rate * 2 ^ 64 + 1 < fuel)
    (codec : ErrorCodec) where
  -- An upload that is under way is given a part: where that fails, the session is over.
  upload_part-Idle :
      {n : ℕ} (v : View) (final : Bool)
      → Triple
          (Running links n)
          (rescue
            (upload_frames t p v final
              >> (if final then upload_answer t p codec fuel else pure zero_response))
            (abort_upload t p))
          (λ _ s. Running links n s)
          (λ _ s. Idle links n s)
  upload_part-Idle v final =
      Triple-rescue
        (Leaving.triple (search (session_rules, upload_frames-Keeps, upload_answer-Keeps c enough)))
        (abort_upload-Idle c)

  -- An upload that is under way is given a part of at least one byte, at an address that is not NULL.
  -- The call comes to its end; if it returns OK the session goes on, and whatever else it returns,
  -- the session is over and its link is closed.
  pub upload_send_closes :
      (v : View) (final : Bool) (s : Live W) (n : ℕ)
      → view_is_valid v ≡ true
      → 0 < length v.bytes
      → s.broker.upload_mode ≡ true
      → s.broker.bulk_mode ≡ false
      → Holds links true true (n + 1) s
      → let (answer, u) = upload_send t p codec fuel v final given s in Sent links n answer u
  upload_send_closes v final s n valid some_bytes up no_bulk h =
      rw
        (upload_send_live t p codec fuel v final s valid some_bytes up no_bulk h.initialized
          h.active)
        (sent_Leaves links n _ _ ((upload_part-Idle v final).at s h))
