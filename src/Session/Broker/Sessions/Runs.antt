-- ===== src/Session/Broker/Sessions/Runs.antt =====
-- Any sequence of the calls of a broker, from its start.
use pbns.Common.{
  ℕ, ◌+◌, ◌*◌, ◌^◌, ◌<◌, ◌≡◌, inl, inr, refl, ◌∙◌, Option, some, List, [], ◌∷◌, ok, arith,
  if◌then◌else◌, none, ◌⊎◌, argument,
}
use pbns.Common.Actions.{Answer, returns, fails, unfinished}
use pbns.Common.Actions.Triples.{Triple, Leaves}
use pbns.Session.Broker.Types.{Transport, Platform, ErrorCodec, BrokerStorage, Live, Task}
use pbns.Session.Broker.Storage
use pbns.Session.Broker.Request.{request_with_id}
use pbns.Session.Broker.Sessions.Resets.{
  Off, Refused, reset-Idle, reset-Running, reset-Off, broker_request-Off, receive-Off,
  bulk_begin-Off, bulk_receive-Off, bulk_ack-Off, bulk_finish-Off, upload_begin-Off,
  upload_send-Off, upload_finish-Off, cancel_request-Off,
}
use pbns.Common.Actions.Keeps.{Keeps-raise}
use pbns.Session.Broker.Sessions.{Promises}
use pbns.Session.Broker.Sessions.Steps.{receive-Keeps}
use pbns.Session.Broker.Sessions.Ends.{Idle, Running}
use pbns.Session.Broker.Sessions.Requests.{
  cancel_request-Idle, broker_request-Idle, broker_request-Running,
}
use pbns.Session.Broker.Sessions.Transfers.{
  bulk_begin-Running, bulk_receive-Keeps, bulk_ack-Keeps, bulk_finish-Idle, upload_begin-Running,
  upload_send-Idle, upload_finish-Idle, bulk_begin-refused, upload_begin-refused,
}
use pbns.Session.Broker.Sessions.Calls.{
  silent, reset_it, request_named, Call, request_once, receive_more, begin_download, next_chunk,
  acknowledge, finish_download, begin_upload, next_part, finish_upload, cancel_it, perform, run,
  Balanced, after_call, silent-Balanced, finishes_refused, upload_finish_refused, cancel_refused,
  upload_send_refused,
}

ended_call :
    {W : Type 0} (P : Live W → Type 0) (a : Answer Unit) (u : Live W)
    → Leaves (λ _ s. P s) (λ _ s. P s) (λ _. ⊥) a u
    → P u × ((rest : Option (Live W)) → after_call a rest ≡ rest)
ended_call P (returns a) u h = (h, λ rest. refl)
ended_call P (fails e) u h = (h, λ rest. refl)
ended_call P unfinished u h = absurd h

module _ {W : Type 0} {links : W → ℕ} {n : ℕ} where
  running : {s : Live W} → Idle links n s ⊎ Running links n s → Balanced links n s
  running (inl k) = inl k
  running (inr k) = inr (inl k)

  Refused-Balanced :
      {A : Type 0} {m : Task W A}
      → Refused links n m
      → Triple (Off links n) (silent m) (λ _ s. Balanced links n s) (λ _ s. Balanced links n s)
  Refused-Balanced km = silent-Balanced km (λ s h. absurd h) (λ s h. inr (inr h))

module _ {W : Type 0} {links ticks : W → ℕ} {rate n fuel : ℕ} {t : Transport W} {p : Platform W}
    (c : Promises t p links ticks rate) (enough : rate * 2 ^ 64 + 1 < fuel)
    (codec : ErrorCodec) where
  perform-Idle :
      (x : Call)
      → Triple
          (Idle links n)
          (perform t p codec fuel x)
          (λ _ s. Balanced links n s)
          (λ _ s. Balanced links n s)
  unfolding perform request_with_id
  perform-Idle (request_once service id body ms r) =
      silent-Balanced (broker_request-Idle c enough codec service id body ms r) (λ s. inl)
        (λ s. inl)
  perform-Idle (request_named service none body ms r) =
      silent-Balanced (Keeps-raise argument).triple (λ s. inl) (λ s. inl)
  perform-Idle (request_named service (some id) body ms r) =
      silent-Balanced (broker_request-Idle c enough codec service (some id) body ms r) (λ s. inl)
        (λ s. inl)
  perform-Idle (receive_more r) =
      silent-Balanced (receive-Keeps c enough codec r).triple (λ s. inl) (λ s. inl)
  perform-Idle (begin_download service id body size ms) =
      silent-Balanced (bulk_begin-Running c service id body size ms) (λ s h. inr (inl h)) (λ s. inl)
  perform-Idle (next_chunk r) =
      silent-Balanced (bulk_receive-Keeps c enough codec r).triple (λ s. inl) (λ s. inl)
  perform-Idle (acknowledge next window ptr) =
      silent-Balanced (bulk_ack-Keeps c next window ptr).triple (λ s. inl) (λ s. inl)
  perform-Idle finish_download = silent-Balanced (finishes_refused t p) (λ s h. absurd h) (λ s. inl)
  perform-Idle (begin_upload service id body ms) =
      silent-Balanced (upload_begin-Running c service id body ms) (λ s h. inr (inl h)) (λ s. inl)
  perform-Idle (next_part v final r) =
      silent-Balanced (upload_send_refused t p codec fuel v final r) (λ s h. absurd h) (λ s. inl)
  perform-Idle finish_upload =
      silent-Balanced (upload_finish_refused t p) (λ s h. absurd h) (λ s. inl)
  perform-Idle cancel_it = silent-Balanced (cancel_refused t p) (λ s h. absurd h) (λ s. inl)
  perform-Idle reset_it =
      silent-Balanced (reset-Idle t p {F = λ _ _. ⊥}) (λ s h. inr (inr h)) (λ s h. absurd h)

  perform-Running :
      (x : Call)
      → Triple
          (Running links n)
          (perform t p codec fuel x)
          (λ _ s. Balanced links n s)
          (λ _ s. Balanced links n s)
  unfolding perform request_with_id
  perform-Running (request_once service id body ms r) =
      silent-Balanced (broker_request-Running t p codec fuel service id body ms r) (λ s h. absurd h)
        (λ s h. inr (inl h))
  perform-Running (request_named service none body ms r) =
      silent-Balanced (Keeps-raise argument).triple (λ s h. inr (inl h)) (λ s h. inr (inl h))
  perform-Running (request_named service (some id) body ms r) =
      silent-Balanced (broker_request-Running t p codec fuel service (some id) body ms r)
        (λ s h. absurd h) (λ s h. inr (inl h))
  perform-Running (receive_more r) =
      silent-Balanced (receive-Keeps c enough codec r).triple (λ s h. inr (inl h))
        (λ s h. inr (inl h))
  perform-Running (begin_download service id body size ms) =
      silent-Balanced (bulk_begin-refused t p service id body size ms) (λ s h. absurd h)
        (λ s h. inr (inl h))
  perform-Running (next_chunk r) =
      silent-Balanced (bulk_receive-Keeps c enough codec r).triple (λ s h. inr (inl h))
        (λ s h. inr (inl h))
  perform-Running (acknowledge next window ptr) =
      silent-Balanced (bulk_ack-Keeps c next window ptr).triple (λ s h. inr (inl h))
        (λ s h. inr (inl h))
  perform-Running finish_download = silent-Balanced (bulk_finish-Idle c) (λ s. inl) (λ s. running)
  perform-Running (begin_upload service id body ms) =
      silent-Balanced (upload_begin-refused t p service id body ms) (λ s h. absurd h)
        (λ s h. inr (inl h))
  perform-Running (next_part v final r) =
      silent-Balanced (upload_send-Idle c enough codec v final r) (λ s h. inr (inl h))
        (λ s. running)
  perform-Running finish_upload = silent-Balanced (upload_finish-Idle c) (λ s. inl) (λ s. running)
  perform-Running cancel_it = silent-Balanced (cancel_request-Idle c) (λ s. inl) (λ s. inl)
  perform-Running reset_it =
      silent-Balanced (reset-Running t p {F = λ _ _. ⊥} c) (λ s h. inr (inr h)) (λ s h. absurd h)

  perform-Off :
      (x : Call)
      → Triple
          (Off links n)
          (perform t p codec fuel x)
          (λ _ s. Balanced links n s)
          (λ _ s. Balanced links n s)
  unfolding perform request_with_id
  perform-Off (request_once service id body ms r) =
      Refused-Balanced (broker_request-Off t p codec fuel service id body ms r)
  perform-Off (request_named service none body ms r) =
      silent-Balanced (Keeps-raise argument).triple (λ s h. inr (inr h)) (λ s h. inr (inr h))
  perform-Off (request_named service (some id) body ms r) =
      Refused-Balanced (broker_request-Off t p codec fuel service (some id) body ms r)
  perform-Off (receive_more r) = Refused-Balanced (receive-Off t p codec fuel r)
  perform-Off (begin_download service id body size ms) =
      Refused-Balanced (bulk_begin-Off t p service id body size ms)
  perform-Off (next_chunk r) = Refused-Balanced (bulk_receive-Off t p codec fuel r)
  perform-Off (acknowledge next window ptr) = Refused-Balanced (bulk_ack-Off t p next window ptr)
  perform-Off finish_download = Refused-Balanced (bulk_finish-Off t p)
  perform-Off (begin_upload service id body ms) =
      Refused-Balanced (upload_begin-Off t p service id body ms)
  perform-Off (next_part v final r) = Refused-Balanced (upload_send-Off t p codec fuel v final r)
  perform-Off finish_upload = Refused-Balanced (upload_finish-Off t p)
  perform-Off cancel_it = Refused-Balanced (cancel_request-Off t p)
  perform-Off reset_it =
      silent-Balanced (reset-Off t p {F = λ _ _. ⊥}) (λ s h. inr (inr h)) (λ s h. absurd h)

  perform-Balanced :
      (x : Call)
      → Triple
          (Balanced links n)
          (perform t p codec fuel x)
          (λ _ s. Balanced links n s)
          (λ _ s. Balanced links n s)
  perform-Balanced x = record {
    at = λ s h. elim h [
      | inl k ↦ (perform-Idle x).at s k
      | inr (inl k) ↦ (perform-Running x).at s k
      | inr (inr k) ↦ (perform-Off x).at s k
    ];
  }

  run_calls-Balanced :
      (calls : List Call) (s : Live W)
      → Balanced links n s
      → (u : Live W) × (run t p codec fuel calls s ≡ some u) × Balanced links n u
  unfolding run
  run_calls-Balanced [] s h = (s, refl, h)
  run_calls-Balanced (x ∷ xs) s h =
      let (answer, u) = perform t p codec fuel x s in
      let (balanced, goes_on) =
        ended_call (Balanced links n) answer u ((perform-Balanced x).at s h) in
      let (v, e, k) = run_calls-Balanced xs u balanced in
      (v, goes_on (run t p codec fuel xs u) ∙ e, k)

init-Idle :
    {W : Type 0} (t : Transport W) (p : Platform W) (links : W → ℕ) (storage : BrokerStorage)
    (w : W)
    → (Storage.init (some t) (some p) storage).0 ≡ ok
    → Idle links
        (links w)
        (record { broker = (Storage.init (some t) (some p) storage).1; world = w })
unfolding Storage.init
init-Idle t p links storage w h = ground (arith)

module _ {W : Type 0} {links : W → ℕ} {n : ℕ} where
  Balanced-counts :
      (s : Live W)
      → Balanced links n s
      → (s.broker.opened ≡ s.broker.active)
        × (links s.world ≡ n + (if s.broker.active then 1 else 0))
  Balanced-counts s (inl k) = ground (arith, k.opened, k.active, k.counted)
  Balanced-counts s (inr (inl k)) = ground (arith, k.opened, k.active, k.counted)
  Balanced-counts s (inr (inr k)) = ground (arith, k.closed, k.inactive, k.counted)

-- Of a broker that `init` has set up, with a world that keeps its promises and with fuel for every
-- tick of a deadline: any sequence of its calls, those of reset among them, comes to its end, and
-- then the broker has opened a link exactly if it has a session that runs, and there is then one link
-- more than at the start, and otherwise as many as there were.
pub run-counts :
    {W : Type 0} {links ticks : W → ℕ} {rate fuel : ℕ} {t : Transport W} {p : Platform W}
    → Promises t p links ticks rate
    → rate * 2 ^ 64 + 1 < fuel
    → (codec : ErrorCodec) (storage : BrokerStorage) (w : W) (calls : List Call)
    → (Storage.init (some t) (some p) storage).0 ≡ ok
    → (u : Live W) × (run t p codec fuel calls
          (record { broker = (Storage.init (some t) (some p) storage).1; world = w })
        ≡ some u)
      × (u.broker.opened ≡ u.broker.active)
      × (links u.world ≡ links w + (if u.broker.active then 1 else 0))
run-counts {links} {t} {p} c enough codec storage w calls h =
    let start = init-Idle t p links storage w h in
    let (u, e, k) = run_calls-Balanced c enough codec calls _ (inl start) in
    let (o, n) = Balanced-counts u k in (u, e, o, n)
