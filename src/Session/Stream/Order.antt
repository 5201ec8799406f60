-- ===== src/Session/Stream/Order.antt =====
-- The frames that a stream has accepted: in order, of one request, and ended at most once.
use pbns.Common.{
  ℕ, ◌+◌, ◌≤◌, ◌≡◌, refl, sym, ap, ◌∙◌, ◌⊎◌, inl, inr, Bool, true, false, some, List, [], ◌∷◌,
  arith, Bool-cases, length, subst, Status, ok, err, Status-cases,
}
use pbns.Common.Memory.{View}
use pbns.Wire.Frame.{Frame}
use pbns.Session.Stream.{Stream, accept, validate_payload}
use pbns.Session.Stream.Invariant.{IsValid, Step, accept-Step, accept-IsValid}

-- A receiver that hands frames to `accept` for as long as it returns OK.
unfoldable pub accept_all : Stream → List (Frame × View) → Status × Stream
accept_all s [] = (ok, s)
accept_all s ((f, payload) ∷ rest) =
    let (status, t) = accept s (some f) payload in
    let later = accept_all t rest in elim status [ ok ↦ later | err e ↦ (err e, t) ]

abbrev pub payload_sum : List (Frame × View) → ℕ
payload_sum [] = 0
payload_sum ((f, payload) ∷ rest) = length payload.bytes + payload_sum rest

abbrev pub is_terminal : Frame → View → Bool
is_terminal f payload = (validate_payload f.type payload.bytes).1

-- The frames carry the numbers from `n` on and the stream's service and request id, and only the
-- last may end the stream.
abbrev pub Ordered : Stream → ℕ → List (Frame × View) → Type 0
Ordered s n [] = Unit
Ordered s n ((f, payload) ∷ rest) =
    (f.sequence ≡ n)
    × (f.service ≡ s.service)
    × (f.request_id ≡ s.request_id)
    × (f.flags ≡ 0)
    × ((rest ≡ []) ⊎ (is_terminal f payload ≡ false))
    × Ordered s (n + 1) rest

abbrev Transfers : Stream → Stream → Type 0
Transfers s t = (t.service ≡ s.service) × (t.request_id ≡ s.request_id)

Ordered-transfer :
    (s t : Stream) (n : ℕ) (frames : List (Frame × View))
    → Transfers s t
    → Ordered t n frames
    → Ordered s n frames
Ordered-transfer s t n [] e h = tt
Ordered-transfer s t n ((f, payload) ∷ rest) e h =
    (h.0, h.1 ∙ e.0, h.2 ∙ e.1, h.3, h.4, Ordered-transfer s t (n + 1) rest e h.5)

accept_all-head :
    (s t : Stream) (f : Frame) (payload : View) (rest : List (Frame × View))
    → accept_all s ((f, payload) ∷ rest) ≡ (ok, t)
    → ((accept s (some f) payload).0 ≡ ok)
      × (accept_all (accept s (some f) payload).1 rest ≡ (ok, t))
unfolding accept_all
accept_all-head s t f payload rest h = elim (Status-cases (accept s (some f) payload).0) [
  | inl e ↦ ground arith
  | inr (x, e) ↦ absurd (ground arith)
]

-- A completed stream accepts nothing more.
accept_all-complete :
    (s t : Stream) (rest : List (Frame × View))
    → s.complete ≡ true
    → accept_all s rest ≡ (ok, t)
    → rest ≡ []
accept_all-complete s t [] c h = refl
accept_all-complete s t ((f, payload) ∷ rest) c h =
    let (accepted, later) = accept_all-head s t f payload rest h in
    absurd (ground (arith, (accept-Step s f payload accepted).live))

-- What a step does to the fields.
Step-counters :
    (s : Stream) (f : Frame) (payload : List ℕ) (u : Stream)
    → IsValid s
    → Step s f payload u
    → (u.service ≡ s.service)
      × (u.request_id ≡ s.request_id)
      × (u.byte_limit ≡ s.byte_limit)
      × (u.next_sequence ≡ s.next_sequence + 1)
      × (u.total_bytes ≡ s.total_bytes + length payload)
Step-counters s f payload u v step = rw step.result (
  refl,
  refl,
  refl,
  omega (arith, v.sequenced, step.sequence_room),
  omega (arith, v.limited, step.bytes_room),
)

last-terminal :
    (s : Stream) (f : Frame) (payload : View) (u t : Stream) (rest : List (Frame × View))
    → Step s f payload.bytes u
    → accept_all u rest ≡ (ok, t)
    → (rest ≡ []) ⊎ (is_terminal f payload ≡ false)
last-terminal s f payload u t rest step later = elim (Bool-cases (is_terminal f payload)) [
  | inl ends ↦ inl (accept_all-complete u t rest (rw step.result ends) later)
  | inr goes ↦ inr goes
]

nil-Ordered :
    (s t : Stream)
    → IsValid s
    → accept_all s [] ≡ (ok, t)
    → Ordered s s.next_sequence []
      × (t.next_sequence ≡ s.next_sequence + 0)
      × (t.total_bytes ≡ s.total_bytes + 0)
      × (t.total_bytes ≤ s.byte_limit)
unfolding accept_all
nil-Ordered s t v h =
    let e = ap (λ r. r.1) h in
    (tt, rw (sym e) (omega arith), rw (sym e) (omega arith), rw (sym e) v.bytes)

-- If a receiver has accepted frames, starting from a valid stream, then they carry consecutive
-- sequence numbers, the stream's service and request id and no flags, none but the last ends the
-- stream, and the stream has counted exactly the frames and the bytes of their payloads, the latter
-- within its limit.
pub accept_all-Ordered :
    (s t : Stream) (frames : List (Frame × View))
    → IsValid s
    → accept_all s frames ≡ (ok, t)
    → Ordered s s.next_sequence frames
      × (t.next_sequence ≡ s.next_sequence + length frames)
      × (t.total_bytes ≡ s.total_bytes + payload_sum frames)
      × (t.total_bytes ≤ s.byte_limit)
accept_all-Ordered s t [] v h = nil-Ordered s t v h
accept_all-Ordered s t ((f, payload) ∷ rest) v h =
    let (accepted, later) = accept_all-head s t f payload rest h in
    let step = accept-Step s f payload accepted in
    let u = (accept s (some f) payload).1 in
    let (ordered, count, total, within) =
      accept_all-Ordered u t rest (accept-IsValid s (some f) payload v) later in
    let (same_service, same_request, same_limit, next, summed) =
      Step-counters s f payload.bytes u v step in
    (
      (
        step.sequence,
        step.service,
        step.request_id,
        step.flags,
        last-terminal s f payload u t rest step later,
        Ordered-transfer s u (s.next_sequence + 1) rest (same_service, same_request)
            (subst (λ n. Ordered u n rest) next ordered),
      ),
      omega (arith, count, next),
      omega (arith, total, summed),
      omega (arith, within, same_limit),
    )
