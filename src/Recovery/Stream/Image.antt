-- ===== src/Recovery/Stream/Image.antt =====
-- The whole transfer: the image that a completed stream leaves in the pages.
use pbns.Common.{
  ℕ, ◌≡◌, refl, sym, ap, ◌∙◌, inl, inr, true, some, List, [], ◌∷◌, ◌++◌, append-nil, append_assoc,
  arith, length, take-all, Status, ok, err, Status-cases,
}
use pbns.Common.Memory.{View, Buffer, Pointer, given}
use pbns.Wire.Frame.{Frame}
use pbns.Recovery.Stream.{HashOps, RecoveryStream, Store, accept, finish, init}
use pbns.Recovery.Stream.Step.{finish-Confirmed}
use pbns.Recovery.Stream.Received.{Holds, accept-Holds, init-Holds}

-- The bytes that the payloads of the frames make up.
abbrev pub joined : List (Frame × View) → List ℕ
joined [] = []
joined ((f, payload) ∷ rest) = payload.bytes ++ joined rest

module _ {C : Type 0} (ops : HashOps C) where
  -- A receiver that hands frames to `accept` for as long as it returns OK.
  unfoldable pub accept_all :
      RecoveryStream → Store C → List (Frame × View) → Status × RecoveryStream × Store C
  accept_all s store [] = (ok, s, store)
  accept_all s store ((f, payload) ∷ rest) =
      let o = accept ops s store (some f) payload given in
      let later = accept_all o.stream o.store rest in
      elim o.status [ ok ↦ later | err e ↦ (err e, o.stream, o.store) ]

  -- The hash of the payloads, one after the other, with no stream.
  unfoldable pub hash_all : C → List (Frame × View) → Status × C
  hash_all c [] = (ok, c)
  hash_all c ((f, payload) ∷ rest) =
      let (status, next) = ops.update c payload.bytes in
      let later = hash_all next rest in elim status [ ok ↦ later | err e ↦ (err e, next) ]

  accept_all-head :
      (s : RecoveryStream) (store : Store C) (f : Frame) (payload : View)
      (rest : List (Frame × View))
      → (accept_all s store ((f, payload) ∷ rest)).0 ≡ ok
      → let o = accept ops s store (some f) payload given in
        (o.status ≡ ok)
        × (accept_all s store ((f, payload) ∷ rest) ≡ accept_all o.stream o.store rest)
  unfolding accept_all
  accept_all-head s store f payload rest h =
      elim (Status-cases (accept ops s store (some f) payload given).status) [
        | inl e ↦ ground arith
        | inr (x, e) ↦ absurd (ground arith)
      ]

  hash_all-step :
      (c : C) (f : Frame) (payload : View) (rest : List (Frame × View))
      → (ops.update c payload.bytes).0 ≡ ok
      → hash_all c ((f, payload) ∷ rest) ≡ hash_all (ops.update c payload.bytes).1 rest
  unfolding hash_all
  hash_all-step c f payload rest h = ground arith

  -- What a run of accepted chunks leaves, from a stream that holds `received`.
  pub accept_all-Holds :
      (s : RecoveryStream) (store : Store C) (frames : List (Frame × View)) (received : List ℕ)
      → Holds s store.pages received
      → (accept_all s store frames).0 ≡ ok
      → let r = accept_all s store frames in
        Holds r.1 r.2.pages (received ++ joined frames)
        × (hash_all store.context frames ≡ (ok, r.2.context))
        × (r.1.expected_digest ≡ s.expected_digest)
        × (r.1.image_size ≡ s.image_size)
  accept_all-Holds s store [] received v h =
      unfold accept_all hash_all in (rw (append-nil received) v, refl, refl, refl)
  accept_all-Holds s store ((f, payload) ∷ rest) received v h =
      let o = accept ops s store (some f) payload given in
      let (accepted, later) = accept_all-head s store f payload rest h in
      let (held, hashed, context, digest, size) =
        accept-Holds ops s store f payload received v accepted in
      let (all, hash, digests, sizes) =
        accept_all-Holds o.stream o.store rest (received ++ payload.bytes) held
          (ap (λ r. r.0) (sym later) ∙ h) in
      rw later (
        rw (sym (append_assoc received payload.bytes (joined rest))) all,
        hash_all-step store.context f payload rest hashed ∙ rw (sym context) hash,
        digests ∙ digest,
        sizes ∙ size,
      )

  -- If a stream that `init` set up has accepted frames and `finish` has confirmed the image, then
  -- the pages hold exactly the payloads of the frames, in order, to their end, and the hash of
  -- those payloads succeeds and is the digest that `init` was given.
  pub finish-authentic :
      (request_id : List ℕ) (exact_pages : Buffer) (digest : List ℕ) (hash_ops : Pointer)
      (context : C) (frames : List (Frame × View)) (last : Frame) (empty : View)
      → let start = init ops request_id exact_pages (some digest) hash_ops context in
        let run = accept_all start.stream start.store frames in
        let end = finish ops run.1 run.2 (some last) empty in
        start.status ≡ ok
        → run.0 ≡ ok
        → end.status ≡ ok
        → let hash = hash_all (ops.begin context).1 frames in
          (end.store.pages ≡ joined frames)
          × (length (joined frames) ≡ length exact_pages.bytes)
          × (hash.0 ≡ ok)
          × ((ops.finish hash.1).0 ≡ ok)
          × ((ops.finish hash.1).1 ≡ digest)
          × (end.stream.complete ≡ true)
  finish-authentic request_id exact_pages digest hash_ops context frames last empty started ran
        ended =
      let start = init ops request_id exact_pages (some digest) hash_ops context in
      let run = accept_all start.stream start.store frames in
      let (fresh, begun, wanted, size) =
        init-Holds ops request_id exact_pages digest hash_ops context started in
      let (held, hash, wanted', size') =
        accept_all-Holds start.stream start.store frames [] fresh ran in
      let (confirmed, kept, closed) = finish-Confirmed ops run.1 run.2 last empty ended in
      let hashed : hash_all (ops.begin context).1 frames ≡ (ok, run.2.context) =
        rw (sym begun) hash in
      let whole = take-all run.1.offset run.2.pages (omega (arith, held.sized, confirmed.whole)) in
      (
        kept ∙ sym whole ∙ held.content,
        omega (arith, held.counted, confirmed.whole, size, size'),
        ap (λ r. r.0) hashed,
        ap (λ r. (ops.finish r.1).0) hashed ∙ confirmed.hashed,
        ap (λ r. (ops.finish r.1).1) hashed ∙ confirmed.digest ∙ wanted' ∙ wanted,
        closed,
      )
