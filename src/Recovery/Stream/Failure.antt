-- ===== src/Recovery/Stream/Failure.antt =====
-- A recovery stream that fails or is reset.
use pbns.Common.{
  ℕ, ◌≡◌, refl, sym, ◌∙◌, ◌⊎◌, inl, inr, true, false, some, List, append-nil, arith, ltb,
  Bool-cases, replicate, length-replicate, err, Error, checks, Status-cases, drop-all,
  nil_of_length,
}
use pbns.Common.{state}
use pbns.Common.Memory.{view_is_valid, View, given, is_null}
use pbns.Wire.Frame.{Frame}
use pbns.Recovery.Stream.{
  HashOps, RecoveryStream, Store, accept, accept_checks, take_chunk, fail, reset, refused,
  zero_stream, zero_ack,
}
use pbns.Recovery.Stream.Received.{Holds}

module _ {C : Type 0} (ops : HashOps C) where
  abbrev updated : Store C → View → Store C
  updated store payload = record store { context = (ops.update store.context payload.bytes).1 }

  fail-status :
      (s : RecoveryStream) (store : Store C) (e : Error) → (fail ops s store e).status ≡ err e
  unfolding fail
  fail-status s store e = ground arith

  accept-fails :
      (s : RecoveryStream) (store : Store C) (f : Frame) (payload : View) (e : Error)
      → (s.initialized ≡ true) × (s.complete ≡ false) × (s.failed ≡ false)
      → view_is_valid payload ≡ true
      → (accept ops s store (some f) payload given).status ≡ err e
      → (accept ops s store (some f) payload given ≡ fail ops s store e)
        ⊎ (accept ops s store (some f) payload given ≡ fail ops s (updated store payload) e)
  unfolding accept take_chunk
  accept-fails s store f payload e running vp h =
      elim (Status-cases (checks (accept_checks s f payload.bytes))) [
        | inl passed ↦ elim (Status-cases (ops.update store.context payload.bytes).0) [
          | inl hashed ↦ absurd (ground arith)
          | inr (x, hashed) ↦ inr (ground (arith, fail-status s (updated store payload) x))
        ]
        | inr (x, failed) ↦ inl (ground (arith, fail-status s store x))
      ]

  fail-active :
      (s : RecoveryStream) (store : Store C) (e : Error)
      → s.hash_active ≡ true
      → is_null s.hash_ops ≡ false
      → fail ops s store e ≡ record {
        status = err e;
        stream = record s { failed = true; hash_active = false };
        store = record store { context = ops.clear store.context };
        ack = zero_ack;
      }
  unfolding fail
  fail-active s store e active there = ground arith

  accept-stopped :
      (s : RecoveryStream) (store : Store C) (f : Frame) (payload : View)
      → s.failed ≡ true
      → view_is_valid payload ≡ true
      → accept ops s store (some f) payload given ≡ refused ops s store state
  unfolding accept
  accept-stopped s store f payload failed valid = ground arith

  -- If a live stream whose hash is active refuses a valid chunk, then it is failed for good: the
  -- hash is cleared, after what the call may have added to it, the pages are as they were, and
  -- every later valid chunk is refused with `STATE` and changes nothing.
  pub accept-fail :
      (s : RecoveryStream) (store : Store C) (f g : Frame) (payload later : View) (e : Error)
      → (s.initialized ≡ true) × (s.complete ≡ false) × (s.failed ≡ false)
      → (s.hash_active ≡ true) × (is_null s.hash_ops ≡ false)
      → view_is_valid payload ≡ true
      → view_is_valid later ≡ true
      → (accept ops s store (some f) payload given).status ≡ err e
      → let o = accept ops s store (some f) payload given in
        (o.stream ≡ record s { failed = true; hash_active = false })
        × (o.store.pages ≡ store.pages)
        × ((o.store.context ≡ ops.clear store.context)
            ⊎ (o.store.context ≡ ops.clear (ops.update store.context payload.bytes).1))
        × (accept ops o.stream o.store (some g) later given ≡ refused ops o.stream o.store state)
  accept-fail s store f g payload later e running (active, there) vp vl h =
      elim (accept-fails s store f payload e running vp h) [
        | inl at_once ↦
            rw (at_once, fail-active s store e active there)
              (refl, refl, inl refl, accept-stopped _ _ g later refl vl)
        | inr hashed ↦
            rw (hashed, fail-active s (updated store payload) e active there)
              (refl, refl, inr refl, accept-stopped _ _ g later refl vl)
      ]

  -- Resetting a stream that holds what it has received, in pages that are given, wipes the pages to
  -- their end and leaves a stream that is zero.
  pub reset-wipes :
      (s : RecoveryStream) (store : Store C) (received : List ℕ)
      → Holds s store.pages received
      → is_null s.pages ≡ false
      → ((reset ops s store).1.pages ≡ replicate s.image_size 0)
        × ((reset ops s store).0 ≡ zero_stream)
  unfolding reset
  reset-wipes s store received v there = (
    elim (Bool-cases (ltb 0 s.image_size)) [
      | inl some_bytes ↦
          rw (there, some_bytes, drop-all s.image_size store.pages (omega (arith, v.sized)))
            (append-nil (replicate s.image_size 0))
      | inr no_bytes ↦
          rw (there, no_bytes)
            (nil_of_length store.pages (ground (arith, v.sized))
              ∙ sym (
                  nil_of_length (replicate s.image_size 0)
                    (ground (arith, length-replicate {A = ℕ} s.image_size 0))))
    ],
    refl,
  )
