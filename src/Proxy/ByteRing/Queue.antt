-- ===== src/Proxy/ByteRing/Queue.antt =====
-- The ring as a first-in first-out queue of bytes.
use pbns.Common.{
  subst, ℕ, ◌-◌, ◌≤◌, ◌<◌, ◌≡◌, ◌↔◌, refl, sym, ap, ◌∙◌, inl, true, List, [], ◌++◌, arith, length,
  take, drop, take-append_exact, ok, nil_of_length,
}
use pbns.Common.Memory.{Buffer, given, size_max}
use pbns.Proxy.ByteRing.{
  written, ByteRing, cap, ring_tail, writable_length, contiguous, consume, commit, ring_is_valid,
  storage_is_valid, init, reset, zero_ring, writable, readable, size,
}
use pbns.Proxy.ByteRing.Layout.{contents, contents-Layout, Layout-contents, valid-InBounds}
use pbns.Proxy.ByteRing.Moves.{filled_with, filled_with-Layout}
use pbns.Proxy.ByteRing.Consume.{Layout-used, after_consume, after_consume-Layout}
use pbns.Proxy.ByteRing.Windows.{
  tail-room, writable-length, used-room, valid-of, written-fields, commit-filled, readable-bytes,
  consume-after, after_consume-bounds,
}

-- For a valid ring of at most `SIZE_MAX` bytes: if at most as many bytes as the writable window has
-- are written to its start, then committing them succeeds, leaves a valid ring of the same
-- capacity, and puts exactly those bytes behind the queue.
pub commit-contents :
    (ring : ByteRing) (sent : List ℕ)
    → ring_is_valid ring ≡ true
    → cap ring ≤ size_max
    → length sent ≤ length (writable ring given).1.bytes
    → let r = commit (written ring sent) (length sent) in
      (r.0 ≡ ok)
      × (ring_is_valid r.1 ≡ true)
      × (cap r.1 ≡ cap ring)
      × (contents r.1 ≡ contents ring ++ sent)
commit-contents ring sent valid small h =
    let (inside, fits, _, _) = valid-InBounds ring valid in
    let room : length sent ≤ writable_length ring = omega (arith, writable-length ring valid) in
    let (same_cap, _) = written-fields ring sent inside fits room in
    let left = tail-room ring inside fits in
    let laid =
      filled_with-Layout ring (contents ring) sent (contents-Layout ring valid) inside fits room in
    rw (commit-filled ring sent valid small room) (
      refl,
      valid-of ring (filled_with ring sent) valid refl (refl, refl) same_cap
          (omega (arith, same_cap)) (omega (arith, same_cap, used-room ring inside fits)),
      same_cap,
      Layout-contents (filled_with ring sent) (contents ring ++ sent) laid,
    )

window_prefix :
    (ring : ByteRing)
    → (readable ring given).1.bytes ≡ take (contiguous ring) (drop ring.head ring.storage.bytes)
    → take (length (readable ring given).1.bytes) (contents ring) ≡ (readable ring given).1.bytes
window_prefix ring e = rw e (
    take-append_exact (take (contiguous ring) (drop ring.head ring.storage.bytes))
      (take (ring.used - contiguous ring) ring.storage.bytes) _ refl)

-- For a valid ring: the readable bytes are a prefix of the queue, and consuming any number of them
-- succeeds, leaves a valid ring of the same capacity and takes exactly that many bytes from the
-- front of the queue.
pub consume-contents :
    (ring : ByteRing) (n : ℕ)
    → ring_is_valid ring ≡ true
    → n ≤ length (readable ring given).1.bytes
    → let r = consume ring n in
      let window = (readable ring given).1.bytes in
      (take (length window) (contents ring) ≡ window)
      × (r.0 ≡ ok)
      × (ring_is_valid r.1 ≡ true)
      × (cap r.1 ≡ cap ring)
      × (contents r.1 ≡ drop n (contents ring))
consume-contents ring n valid h =
    let (inside, fits, _, _) = valid-InBounds ring valid in
    let (window, size) = readable-bytes ring valid in
    let few : n ≤ contiguous ring = omega (arith, size) in
    let (inside', fits', storage, live) = after_consume-bounds ring n inside fits few in
    let same_cap = ap (λ x. length x.bytes) storage in
    let laid =
      after_consume-Layout ring (contents ring) n (contents-Layout ring valid) inside few
        (ground (arith, few)) in
    let valid' =
      valid-of ring (after_consume ring n) valid live
        (ap (λ x. x.ptr) storage, ap (λ x. x.len) storage) same_cap
        (omega (arith, inside', same_cap)) (omega (arith, fits', same_cap)) in
    let e = consume-after ring n valid few in
    (
      window_prefix ring window,
      ap (λ r. r.0) e,
      subst (λ r. ring_is_valid r.1 ≡ true) (sym e) valid',
      subst (λ r. cap r.1 ≡ cap ring) (sym e) same_cap,
      subst (λ r. contents r.1 ≡ drop n (contents ring)) (sym e)
          (Layout-contents (after_consume ring n) (drop n (contents ring)) laid),
    )

size-used : (ring : ByteRing) → ring_is_valid ring ≡ true → size ring ≡ ring.used
unfolding size
size-used ring valid = rw valid refl

full-room :
    (ring : ByteRing)
    → ring.head < cap ring
    → ring.used ≤ cap ring
    → (writable_length ring ≡ 0) ↔ (ring.used ≡ cap ring)
unfolding ring_tail writable_length
full-room ring inside fits = (λ e. ground (arith, e), λ e. ground (arith, e))

contiguous-zero : (ring : ByteRing) → ring.head < cap ring → contiguous ring ≡ 0 → ring.used ≡ 0
contiguous-zero ring inside e = ground arith

zero-contiguous : (ring : ByteRing) → ring.used ≡ 0 → contiguous ring ≡ 0
zero-contiguous ring e = ground arith

empty-contents : (ring : ByteRing) → ring.head ≡ 0 → ring.used ≡ 0 → contents ring ≡ []
empty-contents ring h u =
    Layout-contents ring []
      (inl (record { before = []; after = ring.storage.bytes; bytes = refl; head = h; used = u }))

-- A valid ring offers no room exactly when it is full, and nothing to read exactly when its queue
-- is empty; its size is the length of the queue.
pub windows-contents :
    (ring : ByteRing)
    → ring_is_valid ring ≡ true
    → (size ring ≡ length (contents ring))
      × (((writable ring given).1.bytes ≡ []) ↔ (length (contents ring) ≡ cap ring))
      × (((readable ring given).1.bytes ≡ []) ↔ (contents ring ≡ []))
windows-contents ring valid =
    let (inside, fits, _, _) = valid-InBounds ring valid in
    let room = writable-length ring valid in
    let (window, readable_size) = readable-bytes ring valid in
    let used = Layout-used ring (contents ring) (contents-Layout ring valid) in
    let full = full-room ring inside fits in
    (
      size-used ring valid ∙ used,
      (
        λ e. sym used ∙ full.0 (sym room ∙ ap length e),
        λ e. nil_of_length (writable ring given).1.bytes (room ∙ full.1 (used ∙ e)),
      ),
      (
        λ e.
            nil_of_length (contents ring)
              (sym used ∙ contiguous-zero ring inside (sym readable_size ∙ ap length e)),
        λ e.
            nil_of_length (readable ring given).1.bytes
              (readable_size ∙ zero-contiguous ring (used ∙ ap length e)),
      ),
    )

init-valid :
    (storage : Buffer)
    → storage_is_valid storage ≡ true
    → ring_is_valid (record zero_ring { storage = storage; initialized = true }) ≡ true
unfolding ring_is_valid storage_is_valid
init-valid storage valid = ground arith

-- A fresh ring in valid storage and a valid ring that was reset are valid and empty.
pub reset-contents :
    (storage : Buffer) (ring : ByteRing)
    → storage_is_valid storage ≡ true
    → ring_is_valid ring ≡ true
    → (ring_is_valid (init storage) ≡ true)
      × (contents (init storage) ≡ [])
      × (ring_is_valid (reset ring) ≡ true)
      × (contents (reset ring) ≡ [])
unfolding init reset
reset-contents storage ring vs vr =
    let (inside, fits, live, kept) = valid-InBounds ring vr in
    (
      rw vs (init-valid storage vs),
      empty-contents (init storage) (rw vs refl) (rw vs refl),
      rw vr (
          valid-of ring (record ring { head = 0; used = 0 }) vr refl (refl, refl) refl (omega arith)
            (omega arith)),
      empty-contents (reset ring) (rw vr refl) (rw vr refl),
    )
