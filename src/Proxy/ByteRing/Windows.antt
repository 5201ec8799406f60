-- ===== src/Proxy/ByteRing/Windows.antt =====
-- The windows of a ring, and what commit and consume do when nothing stops them.
use pbns.Common.{
  length-copy_at, ℕ, ◌+◌, ◌%◌, ◌^◌, ◌≤◌, ◌<◌, ◌≡◌, refl, inl, inr, true, false, List, arith, ltb,
  ◌==◌, ge→ltb, Bool-cases, length, take, drop, length-take, length-drop, ok,
}
use pbns.Common.Memory.{given, size_max}
use pbns.Proxy.ByteRing.{
  written, ByteRing, cap, ring_tail, writable_length, contiguous, consume, commit, ring_is_valid,
  storage_is_valid, writable, readable,
}
use pbns.Proxy.ByteRing.Layout.{valid-InBounds}
use pbns.Proxy.ByteRing.Moves.{filled_with}
use pbns.Proxy.ByteRing.Consume.{after_consume}

pub tail-room :
    (ring : ByteRing)
    → ring.head < cap ring
    → ring.used ≤ cap ring
    → ring_tail ring + writable_length ring ≤ cap ring
unfolding ring_tail writable_length
tail-room ring h k = ground arith

pub writable-length :
    (ring : ByteRing)
    → ring_is_valid ring ≡ true
    → length (writable ring given).1.bytes ≡ writable_length ring
unfolding writable
writable-length ring valid =
    let (inside, fits, _, _) = valid-InBounds ring valid in
    ground (
      arith,
      tail-room ring inside fits,
      length-drop (ring_tail ring) ring.storage.bytes,
      length-take (writable_length ring) (drop (ring_tail ring) ring.storage.bytes),
    )

pub used-room :
    (ring : ByteRing)
    → ring.head < cap ring
    → ring.used ≤ cap ring
    → ring.used + writable_length ring ≤ cap ring
unfolding ring_tail writable_length
used-room ring inside h = ground arith

-- The fields that make a ring valid.
pub valid-of :
    (ring other : ByteRing)
    → ring_is_valid ring ≡ true
    → other.initialized ≡ ring.initialized
    → (other.storage.ptr ≡ ring.storage.ptr) × (other.storage.len ≡ ring.storage.len)
    → cap other ≡ cap ring
    → other.head < cap ring
    → other.used ≤ cap ring
    → ring_is_valid other ≡ true
unfolding ring_is_valid storage_is_valid
valid-of ring other valid i p c h u = ground (arith, p, c, i)

pub written-fields :
    (ring : ByteRing) (sent : List ℕ)
    → ring.head < cap ring
    → ring.used ≤ cap ring
    → length sent ≤ writable_length ring
    → (cap (written ring sent) ≡ cap ring)
      × (writable_length (written ring sent) ≡ writable_length ring)
unfolding writable_length ring_tail
written-fields ring sent inside fits h =
    let e : cap (written ring sent) ≡ cap ring =
      length-copy_at ring.storage.bytes sent (ring_tail ring)
        (omega (arith, tail-room ring inside fits)) in
    (e, rw e refl)

pub commit-filled :
    (ring : ByteRing) (sent : List ℕ)
    → ring_is_valid ring ≡ true
    → cap ring ≤ size_max
    → length sent ≤ writable_length ring
    → commit (written ring sent) (length sent) ≡ (ok, filled_with ring sent)
unfolding commit
commit-filled ring sent valid small h =
    let (inside, fits, _, _) = valid-InBounds ring valid in
    let (same_cap, same_room) = written-fields ring sent inside fits h in
    let valid' =
      valid-of ring (written ring sent) valid refl (refl, refl) same_cap (omega (arith, same_cap))
        (omega (arith, same_cap)) in
    let room = tail-room ring inside fits in
    let few : ltb (writable_length (written ring sent)) (length sent) ≡ false =
      ge→ltb (writable_length (written ring sent)) (length sent) (omega (arith, same_room)) in
    let sum : (ring.used + length sent) % 2 ^ 64 ≡ ring.used + length sent =
      omega (arith, used-room ring inside fits) in
    rw (valid', few, sum) refl

pub readable-bytes :
    (ring : ByteRing)
    → ring_is_valid ring ≡ true
    → ((readable ring given).1.bytes ≡ take (contiguous ring) (drop ring.head ring.storage.bytes))
      × (length (readable ring given).1.bytes ≡ contiguous ring)
unfolding readable
readable-bytes ring valid =
    let (inside, fits, _, _) = valid-InBounds ring valid in
    let size = length-take (contiguous ring) (drop ring.head ring.storage.bytes) in
    let left = length-drop ring.head ring.storage.bytes in
    elim (Bool-cases (ring.used == 0)) [
      | inl empty ↦ let e : contiguous ring ≡ 0 = ground arith in rw (valid, empty, e) (refl, refl)
      | inr full ↦ rw (valid, full) (refl, ground (arith, size, left))
    ]

pub consume-after :
    (ring : ByteRing) (n : ℕ)
    → ring_is_valid ring ≡ true
    → n ≤ contiguous ring
    → consume ring n ≡ (ok, after_consume ring n)
unfolding consume
consume-after ring n valid h = rw (valid, ge→ltb (contiguous ring) n h) (ground arith)

pub after_consume-bounds :
    (ring : ByteRing) (n : ℕ)
    → ring.head < cap ring
    → ring.used ≤ cap ring
    → n ≤ contiguous ring
    → ((after_consume ring n).head < cap ring)
      × ((after_consume ring n).used ≤ cap ring)
      × ((after_consume ring n).storage ≡ ring.storage)
      × ((after_consume ring n).initialized ≡ ring.initialized)
after_consume-bounds ring n inside fits h = ground arith
