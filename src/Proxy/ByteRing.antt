-- ===== src/Proxy/ByteRing.antt =====
-- pico/src/byte_ring.c: a queue of bytes in a ring of caller's storage. `ring` is not at NULL.
pub mod Layout
pub mod Moves
pub mod Consume
pub mod Windows
pub mod Queue
use pbns.Common.{
  ℕ, ◌+◌, ◌-◌, ◌%◌, ◌^◌, Bool, true, false, not, ◌&&◌, List, [], ltb, leb, ◌==◌, if◌then◌else◌,
  length, take, drop, copy_at, Status, ok, err, argument, limit, state,
}
use pbns.Common.Memory.{View, Buffer, Pointer, null, given, null_view, null_buffer}

-- `pbns_byte_ring`
pub record ByteRing : Type 0 where
  pub storage : Buffer
  pub head : ℕ
  pub used : ℕ
  pub initialized : Bool

abbrev pub zero_ring : ByteRing
zero_ring = record { storage = null_buffer; head = 0; used = 0; initialized = false }

abbrev pub cap : ByteRing → ℕ
cap ring = length ring.storage.bytes

unfoldable pub storage_is_valid : Buffer → Bool
storage_is_valid storage =
    not (storage.ptr == 0) && storage.len == 0 && ltb 0 (length storage.bytes)

unfoldable pub ring_is_valid : ByteRing → Bool
ring_is_valid ring =
    ring.initialized
    && storage_is_valid ring.storage
    && ltb ring.head (cap ring)
    && leb ring.used (cap ring)

unfoldable pub ring_tail : ByteRing → ℕ
ring_tail ring =
    let distance_to_end = cap ring - ring.head in
    if leb distance_to_end ring.used then ring.used - distance_to_end else ring.head + ring.used

unfoldable pub writable_length : ByteRing → ℕ
writable_length ring =
    let tail = ring_tail ring in
    if ring.used == cap ring
    then 0
    else if ltb tail ring.head
    then ring.head - tail
    else cap ring - tail

-- `pbns_byte_ring_init`
unfoldable pub init : Buffer → ByteRing
init storage =
    if not (storage_is_valid storage)
    then zero_ring
    else record zero_ring { storage = storage; initialized = true }

-- `pbns_byte_ring_reset`
unfoldable pub reset : ByteRing → ByteRing
reset ring = if not (ring_is_valid ring) then ring else record ring { head = 0; used = 0 }

-- `pbns_byte_ring_capacity`
unfoldable pub capacity : ByteRing → ℕ
capacity ring = if ring_is_valid ring then cap ring else 0

-- `pbns_byte_ring_size`
unfoldable pub size : ByteRing → ℕ
size ring = if ring_is_valid ring then ring.used else 0

-- `pbns_byte_ring_writable`: the status, and the storage that may be written.
unfoldable pub writable : ByteRing → Pointer → Status × Buffer
writable ring null = (err argument, null_buffer)
writable ring given =
    let available = writable_length ring in
    let tail = ring_tail ring in
    if not (ring_is_valid ring)
    then (err state, null_buffer)
    else if available == 0
    then (ok, null_buffer)
    else (
      ok,
      record {
        ptr = ring.storage.ptr + tail;
        len = 0;
        bytes = take available (drop tail ring.storage.bytes);
      },
    )

-- `pbns_byte_ring_commit`
unfoldable pub commit : ByteRing → ℕ → Status × ByteRing
commit ring amount =
    if not (ring_is_valid ring)
    then (err state, ring)
    else if ltb (writable_length ring) amount
    then (err limit, ring)
    else (ok, record ring { used = (ring.used + amount) % 2 ^ 64 })

-- The bytes that are used and not past the end of the storage.
abbrev pub contiguous : ByteRing → ℕ
contiguous ring = if ltb ring.used (cap ring - ring.head) then ring.used else cap ring - ring.head

-- `pbns_byte_ring_readable`
unfoldable pub readable : ByteRing → Pointer → Status × View
readable ring null = (err argument, null_view)
readable ring given =
    if not (ring_is_valid ring)
    then (err state, null_view)
    else if ring.used == 0
    then (ok, null_view)
    else (
      ok,
      record {
        ptr = ring.storage.ptr + ring.head;
        bytes = take (contiguous ring) (drop ring.head ring.storage.bytes);
      },
    )

-- `pbns_byte_ring_consume`
unfoldable pub consume : ByteRing → ℕ → Status × ByteRing
consume ring amount =
    if not (ring_is_valid ring)
    then (err state, ring)
    else if ltb (contiguous ring) amount
    then (err limit, ring)
    else if amount == ring.used
    then (ok, record ring { head = 0; used = 0 })
    else if ring.head + amount == cap ring
    then (ok, record ring { head = 0; used = ring.used - amount })
    else (ok, record ring { head = ring.head + amount; used = ring.used - amount })

-- A ring after its owner has written bytes at the start of the writable window.
abbrev pub written : ByteRing → List ℕ → ByteRing
written ring sent = record ring {
  storage = record ring.storage { bytes = copy_at ring.storage.bytes (ring_tail ring) sent };
}
