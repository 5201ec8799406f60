-- ===== src/Proxy/BytePump.antt =====
-- pico/src/byte_pump.c: bytes pumped between two endpoints through a ring for each direction. The
-- endpoints are the caller's: their operations and the world that they act on are parameters.
-- `pump` and `session` are not at NULL.
mod Types
pub mod Step
pub mod Contract
pub mod Carry
pub mod Conserves
pub mod Transfer
unfoldable pub use Types.*
use pbns.Common.{
  ℕ, zero, suc, ◌+◌, ◌-◌, ◌%◌, ◌^◌, Bool, true, false, not, ◌&&◌, ◌||◌, Option, none, some, ltb,
  ◌==◌, if◌then◌else◌, length, Status, ok, err, would_block, argument, io, state,
}
use pbns.Common.Memory.{Buffer, Pointer, null, given, is_null, size_max, null_buffer}
use pbns.Proxy.ByteRing
use pbns.Proxy.ByteRing.{ByteRing, written}

unfoldable pub buffers_overlap : Buffer → Buffer → Bool
buffers_overlap left right =
    let left_cap = length left.bytes in
    let right_cap = length right.bytes in
    if ltb (size_max - left.ptr) left_cap || ltb (size_max - right.ptr) right_cap
    then true
    else ltb left.ptr (right.ptr + right_cap) && ltb right.ptr (left.ptr + left_cap)

unfoldable pub should_hold_write : Direction → Bool
should_hold_write d =
    let size = ByteRing.size d.ring in
    not (d.minimum_write == 0)
    && ltb size d.minimum_write
    && not d.force_write
    && not d.source_closed
    && ltb size (ByteRing.capacity d.ring)

-- Whether a read waits for more room.
abbrev pub read_is_held : Direction → ℕ → Bool
read_is_held d available =
    not (d.minimum_writable == 0)
    && not (ByteRing.size d.ring == 0)
    && ltb available d.minimum_writable

unfoldable pub is_would_block : Status → Bool
is_would_block (err would_block) = true
is_would_block status = false

-- A generation counter, if the direction has one.
abbrev bump : Direction → ℕ → ℕ
bump d generation = if d.counted then (generation + 1) % 2 ^ 64 else generation

module _ {W : Type 0} where
  abbrev pub stay : Status → Direction → Bool → W → Moved W
  stay status d made_progress w = record {
    status = status;
    direction = d;
    made_progress = made_progress;
    world = w;
  }

  -- The reply of the sink to `write`, once it is typed.
  unfoldable pub written_reply : Direction → Bool → ℕ → Sent W → Status → Moved W
  written_reply d made_progress available r s =
      let (status, ring) = ByteRing.consume d.ring r.written in
      if is_would_block s
      then (if r.written == 0
          then stay ok d made_progress r.world
          else stay (err io) d made_progress r.world)
      else elim s [
        | err e ↦ stay (err e) d made_progress r.world
        | ok ↦
            (if r.written == 0 || ltb available r.written
              then stay (err io) d made_progress r.world
              else elim status [
                | ok ↦
                    stay ok (record d { ring = ring; write_generation = bump d d.write_generation })
                      true r.world
                | err e ↦ stay (err e) (record d { ring = ring }) made_progress r.world
              ])
      ]

  unfoldable pub write_pending : Endpoint W → Direction → Bool → W → Moved W
  write_pending sink d made_progress w =
      let (status, readable) = ByteRing.readable d.ring given in
      let r = sink.write w readable in
      elim status [
        | err e ↦ stay (err e) d made_progress w
        | ok ↦
            (if length readable.bytes == 0 || should_hold_write d
              then stay ok d made_progress w
              else elim r.reply [
                | untyped ↦ stay (err io) d made_progress r.world
                | typed s ↦ written_reply d made_progress (length readable.bytes) r s
              ])
      ]

  -- The reply of the source to `read`, once it is typed; `d` has what it wrote in its ring.
  unfoldable pub read_reply : Direction → Bool → ℕ → Received W → Status → Moved W
  read_reply d made_progress available r s =
      let (status, ring) = ByteRing.commit d.ring r.received in
      if is_would_block s
      then (if r.received == 0
          then stay ok d made_progress r.world
          else stay (err io) d made_progress r.world)
      else elim s [
        | err e ↦ stay (err e) d made_progress r.world
        | ok ↦
            (if ltb available r.received
              then stay (err io) d made_progress r.world
              else if r.received == 0
              then stay ok (record d { source_closed = true }) true r.world
              else elim status [
                | ok ↦
                    stay ok (record d { ring = ring; read_generation = bump d d.read_generation })
                      true r.world
                | err e ↦ stay (err e) (record d { ring = ring }) made_progress r.world
              ])
      ]

  unfoldable pub read_available : Endpoint W → Direction → Bool → W → Moved W
  read_available source d made_progress w =
      let (status, writable) = ByteRing.writable d.ring given in
      let available = length writable.bytes in
      let r = source.read w writable in
      let filled = record d { ring = written d.ring r.bytes } in
      if d.source_closed then stay ok d made_progress w else elim status [
        | err e ↦ stay (err e) d made_progress w
        | ok ↦
            (if available == 0
              then stay ok d made_progress w
              else if read_is_held d available
              then stay ok d made_progress w
              else elim r.reply [
                | untyped ↦ stay (err io) filled made_progress r.world
                | typed s ↦ read_reply filled made_progress available r s
              ])
      ]

  unfoldable pub process_direction : Endpoint W → Endpoint W → Direction → Bool → W → Moved W
  process_direction source sink d made_progress w =
      let m = write_pending sink d made_progress w in
      let next = read_available source m.direction m.made_progress m.world in
      elim m.status [ ok ↦ next | err e ↦ m ]

-- `pbns_pump_session_init`
unfoldable pub session_init : Session
session_init = record { connected = false; initialized = true }

-- `pbns_pump_session_observe`; the pointer is `disconnected`.
unfoldable pub session_observe : Session → Bool → Pointer → Status × Bool × Session
session_observe s connected null = (err argument, false, s)
session_observe s connected given =
    if not s.initialized
    then (err argument, false, s)
    else (ok, s.connected && not connected, record s { connected = connected })

-- `pbns_byte_pump_init`
unfoldable pub init : Buffer → Buffer → BytePump
init usb_to_tls_storage tls_to_usb_storage =
    let pump = record zero_pump {
      usb_to_tls = ByteRing.init usb_to_tls_storage;
      tls_to_usb = ByteRing.init tls_to_usb_storage;
    } in
    if not pump.usb_to_tls.initialized
      || not pump.tls_to_usb.initialized
      || buffers_overlap usb_to_tls_storage tls_to_usb_storage
    then zero_pump
    else record pump { initialized = true }

-- `pbns_byte_pump_reset`
unfoldable pub reset : BytePump → BytePump
reset pump = if not pump.initialized then pump else record pump {
  usb_to_tls = ByteRing.reset pump.usb_to_tls;
  tls_to_usb = ByteRing.reset pump.tls_to_usb;
  usb_source_closed = false;
  tls_source_closed = false;
  usb_to_tls_read_generation = 0;
  usb_to_tls_write_generation = 0;
  cancelled = false;
  failed = false;
}

-- `pbns_byte_pump_cancel`
unfoldable pub cancel : BytePump → BytePump
cancel pump = if not pump.initialized then pump else record pump {
  usb_to_tls = ByteRing.reset pump.usb_to_tls;
  tls_to_usb = ByteRing.reset pump.tls_to_usb;
  cancelled = true;
}

-- `pbns_byte_pump_is_complete`
unfoldable pub is_complete : BytePump → Bool
is_complete pump =
    pump.initialized
    && not pump.cancelled
    && not pump.failed
    && pump.usb_source_closed
    && pump.tls_source_closed
    && ByteRing.size pump.usb_to_tls == 0
    && ByteRing.size pump.tls_to_usb == 0
