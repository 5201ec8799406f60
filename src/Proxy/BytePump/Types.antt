-- ===== src/Proxy/BytePump/Types.antt =====
-- pico/include/pbns_proxy/byte_pump.h: the types of the pump and of its endpoints.
use pbns.Common.{ℕ, Bool, false, Status, List}
use pbns.Common.Memory.{Buffer, View}
use pbns.Proxy.ByteRing.{ByteRing, zero_ring}

-- A status that a callback returns: one of `pbns_status`, or another number.
pub data Reply : Type 0 where
  typed : Status → Reply
  untyped : Reply

-- What `read` returns: `bytes` are those that it wrote at the start of its destination.
pub record Received (W : Type 0) : Type 0 where
  pub reply : Reply
  pub received : ℕ
  pub bytes : List ℕ
  pub world : W

-- What `write` returns.
pub record Sent (W : Type 0) : Type 0 where
  pub reply : Reply
  pub written : ℕ
  pub world : W

-- `pbns_pump_endpoint`
pub record Endpoint (W : Type 0) : Type 0 where
  pub read : W → Buffer → Received W
  pub write : W → View → Sent W

-- `pbns_pump_session`
pub record Session : Type 0 where
  pub connected : Bool
  pub initialized : Bool

-- `pbns_byte_pump_policy`
pub record Policy : Type 0 where
  pub usb_to_tls_minimum_write : ℕ
  pub tls_to_usb_minimum_writable : ℕ
  pub force_usb_to_tls_write : Bool

abbrev pub default_policy : Policy
default_policy = record {
  usb_to_tls_minimum_write = 0;
  tls_to_usb_minimum_writable = 0;
  force_usb_to_tls_write = false;
}

-- `pbns_byte_pump`
pub record BytePump : Type 0 where
  pub usb_to_tls : ByteRing
  pub tls_to_usb : ByteRing
  pub usb_source_closed : Bool
  pub tls_source_closed : Bool
  pub usb_to_tls_read_generation : ℕ
  pub usb_to_tls_write_generation : ℕ
  pub initialized : Bool
  pub cancelled : Bool
  pub failed : Bool

abbrev pub zero_pump : BytePump
zero_pump = record {
  usb_to_tls = zero_ring;
  tls_to_usb = zero_ring;
  usb_source_closed = false;
  tls_source_closed = false;
  usb_to_tls_read_generation = 0;
  usb_to_tls_write_generation = 0;
  initialized = false;
  cancelled = false;
  failed = false;
}

-- `pump_direction`, with the values that its pointers point at; `counted` tells whether those of
-- the generations are given.
pub record Direction : Type 0 where
  pub ring : ByteRing
  pub source_closed : Bool
  pub read_generation : ℕ
  pub write_generation : ℕ
  pub counted : Bool
  pub minimum_write : ℕ
  pub minimum_writable : ℕ
  pub force_write : Bool

-- What a call on a direction returns and leaves behind.
pub record Moved (W : Type 0) : Type 0 where
  pub status : Status
  pub direction : Direction
  pub made_progress : Bool
  pub world : W
