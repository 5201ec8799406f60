-- ===== src/Recovery/Stream/Types.antt =====
-- include/pbns/recovery_stream.h: the types of a recovery stream.
use pbns.Common.{ℕ, Bool, false, List, Status, replicate}
use pbns.Common.Memory.{Pointer, null}
use pbns.Wire.Frame.{request_id_size}

abbrev pub digest_size : ℕ
digest_size = 32

abbrev pub chunk_size : ℕ
chunk_size = 16384

abbrev pub image_max : ℕ
image_max = 268435456

abbrev pub ack_window : ℕ
ack_window = 8

-- `pbns_recovery_hash_ops`, on contexts of type `C`.
pub record HashOps (C : Type 0) : Type 0 where
  pub begin : C → Status × C
  pub update : C → List ℕ → Status × C
  pub finish : C → Status × List ℕ × C
  pub clear : C → C

-- `pbns_recovery_ack`
pub record Ack : Type 0 where
  pub required : Bool
  pub next_sequence : ℕ
  pub window : ℕ

abbrev pub zero_ack : Ack
zero_ack = record { required = false; next_sequence = 0; window = 0 }

-- `pbns_recovery_stream`; what `pages` and `hash_context` point at is in `Store`.
pub record RecoveryStream : Type 0 where
  pub request_id : List ℕ
  pub pages : Pointer
  pub image_size : ℕ
  pub offset : ℕ
  pub expected_digest : List ℕ
  pub next_sequence : ℕ
  pub records_since_ack : ℕ
  pub hash_ops : Pointer
  pub hash_active : Bool
  pub initialized : Bool
  pub complete : Bool
  pub failed : Bool

abbrev pub zero_stream : RecoveryStream
zero_stream = record {
  request_id = replicate request_id_size 0;
  pages = null;
  image_size = 0;
  offset = 0;
  expected_digest = replicate digest_size 0;
  next_sequence = 0;
  records_since_ack = 0;
  hash_ops = null;
  hash_active = false;
  initialized = false;
  complete = false;
  failed = false;
}

-- The caller's memory: the bytes of the pages and the context of the hash.
pub record Store (C : Type 0) : Type 0 where
  pub pages : List ℕ
  pub context : C

-- What a call returns and leaves behind.
pub record Outcome (C : Type 0) : Type 0 where
  pub status : Status
  pub stream : RecoveryStream
  pub store : Store C
  pub ack : Ack
