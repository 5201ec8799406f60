-- ===== src/Session/Broker/Storage.antt =====
-- src/core/broker.c: the storage of a broker, its wiping, and pbns_broker_init.
use pbns.Common.{
  ℕ, ◌+◌, Bool, true, false, not, ◌||◌, Option, some, List, [], ◌∷◌, ltb, ◌==◌, if◌then◌else◌,
  length, replicate, Status, ok, err, argument,
}
use pbns.Common.Memory.{Buffer, buffer_is_valid, ranges_overlap}
use pbns.Wire.Frame.{header_size, trailer_size}
use pbns.Wire.RecordReader
use pbns.Session.Broker.Types.{BrokerStorage, Broker, zero_broker, Transport, Platform}

-- The `ranges_overlap` of broker.c, of two buffers.
unfoldable pub buffers_overlap : Buffer → Buffer → Bool
buffers_overlap left right =
    ranges_overlap left.ptr (length left.bytes) right.ptr (length right.bytes)

unfoldable pub overlaps_any : Buffer → List Buffer → Bool
overlaps_any left [] = false
overlaps_any left (right ∷ rest) = buffers_overlap left right || overlaps_any left rest

unfoldable pub any_overlap : List Buffer → Bool
any_overlap [] = false
any_overlap (left ∷ rest) = overlaps_any left rest || any_overlap rest

unfoldable pub storage_is_valid : BrokerStorage → Bool
storage_is_valid s =
    let minimum_raw = header_size + trailer_size in
    let minimum_wire = minimum_raw + 2 in
    if not (buffer_is_valid s.encoded)
      || not (buffer_is_valid s.raw_scratch)
      || not (buffer_is_valid s.receive)
      || not (buffer_is_valid s.decoded)
      || ltb (length s.encoded.bytes) minimum_wire
      || ltb (length s.raw_scratch.bytes) minimum_raw
      || length s.receive.bytes == 0
      || length s.decoded.bytes == 0
    then false
    else not (any_overlap (s.encoded ∷ s.raw_scratch ∷ s.receive ∷ s.decoded ∷ []))

unfoldable pub wipe_buffer : Buffer → Buffer
wipe_buffer b = record b { bytes = replicate (length b.bytes) 0 }

abbrev emptied : Buffer → Buffer
emptied b = record (wipe_buffer b) { len = 0 }

-- `wipe_request_storage`; the argument tells whether the decoded payload is kept.
unfoldable pub wipe_request_storage : Bool → Broker → Broker
unfolding wipe_buffer
wipe_request_storage preserve_decoded b = record b {
  reader = record b.reader { storage = wipe_buffer b.reader.storage };
  raw_scratch = emptied b.raw_scratch;
  receive = emptied b.receive;
  decoded = if preserve_decoded then b.decoded else emptied b.decoded;
}

unfoldable pub request_id_is_nonzero : List ℕ → Bool
request_id_is_nonzero [] = false
request_id_is_nonzero (octet ∷ rest) = not (octet == 0) || request_id_is_nonzero rest

-- `pbns_broker_init` on a broker that is not at NULL. `none` is a table of operations that is at
-- NULL or that has an operation at NULL.
unfoldable pub init :
    {W : Type 0} → Option (Transport W) → Option (Platform W) → BrokerStorage → Status × Broker
init (some transport) (some platform) storage =
    let reader = RecordReader.init storage.encoded in
    if not (storage_is_valid storage)
    then (err argument, zero_broker)
    else if not reader.initialized
    then (err argument, zero_broker)
    else (
      ok,
      record zero_broker {
        raw_scratch = storage.raw_scratch;
        receive = storage.receive;
        decoded = storage.decoded;
        reader = reader;
        initialized = true;
      },
    )
init transport platform storage = (err argument, zero_broker)
