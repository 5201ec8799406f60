-- ===== src/Session/Broker/RemoteError.antt =====
-- src/core/broker.c: decode_remote_error, over what it uses of the CBOR library.
pub mod Leaving
use pbns.Common.{
  ℕ, ◌+◌, ◌-◌, Bool, true, false, not, ◌&&◌, ◌||◌, Option, none, some, List, [], ◌∷◌, ltb, ◌==◌,
  if◌then◌else◌, length, take, get_or, bytes_equal, Status, ok, err, Error, argument, limit, format,
  crc, version, service, message_type, sequence, state, would_block, timeout, transport, crypto,
  authentication, replay, unsupported, unimplemented, entropy, ambiguous, resource, io, busy,
}
use pbns.Common.Memory.{View}
use pbns.Common.Actions.{◌>>=◌, ◌>>◌, pure, raise, settle, guard}
use pbns.Session.Broker.Types.{
  Item, ItemValue, map_of, int64, negative, uint64, text_string, other_value, ItemLabel, no_label,
  other_label, int_label, ErrorCodec, Broker, Task, the_broker, update,
}
use pbns.Session.Broker.Utf8.{utf8_is_valid}

-- `PBNS_ERROR_FIELD_COUNT` and `PBNS_ERROR_DETAIL_MAX`
abbrev pub error_field_count : ℕ
error_field_count = 3

abbrev pub error_detail_max : ℕ
error_detail_max = 256

-- The negated codes, in the order of their numbers from 1.
abbrev errors : List Error
errors =
    argument ∷ limit ∷ format ∷ crc ∷ version ∷ service ∷ message_type ∷ sequence ∷ state
    ∷ would_block ∷ timeout ∷ transport ∷ crypto ∷ authentication ∷ replay ∷ unsupported
    ∷ unimplemented ∷ entropy ∷ ambiguous ∷ resource ∷ io ∷ busy ∷ []

-- `(pbns_status)(-(int32_t)code)`
unfoldable pub error_of_code : ℕ → Error
error_of_code code = get_or errors (code - 1) argument

unfoldable pub has_label : ItemLabel → ℕ → Bool
has_label (int_label n) expected = n == expected
has_label _ expected = false

-- `item.uDataType == QCBOR_TYPE_MAP && item.val.uCount == count`
unfoldable pub is_map_of : ItemValue → ℕ → Bool
is_map_of (map_of n) count = n == count
is_map_of _ count = false

unfoldable pub is_unlabelled : ItemLabel → Bool
is_unlabelled no_label = true
is_unlabelled _ = false

-- `item_to_uint64`
unfoldable pub item_to_uint64 : ItemValue → Option ℕ
item_to_uint64 (int64 n) = some n
item_to_uint64 (uint64 n) = some n
item_to_uint64 _ = none

unfoldable pub item_text : ItemValue → Option (List ℕ)
item_text (text_string s) = some s
item_text _ = none

module _ {W : Type 0} where
  -- `if (!found) { return error; }`
  unfoldable pub expect : {A : Type 0} → Option A → Error → Task W A
  expect none e = raise e
  expect (some a) e = pure a

  module _ (codec : ErrorCodec) where
    -- `next_labeled_item`, after `index` items.
    unfoldable pub next_labeled_item : List ℕ → ℕ → ℕ → Task W ItemValue
    unfolding expect has_label
    next_labeled_item payload index expected_label = do
      item ← expect (codec.next_item payload index) format
      guard (not (item.nesting == 1) || not (has_label item.label expected_label)) format
      pure item.value

    -- The last part: the payload has to be the canonical map of what was read, which is encoded into
    -- the storage of the decoded payload.
    unfoldable pub compare_canonical : List ℕ → ℕ → ℕ → List ℕ → Task W Error
    unfolding expect error_of_code
    compare_canonical payload code peer_service detail = do
      b ← the_broker
      let (canonical, bytes) = codec.encode_error code peer_service detail b.decoded.bytes
      update λ c. record c { decoded = record c.decoded { bytes = bytes } }
      size ← expect canonical limit
      guard (not (size == length payload) || not (bytes_equal (take size bytes) payload)) format
      pure (error_of_code code)

    -- `decode_remote_error`; it returns the code that the peer has sent, if it returns at all.
    unfoldable pub remote_error_code : List ℕ → ℕ → Task W Error
    unfolding expect is_map_of is_unlabelled next_labeled_item item_to_uint64 item_text
        compare_canonical
    remote_error_code payload expected_service = do
      head ← expect (codec.next_item payload 0) format
      guard (not (is_map_of head.value error_field_count) || not (is_unlabelled head.label)) format
      first ← next_labeled_item payload 1 1
      code ← expect (item_to_uint64 first) format
      guard (ltb code 1 || ltb 22 code) format
      second ← next_labeled_item payload 2 2
      peer_service ← expect (item_to_uint64 second) format
      guard (not (peer_service == expected_service)) service
      third ← next_labeled_item payload 3 3
      detail ← expect (item_text third) format
      guard (ltb error_detail_max (length detail)) format
      guard (not (utf8_is_valid detail) || not (codec.finished payload 4)) format
      compare_canonical payload code peer_service detail

    -- Every way through `decode_remote_error` returns an error.
    unfoldable pub decode_remote_error : {A : Type 0} → List ℕ → ℕ → Task W A
    unfolding remote_error_code
    decode_remote_error payload expected_service = do
      code ← remote_error_code payload expected_service
      raise code
