-- ===== src/Storage/AntiRollback/Record.antt =====
-- src/core/anti_rollback.c: the record that a slot holds.
use pbns.Common.{
  ℕ, zero, suc, ◌+◌, ◌*◌, ◌/◌, ◌%◌, ◌^◌, not, ◌&&◌, ◌||◌, Option, none, some, List, [], ◌∷◌, ◌++◌,
  ltb, ◌==◌, if◌then◌else◌, take, drop, bytes_equal,
}
use pbns.Common.Words.{u32_be, read_u32_be}
use pbns.Wire.Crc32c.{crc32c_bytes}

abbrev pub record_size : ℕ
record_size = 24

-- "PBR1"
abbrev pub record_magic : List ℕ
record_magic = 80 ∷ 66 ∷ 82 ∷ 49 ∷ []

-- The loop of `write_u64_be`: the last byte is the lowest.
unfoldable pub be_bytes : ℕ → ℕ → List ℕ
be_bytes zero value = []
be_bytes (suc n) value = be_bytes n (value / 256) ++ (value % 256) ∷ []

-- `write_u64_be`
unfoldable pub u64_be : ℕ → List ℕ
u64_be value = be_bytes 8 value

-- The loop of `read_u64_be`; a byte fills the eight bits that the shift has freed.
unfoldable pub read_be : ℕ → List ℕ → ℕ
read_be value [] = value
read_be value (b ∷ bytes) = read_be ((value * 256 + b) % 2 ^ 64) bytes

-- `read_u64_be`
unfoldable pub read_u64_be : List ℕ → ℕ
read_u64_be source = read_be 0 (take 8 source)

-- The bytes 0 to 19 of a record.
unfoldable pub record_body : ℕ → ℕ → List ℕ
record_body generation version = record_magic ++ u64_be generation ++ u64_be version

unfoldable pub encode_record : ℕ → ℕ → List ℕ
encode_record generation version =
    let body = record_body generation version in body ++ u32_be (crc32c_bytes body)

-- `decode_record`: the generation and the version of a record that is valid.
unfoldable pub decode_record : List ℕ → Option (ℕ × ℕ)
decode_record record_bytes =
    let generation = read_u64_be (drop 4 record_bytes) in
    let version = read_u64_be (drop 12 record_bytes) in
    if not (bytes_equal (take 4 record_bytes) record_magic)
      || not (read_u32_be (drop 20 record_bytes) == crc32c_bytes (take 20 record_bytes))
    then none
    else if ltb 0 generation && ltb 0 version
    then some (generation, version)
    else none
