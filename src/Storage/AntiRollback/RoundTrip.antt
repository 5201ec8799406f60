-- ===== src/Storage/AntiRollback/RoundTrip.antt =====
-- A record that is written is read back, and no other generation or version from it.
use pbns.Common.{
  ℕ, zero, suc, ◌+◌, ◌*◌, ◌/◌, ◌%◌, ◌^◌, ◌<◌, ◌≡◌, refl, sym, ap, ◌∙◌, some, List, [], ◌∷◌, ◌++◌,
  append-nil, append_assoc, arith, ==_iff, length, take, drop, length-append, take-append_exact,
  drop-append_exact, bytes_equal_refl,
}
use pbns.Common.Words.{u32_be, read_u32_be, read_u32_be-u32_be}
use pbns.Wire.Crc32c.{crc32c_bytes}
use pbns.Wire.Crc32c.Detect.{crc32c_bytes-lt}
use pbns.Storage.AntiRollback.{
  be_bytes, u64_be, read_be, read_u64_be, record_body, encode_record, decode_record, record_magic,
}

-- `256 ^ n`, for the tactics.
abbrev range : ℕ → ℕ
range zero = 1
range (suc n) = 256 * range n

length-be_bytes : (n v : ℕ) → length (be_bytes n v) ≡ n
unfolding be_bytes
length-be_bytes zero v = refl
length-be_bytes (suc n) v =
    omega
      (arith, length-append (be_bytes n (v / 256)) ((v % 256) ∷ []), length-be_bytes n (v / 256))

read_be-snoc :
    (acc b : ℕ) (bytes : List ℕ)
    → read_be acc (bytes ++ b ∷ []) ≡ (read_be acc bytes * 256 + b) % 2 ^ 64
unfolding read_be
read_be-snoc acc b [] = refl
read_be-snoc acc b (c ∷ bytes) = read_be-snoc ((acc * 256 + c) % 2 ^ 64) b bytes

read_be-be_bytes : (n v : ℕ) → v < range n → v < 2 ^ 64 → read_be 0 (be_bytes n v) ≡ v
unfolding be_bytes read_be
read_be-be_bytes zero v h k = omega arith
read_be-be_bytes (suc n) v h k =
    let earlier = read_be-be_bytes n (v / 256) (omega arith) (omega arith) in
    read_be-snoc 0 (v % 256) (be_bytes n (v / 256)) ∙ rw earlier (omega arith)

read_u64_be-u64_be : (v : ℕ) (rest : List ℕ) → v < 2 ^ 64 → read_u64_be (u64_be v ++ rest) ≡ v
unfolding read_u64_be u64_be
read_u64_be-u64_be v rest h =
    ap (read_be 0) (take-append_exact (be_bytes 8 v) rest 8 (sym (length-be_bytes 8 v)))
    ∙ read_be-be_bytes 8 v (omega arith) h

-- What makes a record decode.
decode_record-fields :
    (r : List ℕ) (g v : ℕ)
    → take 4 r ≡ record_magic
    → read_u32_be (drop 20 r) ≡ crc32c_bytes (take 20 r)
    → read_u64_be (drop 4 r) ≡ g
    → read_u64_be (drop 12 r) ≡ v
    → 0 < g
    → 0 < v
    → decode_record r ≡ some (g, v)
unfolding decode_record
decode_record-fields r g v magic sum eg ev pg pv =
    rw (magic, sum, eg, ev)
      (ground (
        arith,
        bytes_equal_refl record_magic,
        ==_iff (crc32c_bytes (take 20 r)) (crc32c_bytes (take 20 r)),
      ))

-- A record that was encoded from a generation and a version of 64 bits, neither of them 0, decodes
-- to them.
pub decode_record-encode_record :
    (generation version : ℕ)
    → 0 < generation
    → 0 < version
    → generation < 2 ^ 64
    → version < 2 ^ 64
    → decode_record (encode_record generation version) ≡ some (generation, version)
unfolding encode_record record_body u64_be
decode_record-encode_record generation version pg pv bg bv =
    let g = u64_be generation in
    let v = u64_be version in
    let body = record_magic ++ g ++ v in
    let sum = crc32c_bytes body in
    let crc = u32_be sum in
    let lg = length-be_bytes 8 generation in
    let lv = length-be_bytes 8 version in
    let size : 20 ≡ length body = omega (arith, length-append g v) in
    let summed : drop 20 (body ++ crc) ≡ crc = drop-append_exact body crc 20 size in
    let covered : take 20 (body ++ crc) ≡ body = take-append_exact body crc 20 size in
    decode_record-fields (body ++ crc) generation version refl
      (ap read_u32_be (summed ∙ sym (append-nil crc))
        ∙ read_u32_be-u32_be sum [] (crc32c_bytes-lt body)
        ∙ ap crc32c_bytes (sym covered))
      (ap read_u64_be (append_assoc g v crc) ∙ read_u64_be-u64_be generation (v ++ crc) bg)
      (ap read_u64_be
          (ap (drop 8) (append_assoc g v crc) ∙ drop-append_exact g (v ++ crc) 8 (sym lg))
        ∙ read_u64_be-u64_be version crc bv)
      pg pv
