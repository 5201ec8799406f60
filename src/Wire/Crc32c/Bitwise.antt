-- ===== src/Wire/Crc32c/Bitwise.antt =====
-- The table-driven loop computes the bit-by-bit CRC-32C.
use Prim.Native.Nat.{bit_xor}
use pbns.Common.{
  each_under, each_under_sound, ℕ, ◌-◌, ◌*◌, ◌/◌, ◌%◌, ◌^◌, ◌<◌, ◌≡◌, refl, sym, ap, ◌∙◌, true,
  List, [], ◌∷◌, arith, ◌==◌, if◌then◌else◌, ==_iff, get_or, All,
}
use pbns.Common.Words.{uint32_max, IsByte}
use pbns.Common.Xor.{
  zero-bit_xor, bit_xor-half, bit_xor-parity, bit_xor_comm, bit_xor_self, bit_xor_assoc,
  bit_xor-fields, bit_xor-div_256,
}
use pbns.Wire.Crc32c.{crc32c_table, crc_update, crc_loop, crc32c_bytes}

-- The Castagnoli polynomial, bits reversed.
abbrev pub polynomial : ℕ
polynomial = 0x82f6_3b78

-- One bit of the reference: shift out the lowest bit, and subtract the polynomial if it was set.
unfoldable pub shift_bit : ℕ → ℕ
shift_bit x = if x % 2 == 1 then bit_xor (x / 2) polynomial else x / 2

abbrev pub shift_byte : ℕ → ℕ
shift_byte x =
    shift_bit (shift_bit (shift_bit (shift_bit (shift_bit (shift_bit (shift_bit (shift_bit x)))))))

-- The reference checksum of bytes, from a register value on.
unfoldable pub crc_bits : ℕ → List ℕ → ℕ
crc_bits crc [] = crc
crc_bits crc (octet ∷ rest) = crc_bits (shift_byte (bit_xor crc octet)) rest

shift_bit-bit_xor : (a b : ℕ) → shift_bit (bit_xor a b) ≡ bit_xor (shift_bit a) (shift_bit b)
unfolding shift_bit
shift_bit-bit_xor a b =
    rw (bit_xor-half a b, bit_xor-parity a b)
      (ground (
        arith,
        bit_xor_assoc (a / 2) (b / 2) polynomial,
        bit_xor_comm (b / 2) polynomial,
        bit_xor_assoc (a / 2) polynomial (b / 2),
        bit_xor_assoc (a / 2) polynomial (bit_xor (b / 2) polynomial),
        bit_xor_assoc polynomial polynomial (b / 2),
        bit_xor_self polynomial,
        zero-bit_xor (b / 2),
      ))

shift_bit-even : (m : ℕ) → shift_bit (2 * m) ≡ m
unfolding shift_bit
shift_bit-even m = ground arith

shift_byte-bit_xor : (a b : ℕ) → shift_byte (bit_xor a b) ≡ bit_xor (shift_byte a) (shift_byte b)
shift_byte-bit_xor a b = simp shift_bit-bit_xor

-- Eight shifts drop an empty low byte.
shift_byte-empty : (q : ℕ) → shift_byte (q * 2 ^ 8) ≡ q
shift_byte-empty q =
    let e : q * 2 ^ 8 ≡ 2 * (2 * (2 * (2 * (2 * (2 * (2 * (2 * q))))))) = omega arith in
    rw e (simp shift_bit-even)

table_entries : each_under (λ i. shift_byte i == get_or crc32c_table i 0) 256 ≡ true
unfolding each_under shift_bit
table_entries = refl

table_entry : (i : ℕ) → i < 256 → get_or crc32c_table i 0 ≡ shift_byte i
table_entry i h = sym ((==_iff (shift_byte i) _).0 (each_under_sound _ 256 table_entries i h))

-- One look-up does the work of eight bits.
pub crc_update-shift_byte :
    (crc octet : ℕ) → IsByte octet → crc_update crc octet ≡ shift_byte (bit_xor crc octet)
unfolding crc_update
crc_update-shift_byte crc octet h =
    let x = bit_xor crc octet in
    let split : x ≡ bit_xor (x % 256) (x / 256 * 2 ^ 8) =
      omega (arith, bit_xor-fields 8 (x / 256) (x % 256) (omega arith)) in
    let no_octet : octet / 256 ≡ 0 = omega arith in
    let high : x / 256 ≡ crc / 256 =
      bit_xor-div_256 crc octet
      ∙ rw (no_octet, bit_xor_comm (crc / 256) 0) (zero-bit_xor (crc / 256)) in
    rw (table_entry (x % 256) (omega arith), ← high)
      (sym (
        ap shift_byte split
        ∙ shift_byte-bit_xor (x % 256) (x / 256 * 2 ^ 8)
        ∙ rw (shift_byte-empty (x / 256))))

crc_loop-crc_bits :
    (input : List ℕ) (crc : ℕ) → All IsByte input → crc_loop crc input ≡ crc_bits crc input
unfolding crc_loop crc_bits
crc_loop-crc_bits [] crc h = refl
crc_loop-crc_bits (octet ∷ rest) crc h =
    rw (crc_update-shift_byte crc octet h.0) (crc_loop-crc_bits rest _ h.1)

-- The table-driven checksum of any bytes is the one that the reference computes bit by bit.
pub crc32c_bytes-crc_bits :
    (input : List ℕ)
    → All IsByte input
    → crc32c_bytes input ≡ uint32_max - crc_bits uint32_max input
unfolding crc32c_bytes
crc32c_bytes-crc_bits input h = rw (crc_loop-crc_bits input uint32_max h)
