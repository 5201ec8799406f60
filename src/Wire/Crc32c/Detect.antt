-- ===== src/Wire/Crc32c/Detect.antt =====
-- Damage to a single byte changes the checksum.
use Prim.Native.Nat.{bit_xor}
use pbns.Common.{
  ℕ, zero, suc, ◌/◌, ◌%◌, ◌^◌, ◌≤◌, ◌<◌, ◌≡◌, ◌≢◌, refl, sym, ap, ◌∙◌, List, [], ◌∷◌, ◌++◌, arith,
  All,
}
use pbns.Common.Words.{uint32_max, IsByte}
use pbns.Common.Xor.{
  bit_xor_comm, bit_xor_self, bit_xor_assoc, zero-bit_xor, bit_xor-lt, bit_xor-high,
}
use pbns.Wire.Crc32c.{crc_update, crc_loop, crc32c_bytes}
use pbns.Wire.Crc32c.Bitwise.{polynomial, shift_bit, shift_byte, crc_update-shift_byte}

abbrev IsWord : ℕ → Type 0
IsWord x = x < 2 ^ 32

bit_xor_cancel : (a b c : ℕ) → bit_xor a c ≡ bit_xor b c → a ≡ b
bit_xor_cancel a b c h = undo a ∙ ap (λ t. bit_xor t c) h ∙ sym (undo b)
  where
    undo : (x : ℕ) → x ≡ bit_xor (bit_xor x c) c
    undo x = sym (bit_xor_assoc x c c ∙ rw (bit_xor_self c, bit_xor_comm x 0) (zero-bit_xor x))

-- The polynomial has bit 31, so the highest bit of the result tells which branch was taken.
shift_bit-even : (x : ℕ) → IsWord x → x % 2 ≡ 0 → (shift_bit x ≡ x / 2) × (x / 2 < 2 ^ 31)
unfolding shift_bit
shift_bit-even x h e = rw e (refl, omega arith)

shift_bit-odd :
    (x : ℕ)
    → IsWord x
    → x % 2 ≡ 1
    → (shift_bit x ≡ bit_xor (x / 2) polynomial)
      × (2 ^ 31 ≤ bit_xor (x / 2) polynomial)
      × IsWord (bit_xor (x / 2) polynomial)
unfolding shift_bit
shift_bit-odd x h e =
    let high = bit_xor-high 31 (x / 2) 0x2f6_3b78 (omega arith) (omega arith) in
    rw e (refl, omega arith, bit_xor-lt 32 (x / 2) polynomial (omega arith) (omega arith))

shift_bit-IsWord : (x : ℕ) → IsWord x → IsWord (shift_bit x)
shift_bit-IsWord x h = ground (arith, shift_bit-even x h, shift_bit-odd x h)

shift_bit_injective : (x y : ℕ) → IsWord x → IsWord y → shift_bit x ≡ shift_bit y → x ≡ y
shift_bit_injective x y h k e = ground (
  arith,
  shift_bit-even x h,
  shift_bit-odd x h,
  shift_bit-even y k,
  shift_bit-odd y k,
  bit_xor_cancel (x / 2) (y / 2) polynomial,
)

-- `n` shifts.
shifts : ℕ → ℕ → ℕ
shifts zero x = x
shifts (suc n) x = shift_bit (shifts n x)

shifts-IsWord : (n x : ℕ) → IsWord x → IsWord (shifts n x)
unfolding shifts
shifts-IsWord zero x h = h
shifts-IsWord (suc n) x h = shift_bit-IsWord _ (shifts-IsWord n x h)

shifts_injective : (n x y : ℕ) → IsWord x → IsWord y → shifts n x ≡ shifts n y → x ≡ y
unfolding shifts
shifts_injective zero x y h k e = e
shifts_injective (suc n) x y h k e =
    shifts_injective n x y h k
      (shift_bit_injective _ _ (shifts-IsWord n x h) (shifts-IsWord n y k) e)

shift_byte-shifts : (x : ℕ) → shift_byte x ≡ shifts 8 x
unfolding shifts
shift_byte-shifts x = refl

crc_update-IsWord : (crc octet : ℕ) → IsWord crc → IsByte octet → IsWord (crc_update crc octet)
crc_update-IsWord crc octet h k =
    rw (crc_update-shift_byte crc octet k, shift_byte-shifts)
      (shifts-IsWord 8 _ (bit_xor-lt 32 crc octet h (omega arith)))

-- Equal registers after an update come from equal differences.
crc_update_injective :
    (c d a b : ℕ)
    → IsWord c
    → IsWord d
    → IsByte a
    → IsByte b
    → crc_update c a ≡ crc_update d b
    → bit_xor c a ≡ bit_xor d b
crc_update_injective c d a b hc hd ha hb e =
    shifts_injective 8 (bit_xor c a) (bit_xor d b) (bit_xor-lt 32 c a hc (omega arith))
      (bit_xor-lt 32 d b hd (omega arith))
      (rw
        (
          crc_update-shift_byte c a ha,
          crc_update-shift_byte d b hb,
          shift_byte-shifts (bit_xor c a),
          shift_byte-shifts (bit_xor d b),
        )
        at e)

crc_loop-IsWord : (input : List ℕ) (c : ℕ) → IsWord c → All IsByte input → IsWord (crc_loop c input)
unfolding crc_loop
crc_loop-IsWord [] c h k = h
crc_loop-IsWord (a ∷ input) c h k = crc_loop-IsWord input _ (crc_update-IsWord c a h k.0) k.1

crc_loop_injective :
    (input : List ℕ) (c d : ℕ)
    → IsWord c
    → IsWord d
    → All IsByte input
    → crc_loop c input ≡ crc_loop d input
    → c ≡ d
unfolding crc_loop
crc_loop_injective [] c d hc hd k e = e
crc_loop_injective (a ∷ input) c d hc hd k e = bit_xor_cancel c d a (
    crc_update_injective c d a a hc hd k.0 k.0 (
      crc_loop_injective input _ _ (crc_update-IsWord c a hc k.0) (crc_update-IsWord d a hd k.0) k.1
        e))

crc_loop-append : (xs ys : List ℕ) (c : ℕ) → crc_loop c (xs ++ ys) ≡ crc_loop (crc_loop c xs) ys
unfolding crc_loop
crc_loop-append [] ys c = refl
crc_loop-append (x ∷ xs) ys c = crc_loop-append xs ys (crc_update c x)

-- The checksum of bytes is a 32-bit word.
pub crc32c_bytes-lt : (input : List ℕ) → crc32c_bytes input < 2 ^ 32
unfolding crc32c_bytes
crc32c_bytes-lt input = omega arith

-- Two inputs of bytes that differ in one byte, and agree before it and after it, have different
-- checksums.
pub crc32c_bytes-detects :
    (before after : List ℕ) (a b : ℕ)
    → All IsByte before
    → All IsByte after
    → IsByte a
    → IsByte b
    → a ≢ b
    → crc32c_bytes (before ++ a ∷ after) ≢ crc32c_bytes (before ++ b ∷ after)
unfolding crc32c_bytes
crc32c_bytes-detects before after a b hb ha ka kb ne e =
    let c = crc_loop uint32_max before in
    let word = crc_loop-IsWord before uint32_max (omega arith) hb in
    let left = crc_loop-IsWord after _ (crc_update-IsWord c a word ka) ha in
    let right = crc_loop-IsWord after _ (crc_update-IsWord c b word kb) ha in
    let e' =
      rw
        (
          crc_loop-append before (a ∷ after) uint32_max,
          crc_loop-append before (b ∷ after) uint32_max,
        )
        at e in
    ne (same_octet c word (unfold crc_loop in omega arith))
  where
    same_octet :
        (c : ℕ)
        → IsWord c
        → crc_loop (crc_update c a) after ≡ crc_loop (crc_update c b) after
        → a ≡ b
    same_octet c word same = bit_xor_cancel a b c (
        rw (bit_xor_comm a c, bit_xor_comm b c)
          (crc_update_injective c c a b word word ka kb (
            crc_loop_injective after _ _ (crc_update-IsWord c a word ka)
              (crc_update-IsWord c b word kb) ha same)))
