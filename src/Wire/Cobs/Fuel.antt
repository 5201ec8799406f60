-- ===== src/Wire/Cobs/Fuel.antt =====
-- The fuel of the decoder's loop: the length of what is left to read is enough.
use pbns.Common.{
  ℕ, zero, suc, ◌+◌, ◌-◌, ◌≤◌, ◌≡◌, refl, List, [], ◌∷◌, length, drop, length-drop, set, arith,
}
use pbns.Wire.Cobs.{decode_loop, copy_run}

-- Any two amounts of fuel that are at least the length of the input that is left give the same
-- result, so the loop never stops for want of fuel.
pub decode_loop_fuel :
    (capacity m n : ℕ) (rest : List ℕ) (write_index : ℕ) (out : List ℕ)
    → length rest ≤ m
    → length rest ≤ n
    → decode_loop capacity m rest write_index out ≡ decode_loop capacity n rest write_index out
unfolding decode_loop
decode_loop_fuel capacity m n [] write_index out h k = refl
decode_loop_fuel capacity zero n (code ∷ rest) write_index out h k = absurd (omega arith)
decode_loop_fuel capacity (suc m) zero (code ∷ rest) write_index out h k = absurd (omega arith)
decode_loop_fuel capacity (suc m) (suc n) (code ∷ rest) write_index out h k =
    let run = code - 1 in
    let out' = (copy_run run rest write_index out).1 in
    let left = drop run rest in
    let size = length-drop run rest in
    let w = write_index + run in
    rw
      (
        decode_loop_fuel capacity m n left (w + 1) (set out' w 0) (omega (arith, size))
            (omega (arith, size)),
        decode_loop_fuel capacity m n left w out' (omega (arith, size)) (omega (arith, size)),
      )
      refl
