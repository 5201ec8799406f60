-- ===== src/Wire/Cobs.antt =====
-- src/core/cobs.c: Consistent Overhead Byte Stuffing into caller-provided storage.
-- The loops keep the indices of the source; the list is the input from `read_index` on.
pub mod Spec
pub mod Encode
pub mod Storage
pub mod Decode
pub mod RoundTrip
pub mod Sound
pub mod Fuel
use pbns.Common.{
  ℕ, zero, suc, ◌+◌, ◌-◌, ◌/◌, ◌%◌, Bool, true, false, not, ◌&&◌, ◌||◌, List, [], ◌∷◌, ltb, leb,
  ◌==◌, if◌then◌else◌, length, set, drop, Status, ok, err, argument, limit, format, Option, none,
  some,
}
use pbns.Common.Memory.{
  View, Buffer, Pointer, null, given, view_is_valid, buffer_is_valid, size_max,
}

-- What a call leaves behind: its status, the output storage and `*written`.
pub record Outcome : Type 0 where
  pub status : Status
  pub output : List ℕ
  pub written : ℕ

abbrev fail : Status → List ℕ → Outcome
fail status output = record { status = status; output = output; written = 0 }

-- `pbns_cobs_max_encoded_size`, with the value stored through `result`.
unfoldable pub max_encoded_size : Pointer → ℕ → Status × ℕ
max_encoded_size null input_len = (err argument, 0)
max_encoded_size given input_len =
    let overhead = input_len / 254 + 1 in
    if ltb (size_max - overhead) input_len then (err limit, 0) else (ok, input_len + overhead)

-- The `while` loop of `pbns_cobs_encode`, and what follows it.
unfoldable pub encode_loop : (capacity : ℕ) → List ℕ → ℕ → ℕ → ℕ → List ℕ → Outcome
encode_loop capacity [] write_index code_index code out = record {
  status = ok;
  output = set out code_index code;
  written = write_index;
}
encode_loop capacity (b ∷ rest) write_index code_index code out =
    let full = leb capacity write_index in
    let closed = set out code_index code in
    let stored = set out write_index b in
    let code' = (code + 1) % 256 in
    let closed' = set stored code_index code' in
    let next_zero = encode_loop capacity rest (write_index + 1) write_index 1 closed in
    let next_block = encode_loop capacity rest (write_index + 2) (write_index + 1) 1 closed' in
    let next = encode_loop capacity rest (write_index + 1) code_index code' stored in
    if b == 0
    then (if full then fail (err limit) closed else next_zero)
    else if full
    then fail (err limit) out
    else if code' == 255
    then (if leb capacity (write_index + 1) then fail (err limit) closed' else next_block)
    else next

unfoldable pub encode : Pointer → View → Buffer → Outcome
unfolding encode_loop
encode null input output = fail (err argument) output.bytes
encode given input output =
    if not (view_is_valid input) || not (buffer_is_valid output)
    then fail (err argument) output.bytes
    else if length output.bytes == 0
    then fail (err limit) output.bytes
    else encode_loop (length output.bytes) input.bytes 1 0 1 output.bytes

-- The inner `for` loop of `pbns_cobs_decode`: `none` beside the storage if a zero stands in the run.
unfoldable pub copy_run : ℕ → List ℕ → ℕ → List ℕ → Bool × List ℕ
copy_run zero rest write_index out = (true, out)
copy_run (suc n) [] write_index out = (true, out)
copy_run (suc n) (value ∷ rest) write_index out =
    let next = copy_run n rest (write_index + 1) (set out write_index value) in
    if value == 0 then (false, out) else next

-- The outer loop of `pbns_cobs_decode`. Each round reads a byte, so the length of the input is fuel
-- enough.
unfoldable pub decode_loop : (capacity fuel : ℕ) → List ℕ → ℕ → List ℕ → Outcome
decode_loop capacity fuel [] write_index out = record {
  status = ok;
  output = out;
  written = write_index;
}
decode_loop capacity zero (code ∷ rest) write_index out = fail (err format) out
decode_loop capacity (suc fuel) (code ∷ rest) write_index out =
    let run_length = code - 1 in
    let (clean, out') = copy_run run_length rest write_index out in
    let rest' = drop run_length rest in
    let write_index' = write_index + run_length in
    let next_zero = decode_loop capacity fuel rest' (write_index' + 1) (set out' write_index' 0) in
    let next = decode_loop capacity fuel rest' write_index' out' in
    if code == 0
    then fail (err format) out
    else if ltb (length rest) run_length
    then fail (err format) out
    else if ltb (capacity - write_index) run_length
    then fail (err limit) out
    else if not clean
    then fail (err format) out'
    else if not (code == 255) && ltb 0 (length rest')
    then (if leb capacity write_index' then fail (err limit) out' else next_zero)
    else next

unfoldable pub decode : Pointer → View → Buffer → Outcome
unfolding decode_loop
decode null input output = fail (err argument) output.bytes
decode given input output =
    if not (view_is_valid input) || not (buffer_is_valid output)
    then fail (err argument) output.bytes
    else if length input.bytes == 0
    then fail (err format) output.bytes
    else decode_loop (length output.bytes) (length input.bytes) input.bytes 0 output.bytes
