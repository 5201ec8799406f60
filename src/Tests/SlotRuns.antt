-- ===== src/Tests/SlotRuns.antt =====
-- src/core/anti_rollback.c with a memory that is a pair of slots.
use pbns.Common.{
  ℕ, ◌+◌, ◌%◌, ◌^◌, ◌≡◌, ◌<◌, ◌⊎◌, refl, true, false, Bool, Option, none, some, List, [], ==_iff,
  ne→==, bytes_equal, Status, ok, arith, ◌==◌, if◌then◌else◌,
}
use pbns.Common.Memory.{given}
use pbns.Common.Words.{u32_be, read_u32_be}
use pbns.Wire.Crc32c.{crc32c_bytes, crc_loop, crc_update}
use pbns.Storage.AntiRollback.{
  AntiRollback, init_nvram, read, advance, backend, backend_of, is_nvram, read_backend, read_nvram,
  select, encode_record, decode_record, record_body, be_bytes, u64_be, read_be, read_u64_be,
  advance_from, verify, write_backend,
}
use pbns.Storage.AntiRollback.RoundTrip.{decode_record-encode_record}
use pbns.Storage.AntiRollback.Slots.{KeepsSlots, Newest, decode_slot, read_nvram-Newest}
use pbns.Storage.AntiRollback.Advance.{advance-raises, advance-active}
use pbns.Storage.AntiRollback.Progress.{advance-succeeds, next_state, no_authorization}

decode_record-encode_record_example : decode_record (encode_record 5 9) ≡ some (5, 9)
decode_record-encode_record_example =
    decode_record-encode_record 5 9 (omega arith) (omega arith) (omega arith) (omega arith)

abbrev Cells : Type 0
Cells = ℕ → Option (List ℕ)

abbrev cell : Cells → ℕ → Option (List ℕ)
cell w n = w n

abbrev bytes_of : Option (List ℕ) → List ℕ
bytes_of none = []
bytes_of (some bytes) = bytes

abbrev is_present : Option (List ℕ) → Bool
is_present none = false
is_present (some bytes) = true

abbrev slot_read : Cells → ℕ → Status × List ℕ × Bool × Cells
slot_read w n = (ok, bytes_of (cell w n), is_present (cell w n), w)

abbrev slot_write : Cells → ℕ → List ℕ → Status × Cells
slot_write w n bytes = (ok, λ m. if m == n then some bytes else w m)

held :
    (o : Option (List ℕ))
    → (if is_present o then decode_record (bytes_of o) else none) ≡ decode_slot o
held none = refl
held (some bytes) = refl

keeps : KeepsSlots slot_read slot_write cell
keeps = record {
  read_ok = λ w n h. held (cell w n);
  read_same = λ w n m. refl;
  write_ok = λ w n bytes h. rw ((==_iff n n).1 refl) refl;
  write_other = λ w n m bytes h. rw (ne→== m n h) refl;
}

-- Slot 0 holds version 4, slot 1 nothing.
abbrev cells : Cells
cells n = if n == 0 then some (encode_record 1 4) else none

is_readable :
    (read_backend (backend_of (init_nvram (some slot_read) (some slot_write)).1) cells).0 ≡ ok
unfolding read_backend backend init_nvram read_nvram select encode_record decode_record record_body
    be_bytes u64_be read_be read_u64_be u32_be read_u32_be crc32c_bytes crc_loop crc_update
    bytes_equal
is_readable = refl

read_nvram-Newest_example :
    Newest (decode_slot (cell cells 0)) (decode_slot (cell cells 1)) (read_nvram slot_read cells).1
unfolding read_backend backend init_nvram
read_nvram-Newest_example = read_nvram-Newest slot_read slot_write cell keeps cells is_readable

abbrev controller : AntiRollback Cells
controller = (init_nvram (some slot_read) (some slot_write)).1

advance-raises_example :
    let before = read controller given cells in
    let after = advance controller 9 no_authorization given cells in
    (before.0 ≡ ok)
    × (before.1.version < 9)
    × (after.1.version ≡ 9)
    × ((is_nvram (backend_of controller) ≡ false)
        ⊎ (after.1.generation ≡ (before.1.generation + 1) % 2 ^ 64))
unfolding read_backend backend init_nvram read_nvram select encode_record decode_record record_body
    be_bytes u64_be read_be read_u64_be u32_be read_u32_be crc32c_bytes crc_loop crc_update
    bytes_equal advance advance_from verify write_backend
advance-raises_example = advance-raises controller 9 no_authorization cells refl

advance-active_example : cell (advance controller 9 no_authorization given cells).2 0 ≡ cell cells 0
unfolding read read_backend backend init_nvram read_nvram select encode_record decode_record
    record_body be_bytes u64_be read_be read_u64_be u32_be read_u32_be crc32c_bytes crc_loop
    crc_update bytes_equal
advance-active_example =
    advance-active slot_read slot_write cell keeps 9 no_authorization given cells 0 refl
      (omega arith)

advance-succeeds_example :
    let after = advance controller 9 no_authorization given cells in
    (after.0 ≡ ok) × (after.1 ≡ next_state (read controller given cells).1 9)
unfolding read read_backend backend init_nvram read_nvram select encode_record decode_record
    record_body be_bytes u64_be read_be read_u64_be u32_be read_u32_be crc32c_bytes crc_loop
    crc_update bytes_equal
advance-succeeds_example =
    advance-succeeds slot_read slot_write cell keeps 9 cells (λ v n. refl) (λ v n bytes. refl) refl
      (omega arith) (omega arith) (omega arith)
