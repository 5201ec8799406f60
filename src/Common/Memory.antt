-- ===== src/Common/Memory.antt =====
-- include/pbns/buffer.h: views and buffers. A pointer is its address, 0 for NULL, and comes with
-- the bytes that it points at; a length and a capacity are those of the bytes.
use Prim.Native.Nat.{ℕ, ◌+◌, ◌-◌, ◌^◌}
use mathlib.Core.Bool.{Bool, true, false, not, ◌&&◌, ◌||◌}
use mathlib.Core.List.{List, []}
use pbns.Common.Tests.{ltb, ◌==◌, if◌then◌else◌}
use pbns.Common.Lists.{length}

-- `SIZE_MAX`, `UINTPTR_MAX` and `UINT64_MAX` of the supported 64-bit hosts.
abbrev pub size_max : ℕ
size_max = 2 ^ 64 - 1

-- `pbns_view`; the bytes of a view at NULL are never read.
pub record View : Type 0 where
  pub ptr : ℕ
  pub bytes : List ℕ

-- `pbns_buffer`: `bytes` are the `cap` bytes of the storage.
pub record Buffer : Type 0 where
  pub ptr : ℕ
  pub len : ℕ
  pub bytes : List ℕ

abbrev pub null_view : View
null_view = record { ptr = 0; bytes = [] }

abbrev pub null_buffer : Buffer
null_buffer = record { ptr = 0; len = 0; bytes = [] }

abbrev pub view_is_valid : View → Bool
view_is_valid v = not (v.ptr == 0) || length v.bytes == 0

abbrev pub buffer_is_valid : Buffer → Bool
buffer_is_valid b = b.len == 0 && (not (b.ptr == 0) || length b.bytes == 0)

-- Whether `[left, left + left_len)` and `[right, right + right_len)` share an address.
unfoldable pub ranges_overlap : ℕ → ℕ → ℕ → ℕ → Bool
ranges_overlap left left_len right right_len =
    if left_len == 0 || right_len == 0
    then false
    else if ltb (size_max - left) left_len || ltb (size_max - right) right_len
    then true
    else ltb left (right + right_len) && ltb right (left + left_len)

-- A pointer argument through which a result is passed back: NULL or not.
pub data Pointer : Type 0 where
  null given : Pointer

abbrev pub is_null : Pointer → Bool
is_null null = true
is_null given = false
