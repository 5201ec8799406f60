-- ===== src/Common/Words.antt =====
-- `write_u32_be` and `read_u32_be`, the same code in frame.c, stream.c, broker.c and anti_rollback.c.
use pbns.Common.{ℕ, ◌+◌, ◌-◌, ◌*◌, ◌/◌, ◌%◌, ◌^◌, ◌<◌, ◌≡◌, List, [], ◌∷◌, ◌++◌, arith, All}

abbrev pub uint32_max : ℕ
uint32_max = 2 ^ 32 - 1

abbrev pub uint64_max : ℕ
uint64_max = 2 ^ 64 - 1

abbrev pub IsByte : ℕ → Type 0
IsByte b = b < 256

-- The four bytes that `write_u32_be` stores.
unfoldable pub u32_be : ℕ → List ℕ
u32_be v = (v / 2 ^ 24 % 256) ∷ (v / 2 ^ 16 % 256) ∷ (v / 2 ^ 8 % 256) ∷ (v % 256) ∷ []

-- The `|` of shifted bytes is a sum. Callers have checked that four bytes are there.
unfoldable pub read_u32_be : List ℕ → ℕ
read_u32_be (a ∷ b ∷ c ∷ d ∷ _) = a * 2 ^ 24 + b * 2 ^ 16 + c * 2 ^ 8 + d
read_u32_be _ = 0

pub read_u32_be-u32_be : (v : ℕ) (rest : List ℕ) → v < 2 ^ 32 → read_u32_be (u32_be v ++ rest) ≡ v
unfolding u32_be read_u32_be
read_u32_be-u32_be v rest h = omega arith

pub u32_be-All : (v : ℕ) → All IsByte (u32_be v)
unfolding u32_be
u32_be-All v = omega arith
