-- ===== src/Wire/Cobs/Spec.antt =====
-- The encoding as a plain function of the bytes, with no storage.
use pbns.Common.{
  ◌<◌, ◌/◌, ◌≢◌, All, All-append, append-nil, ◌≤◌, true, false, ◌≡◌, arith, length-append, ℕ, ◌+◌,
  List, [], ◌∷◌, ◌++◌, ◌==◌, if◌then◌else◌, length,
}

-- `block` holds the bytes since the last code byte: at most 253 of them, none zero.
unfoldable pub encoded_from : List ℕ → List ℕ → List ℕ
encoded_from block [] = (length block + 1) ∷ block
encoded_from block (b ∷ rest) =
    let closed = (length block + 1) ∷ (block ++ encoded_from [] rest) in
    let full = 255 ∷ (block ++ b ∷ encoded_from [] rest) in
    let open_block = encoded_from (block ++ b ∷ []) rest in
    if b == 0 then closed else if length block + 2 == 255 then full else open_block

abbrev pub encoded : List ℕ → List ℕ
encoded = encoded_from []

-- Each byte costs one place at least, and the last code byte one more.
pub length-encoded_from :
    (block rest : List ℕ) → length block + length rest + 1 ≤ length (encoded_from block rest)
unfolding encoded_from
length-encoded_from block [] = omega arith
length-encoded_from block (b ∷ rest) = ground (
  arith,
  length-encoded_from [] rest,
  length-encoded_from (block ++ b ∷ []) rest,
  length-append {0} block (b ∷ []),
  length-append {0} block (encoded_from [] rest),
  length-append {0} block (b ∷ encoded_from [] rest),
)

pub encoded_from-nil : (block : List ℕ) → encoded_from block [] ≡ (length block + 1) ∷ (block ++ [])
unfolding encoded_from
encoded_from-nil block = rw append-nil

module _ (block rest : List ℕ) (b : ℕ) where
  pub encoded_from-zero :
      (b == 0) ≡ true
      → encoded_from block (b ∷ rest) ≡ (length block + 1) ∷ (block ++ encoded_from [] rest)
  unfolding encoded_from
  encoded_from-zero z = rw z

  pub encoded_from-full :
      (b == 0) ≡ false
      → (length block + 2 == 255) ≡ true
      → encoded_from block (b ∷ rest) ≡ 255 ∷ (block ++ b ∷ encoded_from [] rest)
  unfolding encoded_from
  encoded_from-full z f = rw (z, f)

  pub encoded_from-open :
      (b == 0) ≡ false
      → (length block + 2 == 255) ≡ false
      → encoded_from block (b ∷ rest) ≡ encoded_from (block ++ b ∷ []) rest
  unfolding encoded_from
  encoded_from-open z f = rw (z, f)

-- A code byte for each 254 bytes begun, and one more.
pub length-encoded-le :
    (block rest : List ℕ)
    → length block < 254
    → length (encoded_from block rest)
      ≤ length block + length rest + (length block + length rest) / 254 + 1
unfolding encoded_from
length-encoded-le block [] h = omega arith
length-encoded-le block (b ∷ rest) h = ground (
  arith,
  length-encoded-le [] rest,
  length-encoded-le (block ++ b ∷ []) rest,
  length-append {0} block (b ∷ []),
  length-append {0} block (encoded_from [] rest),
  length-append {0} block (b ∷ encoded_from [] rest),
)

abbrev pub IsCode : ℕ → Type 0
IsCode b = (b ≢ 0) × (b < 256)

-- An encoding of bytes holds bytes, and no zero.
pub encoded_from-IsCode :
    (block rest : List ℕ)
    → length block < 254
    → All IsCode block
    → All (λ b. b < 256) rest
    → All IsCode (encoded_from block rest)
unfolding encoded_from
encoded_from-IsCode block [] h k m = (omega arith, k)
encoded_from-IsCode block (b ∷ rest) h k m = ground (
  arith,
  length-append {0} block (b ∷ []),
  encoded_from-IsCode [] rest,
  encoded_from-IsCode (block ++ b ∷ []) rest,
  All-append IsCode block (encoded_from [] rest),
  All-append IsCode block (b ∷ []),
  All-append IsCode block (b ∷ encoded_from [] rest),
)
