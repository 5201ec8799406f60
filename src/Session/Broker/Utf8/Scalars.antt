-- ===== src/Session/Broker/Utf8/Scalars.antt =====
-- What the check of a text accepts: the encodings of Unicode scalar values, in their shortest form.
use pbns.Common.{
  ℕ, ◌+◌, ◌*◌, ◌-◌, ◌/◌, ◌%◌, ◌≤◌, ◌<◌, ◌≡◌, ◌⊎◌, ◌↔◌, inl, inr, refl, sym, ◌∙◌, Bool, true, false,
  ◌&&◌, List, [], ◌∷◌, ◌++◌, ltb, leb, ◌==◌, if◌then◌else◌, All, arith, Bool-cases, leb→le,
  &&→right, ltb→lt,
}
use pbns.Session.Broker.Utf8.{utf8_is_valid, within}

-- A code point that is no surrogate.
abbrev pub IsScalar : ℕ → Type 0
IsScalar c = (c < 0xd800) ⊎ ((0xe000 ≤ c) × (c < 0x110000))

-- The encoding of a code point by the ranges of RFC 3629.
unfoldable pub encode_scalar : ℕ → List ℕ
encode_scalar c =
    if ltb c 0x80
    then c ∷ []
    else if ltb c 0x800
    then (0xc0 + c / 64) ∷ (0x80 + c % 64) ∷ []
    else if ltb c 0x10000
    then (0xe0 + c / 4096) ∷ (0x80 + c / 64 % 64) ∷ (0x80 + c % 64) ∷ []
    else (0xf0 + c / 262144) ∷ (0x80 + c / 4096 % 64) ∷ (0x80 + c / 64 % 64) ∷ (0x80 + c % 64) ∷ []

unfoldable pub encode_text : List ℕ → List ℕ
encode_text [] = []
encode_text (c ∷ cs) = encode_scalar c ++ encode_text cs

-- One round of the loop on each length of sequence.
one_byte : (a : ℕ) (rest : List ℕ) → a < 0x80 → utf8_is_valid (a ∷ rest) ≡ utf8_is_valid rest
unfolding utf8_is_valid
one_byte a [] h = ground arith
one_byte a (b ∷ []) h = ground arith
one_byte a (b ∷ c ∷ []) h = ground arith
one_byte a (b ∷ c ∷ d ∷ rest) h = ground arith

two_bytes :
    (a b : ℕ) (rest : List ℕ)
    → 0xc2 ≤ a
    → a < 0xe0
    → 0x80 ≤ b
    → b < 0xc0
    → utf8_is_valid (a ∷ b ∷ rest) ≡ utf8_is_valid rest
unfolding utf8_is_valid
two_bytes a b [] h k i j = ground arith
two_bytes a b (c ∷ []) h k i j = ground arith
two_bytes a b (c ∷ d ∷ rest) h k i j = ground arith

three_bytes :
    (a b c : ℕ) (rest : List ℕ)
    → 0xe0 ≤ a
    → a < 0xf0
    → (if a == 0xe0 then 0xa0 else 0x80) ≤ b
    → b ≤ (if a == 0xed then 0x9f else 0xbf)
    → 0x80 ≤ c
    → c < 0xc0
    → utf8_is_valid (a ∷ b ∷ c ∷ rest) ≡ utf8_is_valid rest
unfolding utf8_is_valid
three_bytes a b c [] h k i j l m = ground arith
three_bytes a b c (d ∷ rest) h k i j l m = ground arith

four_bytes :
    (a b c d : ℕ) (rest : List ℕ)
    → 0xf0 ≤ a
    → a < 0xf5
    → (if a == 0xf0 then 0x90 else 0x80) ≤ b
    → b ≤ (if a == 0xf4 then 0x8f else 0xbf)
    → 0x80 ≤ c
    → c < 0xc0
    → 0x80 ≤ d
    → d < 0xc0
    → utf8_is_valid (a ∷ b ∷ c ∷ d ∷ rest) ≡ utf8_is_valid rest
unfolding utf8_is_valid
four_bytes a b c d rest h k i j l m n o = ground arith

encode_scalar-valid :
    (c : ℕ) (rest : List ℕ)
    → IsScalar c
    → utf8_is_valid (encode_scalar c ++ rest) ≡ utf8_is_valid rest
unfolding encode_scalar
encode_scalar-valid c rest s = elim (Bool-cases (ltb c 0x80)) [
  | inl one ↦ rw one (one_byte c rest (ltb→lt _ _ one))
  | inr more ↦ elim (Bool-cases (ltb c 0x800)) [
    | inl two ↦
        rw (more, two)
          (two_bytes _ _ rest (ground arith) (ground arith) (omega arith) (omega arith))
    | inr longer ↦ elim (Bool-cases (ltb c 0x10000)) [
      | inl three ↦
          rw (more, longer, three)
            (three_bytes _ _ _ rest (ground arith) (ground arith) (ground arith) (ground arith)
              (omega arith) (omega arith))
      | inr four ↦
          rw (more, longer, four)
            (four_bytes _ _ _ _ rest (ground arith) (ground arith) (ground arith) (ground arith)
              (omega arith) (omega arith) (omega arith) (omega arith))
    ]
  ]
]

encode_text-valid : (cs : List ℕ) → All IsScalar cs → utf8_is_valid (encode_text cs) ≡ true
unfolding encode_text utf8_is_valid
encode_text-valid [] h = refl
encode_text-valid (c ∷ cs) h = encode_scalar-valid c (encode_text cs) h.0 ∙ encode_text-valid cs h.1

-- The code point of a sequence.
Scalar : List ℕ → Type 0
Scalar bytes = (x : ℕ) × IsScalar x × (encode_scalar x ≡ bytes)

one-Scalar : (a : ℕ) → a ≤ 0x7f → Scalar (a ∷ [])
unfolding encode_scalar Scalar
one-Scalar a h = (a, inl (omega arith), ground arith)

two-Scalar : (a b : ℕ) → (within 0xc2 a 0xdf && within 0x80 b 0xbf) ≡ true → Scalar (a ∷ b ∷ [])
unfolding encode_scalar Scalar
two-Scalar a b h = ((a - 0xc0) * 64 + (b - 0x80), inl (ground arith), ground arith)

three_point : (a b c : ℕ) → ℕ
three_point a b c = (a - 0xe0) * 4096 + (b - 0x80) * 64 + (c - 0x80)

three-Scalar :
    (a b c : ℕ)
    → (within 0xe0 a 0xef
        && within (if a == 0xe0 then 0xa0 else 0x80) b (if a == 0xed then 0x9f else 0xbf)
        && within 0x80 c 0xbf)
      ≡ true
    → Scalar (a ∷ b ∷ c ∷ [])
unfolding encode_scalar Scalar three_point
three-Scalar a b c h = (three_point a b c, ground arith, ground arith)

four_point : (a b c d : ℕ) → ℕ
four_point a b c d = (a - 0xf0) * 262144 + (b - 0x80) * 4096 + (c - 0x80) * 64 + (d - 0x80)

four-Scalar :
    (a b c d : ℕ)
    → (within 0xf0 a 0xf4
        && within (if a == 0xf0 then 0x90 else 0x80) b (if a == 0xf4 then 0x8f else 0xbf)
        && within 0x80 c 0xbf
        && within 0x80 d 0xbf)
      ≡ true
    → Scalar (a ∷ b ∷ c ∷ d ∷ [])
unfolding encode_scalar Scalar four_point
four-Scalar a b c d h = (four_point a b c d, ground arith, ground arith)

Text : List ℕ → Type 0
Text bytes = (cs : List ℕ) × All IsScalar cs × (bytes ≡ encode_text cs)

Text-after : (bytes rest : List ℕ) → Scalar bytes → Text rest → Text (bytes ++ rest)
unfolding Scalar Text encode_text
Text-after bytes rest (x, s, e) (cs, all, d) = (x ∷ cs, (s, all), rw (e, d) refl)

-- The last two branches for four bytes and more.
third_branch :
    (a b c d : ℕ) (rest : List ℕ)
    → leb a 0x7f ≡ false
    → within 0xc2 a 0xdf ≡ false
    → within 0xe0 a 0xef ≡ true
    → utf8_is_valid (a ∷ b ∷ c ∷ d ∷ rest) ≡ (
        within (if a == 0xe0 then 0xa0 else 0x80) b (if a == 0xed then 0x9f else 0xbf)
        && within 0x80 c 0xbf
        && utf8_is_valid (d ∷ rest))
unfolding utf8_is_valid
third_branch a b c d rest p q r = rw (p, q, r, utf8_is_valid) refl

fourth_branch :
    (a b c d : ℕ) (rest : List ℕ)
    → leb a 0x7f ≡ false
    → within 0xc2 a 0xdf ≡ false
    → within 0xe0 a 0xef ≡ false
    → utf8_is_valid (a ∷ b ∷ c ∷ d ∷ rest) ≡ (
        within 0xf0 a 0xf4
        && within (if a == 0xf0 then 0x90 else 0x80) b (if a == 0xf4 then 0x8f else 0xbf)
        && within 0x80 c 0xbf
        && within 0x80 d 0xbf
        && utf8_is_valid rest)
unfolding utf8_is_valid
fourth_branch a b c d rest p q r = rw (p, q, r, utf8_is_valid) refl

&&→left : (a b : Bool) → (a && b) ≡ true → a ≡ true
&&→left true b h = refl
&&→left false b h = h

no-Text : Text []
unfolding Text encode_text
no-Text = ([], tt, refl)

valid-Text : (bytes : List ℕ) → utf8_is_valid bytes ≡ true → Text bytes
unfolding utf8_is_valid
valid-Text [] h = no-Text
valid-Text (a ∷ []) h = Text-after (a ∷ []) [] (one-Scalar a (leb→le a 0x7f h)) no-Text
valid-Text (a ∷ b ∷ []) h = elim (Bool-cases (leb a 0x7f)) [
  | inl one ↦
      Text-after (a ∷ []) (b ∷ []) (one-Scalar a (leb→le a 0x7f one))
        (valid-Text (b ∷ []) (ground (arith, one, h)))
  | inr more ↦ Text-after (a ∷ b ∷ []) [] (two-Scalar a b (ground (arith, more, h))) no-Text
]
valid-Text (a ∷ b ∷ c ∷ []) h = elim (Bool-cases (leb a 0x7f)) [
  | inl one ↦
      Text-after (a ∷ []) (b ∷ c ∷ []) (one-Scalar a (leb→le a 0x7f one))
        (valid-Text (b ∷ c ∷ []) (ground (arith, one, h)))
  | inr more ↦ elim (Bool-cases (within 0xc2 a 0xdf)) [
    | inl two ↦
        Text-after (a ∷ b ∷ []) (c ∷ []) (two-Scalar a b (ground (arith, more, two, h)))
          (valid-Text (c ∷ []) (ground (arith, more, two, h)))
    | inr longer ↦
        Text-after (a ∷ b ∷ c ∷ []) [] (three-Scalar a b c (ground (arith, more, longer, h)))
          no-Text
  ]
]
valid-Text (a ∷ b ∷ c ∷ d ∷ rest) h = elim (Bool-cases (leb a 0x7f)) [
  | inl one ↦
      Text-after (a ∷ []) (b ∷ c ∷ d ∷ rest) (one-Scalar a (leb→le a 0x7f one))
        (valid-Text (b ∷ c ∷ d ∷ rest) (ground (arith, one, h)))
  | inr more ↦ elim (Bool-cases (within 0xc2 a 0xdf)) [
    | inl two ↦
        Text-after (a ∷ b ∷ []) (c ∷ d ∷ rest) (two-Scalar a b (ground (arith, more, two, h)))
          (valid-Text (c ∷ d ∷ rest) (ground (arith, more, two, h)))
    | inr longer ↦ elim (Bool-cases (within 0xe0 a 0xef)) [
      | inl three ↦
          let parts = sym (third_branch a b c d rest more longer three) ∙ h in
          Text-after (a ∷ b ∷ c ∷ []) (d ∷ rest) (three-Scalar a b c (rw three (&&→left _ _ parts)))
            (valid-Text (d ∷ rest) (&&→right _ _ parts))
      | inr longest ↦
          let parts = sym (fourth_branch a b c d rest more longer longest) ∙ h in
          Text-after (a ∷ b ∷ c ∷ d ∷ []) rest (four-Scalar a b c d (&&→left _ _ parts))
            (valid-Text rest (&&→right _ _ parts))
    ]
  ]
]

-- A text is accepted exactly when it is the encoding of some Unicode scalar values, each in the
-- shortest form: no surrogate, nothing beyond U+10FFFF, and nothing cut short.
pub utf8_is_valid_iff :
    (bytes : List ℕ)
    → (utf8_is_valid bytes ≡ true) ↔ ((cs : List ℕ) × All IsScalar cs × (bytes ≡ encode_text cs))
unfolding Text
utf8_is_valid_iff bytes = (valid-Text bytes, λ (cs, all, e). rw e (encode_text-valid cs all))
