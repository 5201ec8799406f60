-- ===== src/Wire/Cobs/Encode.antt =====
-- The encoder's loop, with its index arithmetic and writes, computes `encoded`.
use pbns.Common.{
  ℕ, suc, ◌+◌, ◌%◌, ◌≤◌, ◌<◌, ◌≡◌, refl, ◌∙◌, true, false, List, [], ◌∷◌, ◌++◌, ◌==◌, length, set,
  ok, arith, append_assoc, length-append, set-append, Bool-cases, gt→leb, inl, inr,
}
use pbns.Wire.Cobs.{Outcome, encode_loop}
use pbns.Wire.Cobs.Spec.{
  encoded_from, length-encoded_from, encoded_from-zero, encoded_from-full, encoded_from-open,
}

-- The storage is `pre`, the reserved code byte `x`, the open block and then `room`.
abbrev pub storage : List ℕ → ℕ → List ℕ → List ℕ → List ℕ
storage pre x block room = pre ++ x ∷ (block ++ room)

storage-close :
    (pre block room : List ℕ) (x code i : ℕ)
    → i ≡ length pre
    → set (storage pre x block room) i code ≡ storage pre code block room
storage-close pre block room x code i e = set-append pre x (block ++ room) i code e

storage_next :
    (pre block room : List ℕ) (x r : ℕ)
    → storage pre x block (r ∷ room) ≡ storage (pre ++ x ∷ block) r [] room
storage_next pre block room x r = simp append_assoc

storage-store :
    (pre block room : List ℕ) (x r b i : ℕ)
    → i ≡ length pre + 1 + length block
    → set (storage pre x block (r ∷ room)) i b ≡ storage pre x (block ++ b ∷ []) room
storage-store pre block room x r b i e = rw (storage_next pre block room x r) (
    set-append (pre ++ x ∷ block) r room i b (omega (arith, e, length-append {0} pre (x ∷ block)))
    ∙ simp append_assoc)

-- What the loop leaves when the rest of the encoding takes all the room but `left`.
abbrev pub finished : List ℕ → List ℕ → List ℕ → List ℕ → Outcome
finished pre block rest left = record {
  status = ok;
  output = pre ++ (encoded_from block rest ++ left);
  written = length pre + length (encoded_from block rest);
}

finished-append :
    (pre chunk rest left : List ℕ)
    → finished (pre ++ chunk) [] rest left ≡ record {
      status = ok;
      output = pre ++ ((chunk ++ encoded_from [] rest) ++ left);
      written = length pre + length (chunk ++ encoded_from [] rest);
    }
finished-append pre chunk rest left = ground (
  arith,
  append_assoc pre chunk (encoded_from [] rest ++ left),
  append_assoc chunk (encoded_from [] rest) left,
  length-append {0} pre chunk,
  length-append {0} chunk (encoded_from [] rest),
)

small_code :
    (block : List ℕ) (code : ℕ)
    → code ≡ length block + 1
    → length block < 254
    → (code + 1) % 256 ≡ length block + 2
small_code block code e h = omega arith

module _ (capacity : ℕ) (left : List ℕ) where
  -- The loop from a fresh code byte at the end of `pre` on.
  abbrev Resumes : List ℕ → Type 0
  Resumes rest =
      (pre used : List ℕ) (x : ℕ)
      → length (encoded_from [] rest) ≡ 1 + length used
      → length pre + 1 + length used ≤ capacity
      → encode_loop capacity rest (length pre + 1) (length pre) 1 (storage pre x [] (used ++ left))
        ≡ finished pre [] rest left

  encode_loop-zero :
      (rest pre block used : List ℕ) (b x r w c code : ℕ)
      → Resumes rest
      → (b == 0) ≡ true
      → length (encoded_from block (b ∷ rest)) ≡ 2 + length block + length used
      → w + suc (length used) ≤ capacity
      → w ≡ length pre + 1 + length block
      → c ≡ length pre
      → code ≡ length block + 1
      → encode_loop capacity (b ∷ rest) w c code (storage pre x block (r ∷ (used ++ left)))
        ≡ finished pre block (b ∷ rest) left
  unfolding encode_loop
  encode_loop-zero rest pre block used b x r w c code resume z fits room hw hc hcode =
      let spec = encoded_from-zero block rest b z in
      let fits' = rw spec at fits in
      let longer = length-append {0} pre (code ∷ block) in
      let w_is : w ≡ length (pre ++ code ∷ block) = omega arith in
      rw
        (
          z,
          spec,
          storage-close pre block (r ∷ (used ++ left)) x code c hc,
          storage_next pre block (used ++ left) code r,
          gt→leb capacity w (omega arith),
          ← hcode,
          w_is,
        )
        (resume (pre ++ code ∷ block) used r
            (omega (arith, length-append {0} block (encoded_from [] rest))) (omega arith)
          ∙ finished-append pre (code ∷ block) rest left)

  encode_loop-full :
      (rest pre block used : List ℕ) (b x r w c code : ℕ)
      → Resumes rest
      → (b == 0) ≡ false
      → (length block + 2 == 255) ≡ true
      → length (encoded_from block (b ∷ rest)) ≡ 2 + length block + length used
      → w + suc (length used) ≤ capacity
      → w ≡ length pre + 1 + length block
      → c ≡ length pre
      → code ≡ length block + 1
      → encode_loop capacity (b ∷ rest) w c code (storage pre x block (r ∷ (used ++ left)))
        ≡ finished pre block (b ∷ rest) left
  unfolding encode_loop
  encode_loop-full rest pre block [] b x r w c code resume nz f fits room hw hc hcode = absurd (
      omega (
        arith,
        rw (encoded_from-full block rest b nz f) at fits,
        length-append {0} block (b ∷ encoded_from [] rest),
        length-encoded_from [] rest,
      ))
  encode_loop-full rest pre block (s ∷ used) b x r w c code resume nz f fits room hw hc hcode =
      let spec = encoded_from-full block rest b nz f in
      let fits' = rw spec at fits in
      let chunk = 255 ∷ (block ++ b ∷ []) in
      let longer = length-append {0} pre chunk in
      let inner = length-append {0} block (b ∷ []) in
      let code_is : (code + 1) % 256 ≡ 255 = ground arith in
      let w_is : w + 1 ≡ length (pre ++ chunk) = omega arith in
      let w_is' : w + 2 ≡ length (pre ++ chunk) + 1 = omega arith in
      rw
        (
          nz,
          spec,
          storage-store pre block (s ∷ (used ++ left)) x r b w hw,
          code_is,
          storage-close pre (block ++ b ∷ []) (s ∷ (used ++ left)) x 255 c hc,
          storage_next pre (block ++ b ∷ []) (used ++ left) 255 s,
          gt→leb capacity w (omega arith),
          gt→leb capacity (w + 1) (omega arith),
          w_is',
          w_is,
        )
        (resume (pre ++ chunk) used s
            (omega (arith, length-append {0} block (b ∷ encoded_from [] rest))) (omega arith)
          ∙ finished-append pre chunk rest left
          ∙ rw (append_assoc block (b ∷ []) (encoded_from [] rest)))

  pub encode_loop-finished :
      (rest pre block used : List ℕ) (x w c code : ℕ)
      → length block < 254
      → length (encoded_from block rest) ≡ 1 + length block + length used
      → w + length used ≤ capacity
      → w ≡ length pre + 1 + length block
      → c ≡ length pre
      → code ≡ length block + 1
      → encode_loop capacity rest w c code (storage pre x block (used ++ left))
        ≡ finished pre block rest left
  unfolding encode_loop
  encode_loop-finished [] pre block [] x w c code small fits room hw hc hcode =
      rw (storage-close pre block left x code c hc, hcode, hw) (unfold encoded_from in ground arith)
  encode_loop-finished [] pre block (r ∷ used) x w c code small fits room hw hc hcode =
      absurd (unfold encoded_from in omega arith)
  encode_loop-finished (b ∷ rest) pre block [] x w c code small fits room hw hc hcode =
      absurd (omega (arith, length-encoded_from block (b ∷ rest)))
  encode_loop-finished (b ∷ rest) pre block (r ∷ used) x w c code small fits room hw hc hcode =
      let resume : Resumes rest = λ pre' used' x' fits' room'.
        encode_loop-finished rest pre' [] used' x' (length pre' + 1) (length pre') 1 (omega arith)
          fits' room' (omega arith) refl refl in
      elim (Bool-cases (b == 0)) [
        | inl z ↦
            encode_loop-zero rest pre block used b x r w c code resume z (omega arith) room hw hc
              hcode
        | inr nz ↦ elim (Bool-cases (length block + 2 == 255)) [
          | inl f ↦
              encode_loop-full rest pre block used b x r w c code resume nz f (omega arith) room hw
                hc hcode
          | inr nf ↦
              let spec = encoded_from-open block rest b nz nf in
              let fits' = rw spec at fits in
              let bigger = length-append {0} block (b ∷ []) in
              rw
                (
                  nz,
                  spec,
                  storage-store pre block (used ++ left) x r b w hw,
                  gt→leb capacity w (omega arith),
                  small_code block code hcode small,
                )
                (rw (nf) (
                  encode_loop-finished rest pre (block ++ b ∷ []) used x (w + 1) c
                    (length block + 2) (ground arith) (omega arith) (omega arith) (omega arith) hc
                    (omega arith)))
        ]
      ]
