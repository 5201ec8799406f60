-- ===== src/Wire/Cobs/Decode.antt =====
-- The decoder undoes the encoder.
use pbns.Common.{
  ℕ, zero, suc, ◌+◌, ◌-◌, ◌≤◌, ◌<◌, ◌≡◌, ◌≢◌, refl, ◌∙◌, true, not, ◌&&◌, List, [], ◌∷◌, ◌++◌, ltb,
  leb, ◌==◌, if◌then◌else◌, length, set, drop, ok, err, limit, arith, append_assoc, append-nil,
  length-append, set-append, Bool-cases, length-drop, ==_iff, ne→==, lt→ltb, gt→leb, filled,
  filled-append, set-filled, ◌⊎◌, inl, inr, All, All-append, drop-append_exact,
}
use pbns.Wire.Cobs.{fail, copy_run, decode_loop}
use pbns.Wire.Cobs.Spec.{
  encoded_from, length-encoded_from, encoded_from-zero, encoded_from-full, encoded_from-open,
  encoded_from-nil,
}

abbrev IsRun : List ℕ → Type 0
IsRun = All (λ b. b ≢ 0)

copy_run-IsRun :
    (run more pre room : List ℕ) (w : ℕ)
    → IsRun run
    → length run ≤ length room
    → w ≡ length pre
    → copy_run (length run) (run ++ more) w (pre ++ room) ≡ (true, filled pre run room)
unfolding copy_run
copy_run-IsRun [] more pre room w h n e = refl
copy_run-IsRun (b ∷ run) more pre [] w h n e = absurd (omega arith)
copy_run-IsRun (b ∷ run) more pre (u ∷ room) w h n e =
    let step =
      copy_run-IsRun run more (pre ++ b ∷ []) room (w + 1) h.1 (omega arith)
        (omega (arith, length-append {0} pre (b ∷ []))) in
    rw (set-append pre u room w b e, ne→== b 0 h.0)
      (rw (append_assoc pre (b ∷ []) room, append_assoc pre (b ∷ [])) at step)

module _ (capacity : ℕ) where
  -- One round of the outer loop over a clean run.
  decode_loop-IsRun :
      (fuel : ℕ) (run more pre room : List ℕ) (w : ℕ)
      → IsRun run
      → length run ≤ length room
      → w ≡ length pre
      → w + length room ≤ capacity
      → decode_loop capacity (suc fuel) ((length run + 1) ∷ (run ++ more)) w (pre ++ room) ≡ (
          if not (length run + 1 == 255) && ltb 0 (length more)
          then (if leb capacity (w + length run)
              then fail (err limit) (filled pre run room)
              else decode_loop capacity fuel more
                  (w + length run + 1)
                  (set (filled pre run room) (w + length run) 0))
          else decode_loop capacity fuel more (w + length run) (filled pre run room))
  unfolding decode_loop
  decode_loop-IsRun fuel run more pre room w h n e fits =
      let e1 : length run + 1 - 1 ≡ length run = omega arith in
      rw
        (e1, copy_run-IsRun run more pre room w h n e, drop-append_exact run more (length run) refl)
        (ground (arith, length-append {0} run more))

  -- A round over a short run with more behind it writes a zero after the run.
  decode_loop-short :
      (fuel : ℕ) (run more pre room : List ℕ) (w : ℕ)
      → IsRun run
      → length run < length room
      → w ≡ length pre
      → w + length room ≤ capacity
      → length run < 254
      → 0 < length more
      → decode_loop capacity (suc fuel) ((length run + 1) ∷ (run ++ more)) w (pre ++ room)
        ≡ decode_loop capacity fuel more (w + length run + 1) (filled pre (run ++ 0 ∷ []) room)
  decode_loop-short fuel run more pre room w h n e fits small some_more =
      decode_loop-IsRun fuel run more pre room w h (omega arith) e fits
      ∙ rw (
        ne→== (length run + 1) 255 (omega arith),
        lt→ltb 0 (length more) some_more,
        gt→leb capacity (w + length run) (omega arith),
        set-filled pre run room (w + length run) 0 n (omega arith),
      )

  -- A round over a full run, or the last round, writes nothing more.
  decode_loop-plain :
      (fuel : ℕ) (run more pre room : List ℕ) (w : ℕ)
      → IsRun run
      → length run ≤ length room
      → w ≡ length pre
      → w + length room ≤ capacity
      → (length run ≡ 254) ⊎ (length more ≡ 0)
      → decode_loop capacity (suc fuel) ((length run + 1) ∷ (run ++ more)) w (pre ++ room)
        ≡ decode_loop capacity fuel more (w + length run) (filled pre run room)
  decode_loop-plain fuel run more pre room w h n e fits last =
      decode_loop-IsRun fuel run more pre room w h n e fits ∙ ground arith

  -- The encoding of `rest` decodes with this fuel, from a code byte on.
  abbrev Decodes : ℕ → List ℕ → Type 0
  Decodes fuel rest =
      (pre room : List ℕ) (w : ℕ)
      → length rest ≤ length room
      → w ≡ length pre
      → w + length room ≤ capacity
      → decode_loop capacity fuel (encoded_from [] rest) w (pre ++ room)
        ≡ record { status = ok; output = filled pre rest room; written = w + length rest }

  decode_loop-resume :
      (fuel : ℕ) (rest pre chunk room : List ℕ) (w w' : ℕ)
      → Decodes fuel rest
      → length chunk + length rest ≤ length room
      → w ≡ length pre
      → w' ≡ w + length chunk
      → w + length room ≤ capacity
      → decode_loop capacity fuel (encoded_from [] rest) w' (filled pre chunk room) ≡ record {
        status = ok;
        output = filled pre (chunk ++ rest) room;
        written = w + length (chunk ++ rest);
      }
  decode_loop-resume fuel rest pre chunk room w w' ih n e e' fits =
      let left = drop (length chunk) room in
      let lefts = length-drop (length chunk) room in
      let longer = length-append {0} pre chunk in
      let whole = length-append {0} chunk rest in
      let count : w' + length rest ≡ w + length (chunk ++ rest) = omega arith in
      rw (← append_assoc pre chunk left, ← filled-append pre chunk rest room, ← count)
        (ih (pre ++ chunk) left w' (omega arith) (omega arith) (omega arith))

  pub decode_loop-encoded_from :
      (rest : List ℕ) (fuel : ℕ) (block pre room : List ℕ) (w : ℕ)
      → IsRun block
      → length block < 254
      → length block + length rest ≤ length room
      → w ≡ length pre
      → w + length room ≤ capacity
      → length (encoded_from block rest) ≤ fuel
      → decode_loop capacity fuel (encoded_from block rest) w (pre ++ room) ≡ record {
        status = ok;
        output = filled pre (block ++ rest) room;
        written = w + length (block ++ rest);
      }
  decode_loop-encoded_from rest zero block pre room w h small n e fits fuelled =
      absurd (omega (arith, length-encoded_from block rest))
  decode_loop-encoded_from [] (suc fuel) block pre room w h small n e fits fuelled =
      rw (encoded_from-nil block) (
        decode_loop-plain fuel block [] pre room w h (omega arith) e fits (inr refl)
        ∙ rw append-nil (unfold decode_loop in refl))
  decode_loop-encoded_from (b ∷ rest) (suc fuel) block pre room w h small n e fits fuelled =
      let ih : length (encoded_from [] rest) ≤ fuel → Decodes fuel rest =
        λ enough pre' room' w' n' e' fits'.
          decode_loop-encoded_from rest fuel [] pre' room' w' tt (omega arith) (omega arith) e'
            fits' enough in
      let longer = length-append {0} block (b ∷ []) in
      elim (Bool-cases (b == 0)) [
        | inl z ↦
            let is_zero = (==_iff b 0).0 z in
            let fuelled' = rw (encoded_from-zero block rest b z) at fuelled in
            let more = length-append {0} block (encoded_from [] rest) in
            rw (encoded_from-zero block rest b z) (
              decode_loop-short fuel block (encoded_from [] rest) pre room w h (omega arith) e fits
                small (omega (arith, length-encoded_from [] rest))
              ∙ decode_loop-resume fuel rest pre (block ++ 0 ∷ []) room w (w + length block + 1)
                  (ih (omega arith)) (omega (arith, length-append {0} block (0 ∷ []))) e
                  (omega (arith, length-append {0} block (0 ∷ []))) fits
              ∙ rw (is_zero, append_assoc block (0 ∷ []) rest))
        | inr nz ↦ elim (Bool-cases (length block + 2 == 255)) [
          | inl f ↦
              let is_full = (==_iff (length block + 2) 255).0 f in
              let fuelled' = rw (encoded_from-full block rest b nz f) at fuelled in
              let more = length-append {0} block (b ∷ encoded_from [] rest) in
              let code : 255 ≡ length (block ++ b ∷ []) + 1 = omega arith in
              rw
                (
                  encoded_from-full block rest b nz f,
                  ← append_assoc block (b ∷ []) (encoded_from [] rest),
                  code,
                )
                (decode_loop-plain fuel (block ++ b ∷ []) (encoded_from [] rest) pre room w
                    (All-append _ block (b ∷ []) h (ground arith)) (omega arith) e fits
                    (inl (omega arith))
                  ∙ decode_loop-resume fuel rest pre (block ++ b ∷ []) room w
                      (w + length (block ++ b ∷ [])) (ih (omega arith)) (omega arith) e refl fits
                  ∙ rw (append_assoc block (b ∷ []) rest))
          | inr o ↦
              let spec = encoded_from-open block rest b nz o in
              let fuelled' = rw spec at fuelled in
              rw (spec, ← append_assoc block (b ∷ []) rest)
                (decode_loop-encoded_from rest (suc fuel) (block ++ b ∷ []) pre room w
                  (All-append _ block (b ∷ []) h (ground arith)) (ground arith) (omega arith) e fits
                  fuelled')
        ]
      ]
