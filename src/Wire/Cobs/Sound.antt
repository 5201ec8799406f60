-- ===== src/Wire/Cobs/Sound.antt =====
-- What the decoder guarantees of any input, however it was made.
use pbns.Common.{
  ℕ, zero, suc, ◌+◌, ◌-◌, ◌≤◌, ◌<◌, min, ◌≡◌, ◌≢◌, refl, ◌⊎◌, inl, inr, Bool, true, false, not,
  ◌&&◌, List, [], ◌∷◌, arith, ltb, leb, ◌==◌, if◌then◌else◌, ltb→lt, ltb→ge, leb→gt, ==→ne,
  &&→right, length, set, take, drop, All, All-append, length-set, take-append-drop, length-drop, ok,
  err, format, limit,
}
use pbns.Common.Memory.{View, Buffer, Pointer, null, given}
use pbns.Wire.Cobs.{Outcome, fail, copy_run, decode_loop, decode}

abbrev IsRun : List ℕ → Type 0
IsRun = All (λ b. b ≢ 0)

copy_run-clean :
    (n : ℕ) (rest : List ℕ) (w : ℕ) (out : List ℕ)
    → (copy_run n rest w out).0 ≡ true
    → IsRun (take n rest)
unfolding copy_run
copy_run-clean zero rest w out h = tt
copy_run-clean (suc n) [] w out h = tt
copy_run-clean (suc n) (b ∷ rest) w out h =
    ground (arith, copy_run-clean n rest (w + 1) (set out w b))

length-copy_run :
    (n : ℕ) (rest : List ℕ) (w : ℕ) (out : List ℕ) → length (copy_run n rest w out).1 ≡ length out
unfolding copy_run
length-copy_run zero rest w out = refl
length-copy_run (suc n) [] w out = refl
length-copy_run (suc n) (b ∷ rest) w out =
    ground (arith, length-copy_run n rest (w + 1) (set out w b), length-set out w b)

IsRun-take-drop : (n : ℕ) (rest : List ℕ) → IsRun (take n rest) → IsRun (drop n rest) → IsRun rest
IsRun-take-drop n rest h k =
    rw (take-append-drop n rest) at (All-append _ (take n rest) (drop n rest) h k)

-- The tests of a round as plain Booleans.
abbrev rounds :
    Bool → Bool → Bool → Bool → Bool → Bool → Outcome → Outcome → List ℕ → List ℕ → Outcome
rounds zero_code short small clean separated full closed plain out out' =
    if zero_code
    then fail (err format) out
    else if short
    then fail (err format) out
    else if small
    then fail (err limit) out
    else if not clean
    then fail (err format) out'
    else if separated
    then (if full then fail (err limit) out' else closed)
    else plain

rounds-ok :
    (zero_code short small clean separated full : Bool) (closed plain : Outcome) (out out' : List ℕ)
    → (rounds zero_code short small clean separated full closed plain out out').status ≡ ok
    → let done = rounds zero_code short small clean separated full closed plain out out' in
      (zero_code ≡ false)
      × (short ≡ false)
      × (small ≡ false)
      × (clean ≡ true)
      × (((separated ≡ true) × (full ≡ false) × (done ≡ closed)) ⊎ (done ≡ plain))
rounds-ok false false false true false full closed plain out out' s =
    (refl, refl, refl, refl, inr refl)
rounds-ok false false false true true false closed plain out out' s =
    (refl, refl, refl, refl, inl (refl, refl, refl))
rounds-ok false false false true true true closed plain out out' s = ground arith
rounds-ok false false false false separated full closed plain out out' s = ground arith
rounds-ok false false true clean separated full closed plain out out' s = ground arith
rounds-ok false true small clean separated full closed plain out out' s = ground arith
rounds-ok true short small clean separated full closed plain out out' s = ground arith

-- What a round that does not fail has checked, and where it goes on.
module _ (capacity fuel code : ℕ) (rest : List ℕ) (w : ℕ) (out : List ℕ) where
  abbrev run : ℕ
  run = code - 1

  abbrev copied : List ℕ
  copied = (copy_run run rest w out).1

  abbrev outcome : Outcome
  outcome = decode_loop capacity (suc fuel) (code ∷ rest) w out

  record Round : Type 0 where
    code_ne : code ≢ 0
    enough : run ≤ length rest
    room : run ≤ capacity - w
    clean : (copy_run run rest w out).0 ≡ true
    goes_on :
        ((w + run < capacity)
          × (0 < length (drop run rest))
          × (outcome
              ≡ decode_loop capacity fuel (drop run rest) (w + run + 1) (set copied (w + run) 0)))
        ⊎ (outcome ≡ decode_loop capacity fuel (drop run rest) (w + run) copied)

  decode_loop-Round : outcome.status ≡ ok → Round
  unfolding decode_loop
  decode_loop-Round s =
      let rest' = drop run rest in
      let (code_ne, short, small, clean, goes) =
        rounds-ok (code == 0) (ltb (length rest) run) (ltb (capacity - w) run)
          (copy_run run rest w out).0 (not (code == 255) && ltb 0 (length rest'))
          (leb capacity (w + run))
          (decode_loop capacity fuel rest' (w + run + 1) (set copied (w + run) 0))
          (decode_loop capacity fuel rest' (w + run) copied) out copied s in
      record {
        code_ne = ==→ne code 0 code_ne;
        enough = ltb→ge (length rest) run short;
        room = ltb→ge (capacity - w) run small;
        clean = clean;
        goes_on = elim goes [
          | inl (separated, full, e) ↦ inl (
            leb→gt capacity (w + run) full,
            ltb→lt 0 (length rest') (&&→right (not (code == 255)) (ltb 0 (length rest')) separated),
            e,
          )
          | inr e ↦ inr e
        ];
      }

record Sound (capacity : ℕ) (rest : List ℕ) (w written : ℕ) : Type 0 where
  bounded : written ≤ capacity
  shorter : written + min 1 (length rest) ≤ w + length rest
  clean : IsRun rest

decode_loop-Sound :
    (capacity fuel : ℕ) (rest : List ℕ) (w : ℕ) (out : List ℕ)
    → w ≤ capacity
    → (decode_loop capacity fuel rest w out).status ≡ ok
    → Sound capacity rest w (decode_loop capacity fuel rest w out).written
decode_loop-Sound capacity zero [] w out h s = unfold decode_loop in ground arith
decode_loop-Sound capacity (suc fuel) [] w out h s = unfold decode_loop in ground arith
decode_loop-Sound capacity zero (code ∷ rest) w out h s = unfold decode_loop in ground arith
decode_loop-Sound capacity (suc fuel) (code ∷ rest) w out h s =
    let n = code - 1 in
    let round = decode_loop-Round capacity fuel code rest w out s in
    let left = length-drop n rest in
    let clean = IsRun-take-drop n rest (copy_run-clean n rest w out round.clean) in
    let out' = (copy_run n rest w out).1 in
    elim round.goes_on [
      | inl (room, more, e) ↦
          let ih =
            decode_loop-Sound capacity fuel (drop n rest) (w + n + 1) (set out' (w + n) 0)
              (omega arith) (rw e at s) in
          rw e (record {
            bounded = ih.bounded;
            shorter = omega (arith, round.enough, ih.shorter);
            clean = (round.code_ne, clean ih.clean);
          })
      | inr e ↦
          let ih =
            decode_loop-Sound capacity fuel (drop n rest) (w + n) out' (omega (arith, round.room))
              (rw e at s) in
          rw e (record {
            bounded = ih.bounded;
            shorter = omega (arith, round.enough, round.code_ne, ih.shorter);
            clean = (round.code_ne, clean ih.clean);
          })
    ]

length-decode_loop :
    (capacity fuel : ℕ) (rest : List ℕ) (w : ℕ) (out : List ℕ)
    → length (decode_loop capacity fuel rest w out).output ≡ length out
unfolding decode_loop
length-decode_loop capacity zero [] w out = refl
length-decode_loop capacity (suc fuel) [] w out = refl
length-decode_loop capacity zero (code ∷ rest) w out = refl
length-decode_loop capacity (suc fuel) (code ∷ rest) w out =
    let n = code - 1 in
    let out' = (copy_run n rest w out).1 in
    ground (
      arith,
      length-copy_run n rest w out,
      length-set out' (w + n) 0,
      length-decode_loop capacity fuel (drop n rest) (w + n + 1) (set out' (w + n) 0),
      length-decode_loop capacity fuel (drop n rest) (w + n) out',
    )

-- If the decoder accepts an input, then the input is not empty and holds no zero, fewer bytes are
-- written than were read, and they fit the storage.
pub decode_sound :
    (input : View) (output : Buffer)
    → (decode given input output).status ≡ ok
    → let n = (decode given input output).written in
      (n < length input.bytes) × (n ≤ length output.bytes) × All (λ b. b ≢ 0) input.bytes
unfolding decode
decode_sound input output s =
    let loop =
      decode_loop-Sound (length output.bytes) (length input.bytes) input.bytes 0 output.bytes
        (omega arith) in
    ground (arith, loop)

-- Whatever the status, the decoder leaves the storage at its size.
pub length-decode :
    (p : Pointer) (input : View) (output : Buffer)
    → length (decode p input output).output ≡ length output.bytes
unfolding decode
length-decode null input output = refl
length-decode given input output = ground (
  arith,
  length-decode_loop (length output.bytes) (length input.bytes) input.bytes 0 output.bytes,
)
