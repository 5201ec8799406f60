-- ===== src/Wire/RecordReader/Records.antt =====
-- What one call of `push` makes of a record, from a reader that is between records.
use pbns.Common.{
  All-take, All-drop, split_at, drop-all, nil_of_length, ℕ, suc, ◌+◌, ◌≤◌, ◌<◌, ◌≡◌, ◌≢◌, refl, ap,
  ◌∙◌, true, false, List, [], ◌∷◌, ◌++◌, append-nil, append_assoc, arith, leb, ◌==◌, gt→leb, ne→==,
  length, take, drop, length-append, All, set-append, length-take, length-drop, take-append_exact,
  ok, err,
}
use pbns.Common.{format, limit}
use pbns.Common.Memory.{View, given, ranges_overlap}
use pbns.Wire.RecordReader.{Reader, Pushed, stopped, store, push_loop, push, reset}

abbrev IsRun : List ℕ → Type 0
IsRun = All (λ b. b ≢ 0)

-- `r` with the record so far in its storage: `pre` at the start, `room` behind it.
abbrev holding : Reader → List ℕ → List ℕ → Reader
holding r pre room = record r {
  storage = record r.storage { len = length pre; bytes = pre ++ room };
  discarding = false;
}

store-holding :
    (r : Reader) (pre room : List ℕ) (u octet : ℕ)
    → store (holding r pre (u ∷ room)) octet ≡ holding r (pre ++ octet ∷ []) room
store-holding r pre room u octet =
    let longer : length pre + 1 ≡ length (pre ++ octet ∷ []) =
      omega (arith, length-append {0} pre (octet ∷ [])) in
    rw (set-append pre u room (length pre) octet refl, longer, append_assoc pre (octet ∷ []) room)

-- Bytes that fit are stored.
push_loop-stores :
    (run rest pre room : List ℕ) (i : ℕ) (r : Reader)
    → IsRun run
    → length run ≤ length room
    → push_loop (run ++ rest) i (holding r pre room)
      ≡ push_loop rest (i + length run) (holding r (pre ++ run) (drop (length run) room))
unfolding push_loop
push_loop-stores [] rest pre room i r h n = let e : i + 0 ≡ i = omega arith in rw (e, append-nil)
push_loop-stores (b ∷ run) rest pre [] i r h n = absurd (omega arith)
push_loop-stores (b ∷ run) rest pre (u ∷ room) i r h n =
    let e : i + suc (length run) ≡ i + 1 + length run = omega arith in
    let not_full : leb (length (pre ++ u ∷ room)) (length pre) ≡ false =
      gt→leb _ _ (omega (arith, length-append {0} pre (u ∷ room))) in
    let step = push_loop-stores run rest (pre ++ b ∷ []) room (i + 1) r h.1 (omega arith) in
    rw (e, ne→== b 0 h.0, not_full, store-holding r pre room u b)
      (rw (append_assoc pre (b ∷ []) run) at step)

-- Once the storage is full, everything up to the zero is dropped.
push_loop-discards :
    (run rest : List ℕ) (i : ℕ) (r : Reader)
    → IsRun run
    → r.discarding ≡ true
    → push_loop (run ++ 0 ∷ rest) i r
      ≡ stopped (err limit) (record r { failed = true }) (i + length run + 1)
unfolding push_loop
push_loop-discards [] rest i r h d = let e : i + 0 + 1 ≡ i + 1 = omega arith in rw (e, d)
push_loop-discards (b ∷ run) rest i r h d =
    let e : i + suc (length run) + 1 ≡ i + 1 + length run + 1 = omega arith in
    let step = push_loop-discards run rest (i + 1) r h.1 d in
    rw (d, ne→== b 0 h.0) (rw e (rw d at step))

-- The zero byte ends a record that holds a byte.
push_loop-ends :
    (rest pre room : List ℕ) (i : ℕ) (r : Reader)
    → 0 < length pre
    → push_loop (0 ∷ rest) i (holding r pre room) ≡ record {
      status = ok;
      reader = record (holding r pre room) { ready = true };
      consumed = i + 1;
      record_ready = true;
      cobs_record = record { ptr = r.storage.ptr; bytes = pre };
    }
unfolding push_loop
push_loop-ends rest pre room i r h =
    rw (ne→== (length pre) 0 (omega arith), take-append_exact pre room (length pre) refl)

-- A byte that finds the storage full.
push_loop-overflows :
    (b : ℕ) (run rest pre : List ℕ) (i : ℕ) (r : Reader)
    → b ≢ 0
    → IsRun run
    → push_loop (b ∷ (run ++ 0 ∷ rest)) i (holding r pre [])
      ≡ stopped
          (err limit)
          (record (holding r pre []) { discarding = true; failed = true })
          (i + 1 + length run + 1)
unfolding push_loop
push_loop-overflows b run rest pre i r ne h =
    let full : leb (length (pre ++ [])) (length pre) ≡ true = rw append-nil (ground arith) in
    let step =
      push_loop-discards run rest (i + 1) (record (holding r pre []) { discarding = true }) h
        refl in
    rw (ne→== b 0 ne, full) step

-- A reader that waits for the first byte of a record.
pub record IsBetween (r : Reader) : Type 0 where
  pub initialized : r.initialized ≡ true
  pub discarding : r.discarding ≡ false
  pub ready : r.ready ≡ false
  pub failed : r.failed ≡ false
  pub empty : r.storage.len ≡ 0

holding-nil : (r : Reader) → IsBetween r → r ≡ holding r [] r.storage.bytes
holding-nil r b = ground (arith, b.discarding, b.empty)

module _ (r : Reader) (ptr : ℕ) (run rest : List ℕ) (b : IsBetween r) (h : IsRun run)
    (some_ptr : (ptr == 0) ≡ false)
    (apart : ranges_overlap ptr (length (run ++ 0 ∷ rest)) r.storage.ptr (length r.storage.bytes)
      ≡ false) where
  abbrev input : View
  input = record { ptr = ptr; bytes = run ++ 0 ∷ rest }

  abbrev pushed : Pushed
  pushed = push r input given given given

  push-loop : pushed ≡ push_loop (run ++ 0 ∷ rest) 0 r
  unfolding push
  push-loop = ground (arith, b.initialized, b.ready, b.failed)

  -- A reader that waits for a record is given a run of bytes without a zero, then a zero, then
  -- anything, at an address that is not NULL and apart from its storage. If the run is not empty
  -- and fits the storage, then the call returns OK, consumes the run and its zero and nothing
  -- behind it, and returns exactly the bytes of the run.
  pub push-record :
      0 < length run
      → length run ≤ length r.storage.bytes
      → (pushed.status ≡ ok)
        × (pushed.consumed ≡ length run + 1)
        × (pushed.record_ready ≡ true)
        × (pushed.cobs_record ≡ record { ptr = r.storage.ptr; bytes = run })
        × (pushed.reader.ready ≡ true)
  push-record some_byte fits =
      let whole =
        push-loop
        ∙ ap (push_loop (run ++ 0 ∷ rest) 0) (holding-nil r b)
        ∙ push_loop-stores run (0 ∷ rest) [] r.storage.bytes 0 r h fits
        ∙ push_loop-ends rest run (drop (length run) r.storage.bytes) (0 + length run) r
            some_byte in
      rw whole (refl, omega arith, refl, refl, refl)

  -- In the same call as that of `push-record`, if the run does not fit the storage, then it is read
  -- to its zero byte and refused with `LIMIT`, and the reader has failed.
  pub push-oversized :
      length r.storage.bytes < length run
      → (pushed.status ≡ err limit)
        × (pushed.consumed ≡ length run + 1)
        × (pushed.record_ready ≡ false)
        × (pushed.reader.failed ≡ true)
  push-oversized long =
      let capacity = length r.storage.bytes in
      let (x, more, split, dropped) = split_at capacity run long in
      let first = take capacity run in
      let taken = length-take capacity run in
      let left = length-drop capacity run in
      let tail_size = ap length dropped in
      let tail_run = rw dropped at (All-drop _ capacity run h) in
      let no_room : drop (length first) r.storage.bytes ≡ [] =
        drop-all (length first) r.storage.bytes (omega arith) in
      let whole =
        push-loop
        ∙ ap (push_loop (run ++ 0 ∷ rest) 0) (holding-nil r b)
        ∙ ap (λ t. push_loop (t ++ 0 ∷ rest) 0 (holding r [] r.storage.bytes)) split
        ∙ ap (λ t. push_loop t 0 (holding r [] r.storage.bytes))
            (append_assoc first (x ∷ more) (0 ∷ rest))
        ∙ push_loop-stores first (x ∷ (more ++ 0 ∷ rest)) [] r.storage.bytes 0 r
            (All-take _ capacity run h) (omega arith)
        ∙ ap (λ t. push_loop (x ∷ (more ++ 0 ∷ rest)) (0 + length first) (holding r first t))
            no_room
        ∙ push_loop-overflows x more rest first (0 + length first) r tail_run.0 tail_run.1 in
      rw whole (refl, omega arith, refl, refl)

  -- A zero byte with no record before it is refused with `FORMAT`.
  pub push-empty :
      length run ≡ 0
      → (pushed.status ≡ err format) × (pushed.consumed ≡ 1) × (pushed.reader.failed ≡ true)
  push-empty none_yet =
      let none_left = nil_of_length run none_yet in
      rw push-loop (rw none_left (unfold push_loop in ground (arith, b.discarding, b.empty)))

-- After `reset` an initialised reader waits for a new record, whatever happened before.
pub reset-IsBetween : (r : Reader) → r.initialized ≡ true → IsBetween (reset r)
unfolding reset
reset-IsBetween r i = ground arith
