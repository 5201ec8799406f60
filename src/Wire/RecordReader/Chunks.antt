-- ===== src/Wire/RecordReader/Chunks.antt =====
-- How a stream is cut into calls of `push` makes no difference.
use pbns.Common.{
  ℕ, suc, refl, ◌∙◌, ◌≢◌, false, not, ◌||◌, Status, state, length-append, ◌+◌, ◌≡◌, inl, inr, true,
  List, [], ◌∷◌, ◌++◌, arith, length-set, leb, ◌==◌, Bool-cases, length, ok, err,
}
use pbns.Common.{would_block}
use pbns.Common.Memory.{View, given, ranges_overlap}
use pbns.Wire.RecordReader.{push, Reader, Pushed, store, stopped, push_loop}

-- A loop that has to go on for more input: the reader that it leaves.
abbrev continue_with : Pushed → List ℕ → ℕ → Pushed
continue_with p rest index = elim p.status [
  | ok ↦ p
  | err e ↦ elim e [ would_block ↦ push_loop rest index p.reader | _ ↦ p ]
]

-- Reading `xs ++ ys` at once is reading `xs` and, if the reader then waits for more, reading `ys`.
push_loop-append :
    (xs ys : List ℕ) (i : ℕ) (r : Reader)
    → push_loop (xs ++ ys) i r ≡ continue_with (push_loop xs i r) ys (i + length xs)
unfolding push_loop
push_loop-append [] ys i r = let e : i + 0 ≡ i = omega arith in rw e
push_loop-append (x ∷ xs) ys i r =
    let e : i + suc (length xs) ≡ i + 1 + length xs = omega arith in
    rw
      (
        e,
        push_loop-append xs ys (i + 1) r,
        push_loop-append xs ys (i + 1) (record r { discarding = true }),
        push_loop-append xs ys (i + 1) (store r x),
      )
      (elim (Bool-cases r.discarding) [
        | inl d ↦ elim (Bool-cases (x == 0)) [ inl z ↦ rw (d, z) | inr z ↦ rw (d, z) ]
        | inr d ↦ elim (Bool-cases (x == 0)) [
          | inl z ↦ elim (Bool-cases (r.storage.len == 0)) [
            | inl n ↦ rw (d, z, n)
            | inr n ↦ rw (d, z, n)
          ]
          | inr z ↦ elim (Bool-cases (leb (length r.storage.bytes) r.storage.len)) [
            | inl f ↦ rw (d, z, f)
            | inr f ↦ rw (d, z, f)
          ]
        ]
      ])

-- The same result, with `k` more bytes consumed.
abbrev shifted : ℕ → Pushed → Pushed
shifted k p = record p { consumed = k + p.consumed }

push_loop-shifted :
    (xs : List ℕ) (k i : ℕ) (r : Reader) → push_loop xs (k + i) r ≡ shifted k (push_loop xs i r)
unfolding push_loop
push_loop-shifted [] k i r = refl
push_loop-shifted (x ∷ xs) k i r =
    let e : k + i + 1 ≡ k + (i + 1) = omega arith in
    rw
      (
        e,
        push_loop-shifted xs k (i + 1) r,
        push_loop-shifted xs k (i + 1) (record r { discarding = true }),
        push_loop-shifted xs k (i + 1) (store r x),
      )
      (elim (Bool-cases r.discarding) [
        | inl d ↦ elim (Bool-cases (x == 0)) [ inl z ↦ rw (d, z) refl | inr z ↦ rw (d, z) refl ]
        | inr d ↦ elim (Bool-cases (x == 0)) [
          | inl z ↦ elim (Bool-cases (r.storage.len == 0)) [
            | inl n ↦ rw (d, z, n) refl
            | inr n ↦ rw (d, z, n) refl
          ]
          | inr z ↦ elim (Bool-cases (leb (length r.storage.bytes) r.storage.len)) [
            | inl f ↦ rw (d, z, f) refl
            | inr f ↦ rw (d, z, f) refl
          ]
        ]
      ])

-- A reader that waits for more is as ready to read as before, in the same storage.
record Waits (r : Reader) (n : ℕ) (p : Pushed) : Type 0 where
  pub initialized : p.reader.initialized ≡ r.initialized
  pub ready : p.reader.ready ≡ r.ready
  pub failed : p.reader.failed ≡ r.failed
  pub ptr : p.reader.storage.ptr ≡ r.storage.ptr
  pub size : length p.reader.storage.bytes ≡ length r.storage.bytes
  pub consumed : p.consumed ≡ n

push_loop-Waits :
    (xs : List ℕ) (i : ℕ) (r : Reader)
    → (push_loop xs i r).status ≡ err would_block
    → Waits r (i + length xs) (push_loop xs i r)
unfolding push_loop
push_loop-Waits [] i r h = record {
  initialized = refl;
  ready = refl;
  failed = refl;
  ptr = refl;
  size = refl;
  consumed = omega arith;
}
push_loop-Waits (x ∷ xs) i r h = ground (
  arith,
  push_loop-Waits xs (i + 1) r,
  push_loop-Waits xs (i + 1) (record r { discarding = true }),
  push_loop-Waits xs (i + 1) (store r x),
  length-set r.storage.bytes r.storage.len x,
)

overlap_parts :
    (ptr n m start size : ℕ)
    → ranges_overlap ptr (n + m) start size ≡ false
    → (ranges_overlap ptr n start size ≡ false) × (ranges_overlap (ptr + n) m start size ≡ false)
unfolding ranges_overlap
overlap_parts ptr n m start size h = ground (arith, h)

-- A call of `push` on the bytes of `v`, of a reader that may have been left waiting.
abbrev pub push_again : Pushed → View → Pushed
push_again p v = elim p.status [
  | ok ↦ p
  | err e ↦ elim e [ would_block ↦ shifted p.consumed (push p.reader v given given given) | _ ↦ p ]
]

-- A call of `push` that does not get as far as its loop, and one that does.
push_refused :
    (r : Reader) (v : View)
    → v.ptr ≢ 0
    → (not r.initialized || r.ready || r.failed) ≡ true
    → push r v given given given ≡ stopped (err state) r 0
unfolding push
push_refused r v some_ptr refused =
    let z : (v.ptr == 0) ≡ false = ground arith in rw (z, refused, push) refl

push_reads :
    (r : Reader) (v : View)
    → r.initialized ≡ true
    → r.ready ≡ false
    → r.failed ≡ false
    → (v.ptr == 0) ≡ false
    → ranges_overlap v.ptr (length v.bytes) r.storage.ptr (length r.storage.bytes) ≡ false
    → push r v given given given ≡ push_loop v.bytes 0 r
unfolding push
push_reads r v i d f p o = ground (arith, i, d, f, p, o)

Waits-then_reads :
    (r : Reader) (ptr : ℕ) (xs ys : List ℕ) (p : Pushed)
    → Waits r (0 + length xs) p
    → r.initialized ≡ true
    → r.ready ≡ false
    → r.failed ≡ false
    → (ptr + length xs == 0) ≡ false
    → ranges_overlap (ptr + length xs) (length ys) r.storage.ptr (length r.storage.bytes) ≡ false
    → push_loop ys (0 + length xs) p.reader
      ≡ shifted p.consumed
          (push p.reader (record { ptr = ptr + length xs; bytes = ys }) given given given)
Waits-then_reads r ptr xs ys p w i d f z o =
    let reads =
      push_reads p.reader (record { ptr = ptr + length xs; bytes = ys }) (w.initialized ∙ i)
        (w.ready ∙ d) (w.failed ∙ f) z (rw (w.ptr, w.size) o) in
    let later = push_loop-shifted ys (length xs) 0 p.reader in
    let first : length xs + 0 ≡ 0 + length xs = omega arith in
    let all : p.consumed ≡ length xs = omega (arith, w.consumed) in
    rw (reads, all) (rw first at later)

push_again-append :
    (r : Reader) (ptr : ℕ) (xs ys : List ℕ) (p : Pushed) (status : Status)
    → p.status ≡ status
    → (p.status ≡ err would_block → Waits r (0 + length xs) p)
    → r.initialized ≡ true
    → r.ready ≡ false
    → r.failed ≡ false
    → (ptr + length xs == 0) ≡ false
    → ranges_overlap (ptr + length xs) (length ys) r.storage.ptr (length r.storage.bytes) ≡ false
    → continue_with p ys (0 + length xs)
      ≡ push_again p (record { ptr = ptr + length xs; bytes = ys })
push_again-append r ptr xs ys p ok h w i d f z o = rw h refl
push_again-append r ptr xs ys p (err would_block) h w i d f z o =
    rw h (Waits-then_reads r ptr xs ys p (w h) i d f z o)
push_again-append r ptr xs ys p (err _) h w i d f z o = rw h refl

-- It makes no difference how bytes that are not in the storage of the reader are cut into two calls:
-- one call of `push` with `xs` and `ys`, one behind the other at an address that is not NULL, leaves
-- the reader and gives the status, the count and the record that a call with `xs` does and, where
-- this one waits for more, a second call with `ys`, the counts of the two added up.
pub push-append :
    (r : Reader) (ptr : ℕ) (xs ys : List ℕ)
    → ptr ≢ 0
    → ranges_overlap ptr (length (xs ++ ys)) r.storage.ptr (length r.storage.bytes) ≡ false
    → push r (record { ptr = ptr; bytes = xs ++ ys }) given given given
      ≡ push_again
          (push r (record { ptr = ptr; bytes = xs }) given given given)
          (record { ptr = ptr + length xs; bytes = ys })
push-append r ptr xs ys some_ptr apart =
    elim (Bool-cases (not r.initialized || r.ready || r.failed)) [
      | inl refused ↦
          rw
            (
              push_refused r (record { ptr = ptr; bytes = xs ++ ys }) some_ptr refused,
              push_refused r (record { ptr = ptr; bytes = xs }) some_ptr refused,
            )
            refl
      | inr reads ↦
          let i : r.initialized ≡ true = ground (arith, reads) in
          let d : r.ready ≡ false = ground (arith, reads) in
          let f : r.failed ≡ false = ground (arith, reads) in
          let z : (ptr == 0) ≡ false = ground arith in
          let z' : (ptr + length xs == 0) ≡ false = ground arith in
          let n = length-append {0} xs ys in
          let (first, second) =
            overlap_parts ptr (length xs) (length ys) r.storage.ptr (length r.storage.bytes)
              (rw n at apart) in
          let p = push_loop xs 0 r in
          rw
            (
              push_reads r (record { ptr = ptr; bytes = xs ++ ys }) i d f z apart,
              push_reads r (record { ptr = ptr; bytes = xs }) i d f z first,
              push_loop-append xs ys 0 r,
            )
            (push_again-append r ptr xs ys p p.status refl (push_loop-Waits xs 0 r) i d f z' second)
    ]
