-- ===== src/Proxy/ByteRing/Layout.antt =====
-- How a queue lies in the storage of a ring: in one run of bytes, or in two, at the end and the start.
use pbns.Common.{
  subst, take-all, ℕ, ◌+◌, ◌-◌, ◌≤◌, ◌<◌, ◌≡◌, refl, sym, ap, ap₂, ◌∙◌, ◌⊎◌, inl, inr, true, List,
  ◌++◌, append-nil, append_assoc, arith, ltb, ltb→ge, Bool-cases, length, take, drop, length-append,
  take-append-drop, length-take, length-drop, take-append_exact, drop-append_exact, take-take,
}
use pbns.Proxy.ByteRing.{ByteRing, cap, ring_is_valid, storage_is_valid, contiguous}

-- In one run, between bytes that are free.
pub record Linear (ring : ByteRing) (q : List ℕ) : Type 0 where
  pub before : List ℕ
  pub after : List ℕ
  pub bytes : ring.storage.bytes ≡ before ++ q ++ after
  pub head : ring.head ≡ length before
  pub used : ring.used ≡ length q

-- In two runs: the front of the queue at the end of the storage, the back at the start.
pub record Wrapped (ring : ByteRing) (q : List ℕ) : Type 0 where
  pub back : List ℕ
  pub free : List ℕ
  pub front : List ℕ
  pub bytes : ring.storage.bytes ≡ back ++ free ++ front
  pub head : ring.head ≡ length back + length free
  pub used : ring.used ≡ length front + length back
  pub queue : q ≡ front ++ back

abbrev pub Layout : ByteRing → List ℕ → Type 0
Layout ring q = Linear ring q ⊎ Wrapped ring q

-- The two runs when the first one is `n` bytes long.
abbrev runs : ByteRing → ℕ → List ℕ
runs ring n = take n (drop ring.head ring.storage.bytes) ++ take (ring.used - n) ring.storage.bytes

-- The queue that a ring stands for, oldest byte first.
abbrev pub contents : ByteRing → List ℕ
contents ring = runs ring (contiguous ring)

pub valid-InBounds :
    (ring : ByteRing)
    → ring_is_valid ring ≡ true
    → (ring.head < cap ring)
      × (ring.used ≤ cap ring)
      × (ring.initialized ≡ true)
      × (storage_is_valid ring.storage ≡ true)
unfolding ring_is_valid
valid-InBounds ring h = ground arith

pub append-lengths : (a b c : List ℕ) → length (a ++ b ++ c) ≡ length a + length b + length c
append-lengths a b c = omega (arith, length-append (a ++ b) c, length-append a b)

sub_self : (n : ℕ) → n - n ≡ 0
sub_self n = omega arith

pub contents-Layout : (ring : ByteRing) → ring_is_valid ring ≡ true → Layout ring (contents ring)
contents-Layout ring valid =
    let (inside, fits, _, _) = valid-InBounds ring valid in
    let bytes = ring.storage.bytes in
    let n = cap ring - ring.head in
    let rest = drop ring.head bytes in
    let size = length-drop ring.head bytes in
    let split = take-append-drop ring.head bytes in
    let head = length-take ring.head bytes in
    elim (Bool-cases (ltb ring.used n)) [
      | inl one ↦
          let e : contents ring ≡ take ring.used rest =
            ap (runs ring) (ground arith)
            ∙ ap (λ k. take ring.used rest ++ take k bytes) (sub_self ring.used)
            ∙ append-nil (take ring.used rest) in
          subst (Layout ring) (sym e) (
            inl (record {
              before = take ring.head bytes;
              after = drop ring.used rest;
              bytes = sym (
                  append_assoc (take ring.head bytes) _ _
                  ∙ ap (◌++◌ (take ring.head bytes)) (take-append-drop ring.used rest)
                  ∙ split);
              head = omega (arith, head);
              used = ground (arith, length-take ring.used rest, size);
            }))
      | inr two ↦
          let k = ring.used - n in
          let back = take k (take ring.head bytes) in
          let small : n ≤ ring.used = ltb→ge ring.used n two in
          let e : contents ring ≡ rest ++ back =
            ap (runs ring) (ground arith)
            ∙ ap₂ (◌++◌) (take-all n rest (omega (arith, size)))
                (sym (take-take k ring.head bytes (omega arith))) in
          subst (Layout ring) (sym e) (
            inr (record {
              back = back;
              free = drop k (take ring.head bytes);
              front = rest;
              bytes = sym (ap (λ x. x ++ rest) (take-append-drop k (take ring.head bytes)) ∙ split);
              head = omega (
                arith,
                head,
                length-take k (take ring.head bytes),
                length-drop k (take ring.head bytes),
              );
              used = omega (arith, size, head, length-take k (take ring.head bytes));
              queue = refl;
            }))
    ]

pub Layout-contents : (ring : ByteRing) (q : List ℕ) → Layout ring q → contents ring ≡ q
Layout-contents ring q (inl l) =
    let lengths = ap length l.bytes ∙ append-lengths l.before q l.after in
    let e : drop ring.head ring.storage.bytes ≡ q ++ l.after =
      ap (drop ring.head) (l.bytes ∙ append_assoc l.before q l.after)
      ∙ drop-append_exact l.before (q ++ l.after) ring.head l.head in
    let one : contiguous ring ≡ ring.used = ground (arith, lengths, l.head, l.used) in
    ap (runs ring) one
    ∙ ap₂ (λ x k. take ring.used x ++ take k ring.storage.bytes) e (sub_self ring.used)
    ∙ append-nil (take ring.used (q ++ l.after))
    ∙ take-append_exact q l.after ring.used l.used
Layout-contents ring q (inr w) =
    let lengths = ap length w.bytes ∙ append-lengths w.back w.free w.front in
    let n = length w.front in
    let e : drop ring.head ring.storage.bytes ≡ w.front =
      ap (drop ring.head) w.bytes
      ∙ drop-append_exact (w.back ++ w.free) w.front ring.head
          (omega (arith, w.head, length-append w.back w.free)) in
    let d : take (ring.used - n) ring.storage.bytes ≡ w.back =
      ap (take (ring.used - n)) (w.bytes ∙ append_assoc w.back w.free w.front)
      ∙ take-append_exact w.back (w.free ++ w.front) (ring.used - n) (omega (arith, w.used)) in
    let two : contiguous ring ≡ n = ground (arith, lengths, w.head, w.used) in
    ap (runs ring) two
    ∙ ap₂ (λ x y. take n x ++ y) e d
    ∙ ap (λ x. x ++ w.back) (take-all n w.front (omega arith))
    ∙ sym w.queue
