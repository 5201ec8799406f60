-- ===== src/Proxy/ByteRing/Consume.antt =====
-- How consuming from a ring moves the queue in the storage.
use pbns.Common.{
  subst, ℕ, ◌+◌, ◌-◌, ◌≤◌, ◌<◌, ◌≡◌, refl, sym, ap, ◌∙◌, inl, inr, List, [], ◌++◌, append_assoc,
  arith, ◌==◌, if◌then◌else◌, ne→==, Bool-cases, length, take, drop, length-append,
  take-append-drop, length-take, length-drop, drop-append_exact, drop-all,
}
use pbns.Proxy.ByteRing.{ByteRing, cap, contiguous}
use pbns.Proxy.ByteRing.Layout.{Linear, Wrapped, Layout, append-lengths}

-- What `consume` leaves when it takes no more than the contiguous bytes.
abbrev pub after_consume : ByteRing → ℕ → ByteRing
after_consume ring n =
    if n == ring.used
    then record ring { head = 0; used = 0 }
    else if ring.head + n == cap ring
    then record ring { head = 0; used = ring.used - n }
    else record ring { head = ring.head + n; used = ring.used - n }

consume-Linear :
    (ring : ByteRing) (q : List ℕ) (n : ℕ) (l : Linear ring q)
    → n < ring.used
    → Linear (record ring { head = ring.head + n; used = ring.used - n }) (drop n q)
consume-Linear ring q n l h = record {
  before = l.before ++ take n q;
  after = l.after;
  bytes =
      l.bytes
      ∙ ap (λ x. x ++ l.after)
          (ap (◌++◌ l.before) (sym (take-append-drop n q))
            ∙ sym (append_assoc l.before (take n q) (drop n q)));
  head = omega (arith, l.head, l.used, length-append l.before (take n q), length-take n q);
  used = omega (arith, l.used, length-drop n q);
}

-- Consuming the whole front run of a queue in two runs.
consume-front :
    (ring : ByteRing) (q : List ℕ) (n : ℕ) (w : Wrapped ring q)
    → n ≡ length w.front
    → Linear (record ring { head = 0; used = ring.used - n }) (drop n q)
consume-front ring q n w h =
    let e : drop n q ≡ w.back = ap (drop n) w.queue ∙ drop-append_exact w.front w.back n h in
    subst (Linear (record ring { head = 0; used = ring.used - n })) (sym e) (record {
      before = [];
      after = w.free ++ w.front;
      bytes = w.bytes ∙ append_assoc w.back w.free w.front;
      head = refl;
      used = omega (arith, w.used);
    })

consume-Wrapped :
    (ring : ByteRing) (q : List ℕ) (n : ℕ) (w : Wrapped ring q)
    → n < length w.front
    → Wrapped (record ring { head = ring.head + n; used = ring.used - n }) (drop n q)
consume-Wrapped ring q n w h =
    let split = take-append-drop n w.front in
    record {
      back = w.back;
      free = w.free ++ take n w.front;
      front = drop n w.front;
      bytes =
          w.bytes
          ∙ ap (◌++◌ (w.back ++ w.free)) (sym split)
          ∙ sym (append_assoc (w.back ++ w.free) (take n w.front) (drop n w.front))
          ∙ ap (λ x. x ++ drop n w.front) (append_assoc w.back w.free (take n w.front));
      head = omega (arith, w.head, length-append w.free (take n w.front), length-take n w.front);
      used = omega (arith, w.used, length-drop n w.front);
      queue =
          ap (drop n) (
            w.queue
            ∙ ap (λ x. x ++ w.back) (sym split)
            ∙ append_assoc (take n w.front) (drop n w.front) w.back)
          ∙ drop-append_exact (take n w.front) (drop n w.front ++ w.back) n
              (omega (arith, length-take n w.front));
    }

pub Layout-used : (ring : ByteRing) (q : List ℕ) → Layout ring q → ring.used ≡ length q
Layout-used ring q (inl l) = l.used
Layout-used ring q (inr w) = omega (arith, w.used, ap length w.queue, length-append w.front w.back)

move :
    (ring : ByteRing) (q : List ℕ) (n : ℕ)
    → Layout ring q
    → ring.head < cap ring
    → n ≤ contiguous ring
    → n < ring.used
    → Layout
        (if ring.head + n == cap ring
          then record ring { head = 0; used = ring.used - n }
          else record ring { head = ring.head + n; used = ring.used - n })
        (drop n q)
move ring q n (inl l) inside h k =
    let lengths : cap ring ≡ length l.before + length q + length l.after =
      ap length l.bytes ∙ append-lengths l.before q l.after in
    rw (ne→== (ring.head + n) (cap ring) (omega (arith, lengths, l.head, l.used)))
      (inl (consume-Linear ring q n l k))
move ring q n (inr w) inside h k =
    let lengths : cap ring ≡ length w.back + length w.free + length w.front =
      ap length w.bytes ∙ append-lengths w.back w.free w.front in
    elim (Bool-cases (ring.head + n == cap ring)) [
      | inl end ↦ rw end (inl (consume-front ring q n w (ground (arith, lengths, w.head))))
      | inr inner ↦
          rw inner (inr (consume-Wrapped ring q n w (ground (arith, lengths, w.head, w.used))))
    ]

pub after_consume-Layout :
    (ring : ByteRing) (q : List ℕ) (n : ℕ)
    → Layout ring q
    → ring.head < cap ring
    → n ≤ contiguous ring
    → n ≤ ring.used
    → Layout (after_consume ring n) (drop n q)
after_consume-Layout ring q n v inside h k = elim (Bool-cases (n == ring.used)) [
  | inl all ↦
      let none_left = drop-all n q (ground (arith, Layout-used ring q v)) in
      rw (all, none_left)
        (inl (record {
          before = [];
          after = ring.storage.bytes;
          bytes = refl;
          head = refl;
          used = refl;
        }))
  | inr some_left ↦ rw some_left (move ring q n v inside h (ground arith))
]
