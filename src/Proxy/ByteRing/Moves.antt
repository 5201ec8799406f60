-- ===== src/Proxy/ByteRing/Moves.antt =====
-- How writing into a ring moves the queue in the storage.
use pbns.Common.{
  copy_at, copy_at-append, ℕ, ◌+◌, ◌-◌, ◌≤◌, ◌<◌, ◌≡◌, refl, sym, ap, ◌∙◌, inl, inr, List, [], ◌++◌,
  append-nil, append_assoc, arith, leb, Bool-cases, length, take, drop, length-append,
  take-append-drop, length-take, length-drop, nil_of_length,
}
use pbns.Proxy.ByteRing.{written, ByteRing, cap, ring_tail, writable_length}
use pbns.Proxy.ByteRing.Layout.{Linear, Wrapped, Layout, append-lengths}

-- The ring that counts the written bytes.
abbrev pub filled_with : ByteRing → List ℕ → ByteRing
filled_with ring sent = record (written ring sent) { used = ring.used + length sent }

-- A copy over the start of the middle of three parts.
copy_at-middle :
    (xs p f r d : List ℕ) (n : ℕ)
    → xs ≡ p ++ f ++ r
    → n ≡ length p
    → length d ≤ length f
    → copy_at xs n d ≡ p ++ d ++ drop (length d) f ++ r
copy_at-middle xs p f r d n e at h =
    let w = take (length d) f in
    let v = drop (length d) f in
    let split : p ++ f ++ r ≡ p ++ w ++ (v ++ r) =
      ap (λ x. p ++ x ++ r) (sym (take-append-drop (length d) f))
      ∙ append_assoc p (w ++ v) r
      ∙ ap (◌++◌ p) (append_assoc w v r)
      ∙ sym (append_assoc p w (v ++ r)) in
    ap (λ x. copy_at x n d) (e ∙ split)
    ∙ copy_at-append p w (v ++ r) d n at (omega (arith, length-take (length d) f))
    ∙ sym (append_assoc (p ++ d) v r)

-- Writing behind a queue that lies in one run and does not reach the end of the storage.
behind :
    (ring : ByteRing) (q sent : List ℕ) (l : Linear ring q)
    → ring_tail ring ≡ length l.before + length q
    → length sent ≤ length l.after
    → Layout (filled_with ring sent) (q ++ sent)
behind ring q sent l e h =
    let n = length sent in
    let r = drop n l.after in
    inl (record {
      before = l.before;
      after = r;
      bytes =
          copy_at-middle ring.storage.bytes (l.before ++ q) l.after [] sent (ring_tail ring)
            (l.bytes ∙ sym (append-nil (l.before ++ q ++ l.after)))
            (omega (arith, e, length-append l.before q)) h
          ∙ append-nil (l.before ++ q ++ sent ++ r)
          ∙ ap (λ x. x ++ r) (append_assoc l.before q sent);
      head = l.head;
      used = omega (arith, l.used, length-append q sent);
    })

-- Writing at the start of the storage, before a queue that ends with it.
around :
    (ring : ByteRing) (q sent : List ℕ) (l : Linear ring q)
    → ring_tail ring ≡ 0
    → l.after ≡ []
    → length sent ≤ length l.before
    → Layout (filled_with ring sent) (q ++ sent)
around ring q sent l e end h =
    let n = length sent in
    inr (record {
      back = sent;
      free = drop n l.before;
      front = q;
      bytes =
          copy_at-middle ring.storage.bytes [] l.before q sent (ring_tail ring)
            (l.bytes ∙ ap (◌++◌ (l.before ++ q)) end ∙ append-nil (l.before ++ q)) e h;
      head = omega (arith, l.head, length-drop n l.before);
      used = omega (arith, l.used);
      queue = refl;
    })

-- Writing between the two runs of a queue.
between :
    (ring : ByteRing) (q sent : List ℕ) (w : Wrapped ring q)
    → ring_tail ring ≡ length w.back
    → length sent ≤ length w.free
    → Layout (filled_with ring sent) (q ++ sent)
between ring q sent w e h =
    let n = length sent in
    inr (record {
      back = w.back ++ sent;
      free = drop n w.free;
      front = w.front;
      bytes =
          copy_at-middle ring.storage.bytes w.back w.free w.front sent (ring_tail ring) w.bytes e h;
      head = omega (arith, w.head, length-append w.back sent, length-drop n w.free);
      used = omega (arith, w.used, length-append w.back sent);
      queue = ap (λ x. x ++ sent) w.queue ∙ append_assoc w.front w.back sent;
    })

pub filled_with-Layout :
    (ring : ByteRing) (q sent : List ℕ)
    → Layout ring q
    → ring.head < cap ring
    → ring.used ≤ cap ring
    → length sent ≤ writable_length ring
    → Layout (filled_with ring sent) (q ++ sent)
unfolding writable_length ring_tail
filled_with-Layout ring q sent (inl l) inside fits h =
    let lengths : cap ring ≡ length l.before + length q + length l.after =
      ap length l.bytes ∙ append-lengths l.before q l.after in
    elim (Bool-cases (leb (cap ring - ring.head) ring.used)) [
      | inl reaches ↦
          let end : length l.after ≡ 0 = ground (arith, lengths, l.head, l.used) in
          around ring q sent l (ground (arith, lengths, l.head, l.used, end))
            (nil_of_length l.after end) (ground (arith, lengths, l.head, l.used, end))
      | inr short ↦
          behind ring q sent l (ground (arith, lengths, l.head, l.used))
            (ground (arith, lengths, l.head, l.used))
    ]
filled_with-Layout ring q sent (inr w) inside fits h =
    let lengths : cap ring ≡ length w.back + length w.free + length w.front =
      ap length w.bytes ∙ append-lengths w.back w.free w.front in
    between ring q sent w (ground (arith, lengths, w.head, w.used))
      (ground (arith, lengths, w.head, w.used))
