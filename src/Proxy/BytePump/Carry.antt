-- ===== src/Proxy/BytePump/Carry.antt =====
-- What a direction of the pump carries from its source to its sink.
use pbns.Common.{
  subst, ℕ, ◌≤◌, ◌≡◌, refl, sym, ap, ◌∙◌, ◌⊎◌, inl, inr, Bool, true, ◌||◌, arith, ltb, ◌==◌, ltb→ge,
  ==_iff, Bool-cases, length, Status, ok, err, Status-cases, or-false,
}
use pbns.Common.{would_block}
use pbns.Common.Memory.{given}
use pbns.Proxy.ByteRing.{ByteRing, ring_is_valid, written, readable, writable, commit, consume}
use pbns.Proxy.BytePump.{
  Direction, Endpoint, Moved, Reply, typed, untyped, Received, Sent, write_pending, read_available,
  written_reply, read_reply, is_would_block, should_hold_write, read_is_held, stay,
  should_hold_write,
}

would_block_of : (s : Status) → is_would_block s ≡ true → s ≡ err would_block
unfolding is_would_block
would_block_of (err would_block) h = refl
would_block_of _ h = ground arith

readable-ok : (ring : ByteRing) → ring_is_valid ring ≡ true → (readable ring given).0 ≡ ok
unfolding readable
readable-ok ring h = ground arith

writable-ok : (ring : ByteRing) → ring_is_valid ring ≡ true → (writable ring given).0 ≡ ok
unfolding writable
writable-ok ring h = ground arith

Reply-cases : (r : Reply) → ((s : Status) × (r ≡ typed s)) ⊎ (r ≡ untyped)
Reply-cases (typed s) = inl (s, refl)
Reply-cases untyped = inr refl

-- What a call of `write` that leaves the direction running has done.
pub data Wrote {W : Type 0} (d : Direction) (w : W) (r : Sent W) (n : ℕ) (m : Moved W)
    : Type 0 where
  waited : m.direction ≡ d → m.world ≡ w → Wrote d w r n m
  blocked :
      r.reply ≡ typed (err would_block)
      → r.written ≡ 0
      → m.direction ≡ d
      → m.world ≡ r.world
      → Wrote d w r n m
  took :
      r.reply ≡ typed ok
      → r.written ≤ n
      → m.direction.ring ≡ (consume d.ring r.written).1
      → m.world ≡ r.world
      → Wrote d w r n m

-- What a call of `read` that leaves the direction running has done.
pub data Got {W : Type 0} (d : Direction) (w : W) (r : Received W) (n : ℕ) (m : Moved W)
    : Type 0 where
  idle : m.direction ≡ d → m.world ≡ w → Got d w r n m
  starved :
      r.reply ≡ typed (err would_block)
      → r.received ≡ 0
      → m.direction.ring ≡ written d.ring r.bytes
      → m.world ≡ r.world
      → Got d w r n m
  ended :
      r.reply ≡ typed ok
      → r.received ≡ 0
      → m.direction.ring ≡ written d.ring r.bytes
      → m.world ≡ r.world
      → Got d w r n m
  gave :
      r.reply ≡ typed ok
      → r.received ≤ n
      → m.direction.ring ≡ (commit (written d.ring r.bytes) r.received).1
      → m.world ≡ r.world
      → Got d w r n m

module _ {W : Type 0} where
  written_reply-Wrote :
      (d : Direction) (p : Bool) (n : ℕ) (w : W) (r : Sent W) (s : Status)
      → r.reply ≡ typed s
      → (written_reply d p n r s).status ≡ ok
      → Wrote d w r n (written_reply d p n r s)
  unfolding written_reply
  written_reply-Wrote d p n w r s e h = elim (Bool-cases (is_would_block s)) [
    | inl b ↦ elim (Bool-cases (r.written == 0)) [
      | inl z ↦
          rw (b, z)
            (blocked (e ∙ ap typed (would_block_of s b)) ((==_iff r.written 0).0 z) refl refl)
      | inr z ↦ absurd (ground arith)
    ]
    | inr b ↦ elim (Status-cases s) [
      | inl es ↦ elim (Bool-cases (r.written == 0 || ltb n r.written)) [
        | inl bad ↦ absurd (ground arith)
        | inr fine ↦ elim (Status-cases (consume d.ring r.written).0) [
          | inl c ↦
              rw (b, es, fine, c)
                (took (e ∙ ap typed es) (ltb→ge n r.written (or-false _ _ fine).1) refl refl)
          | inr (x, c) ↦ absurd (ground arith)
        ]
      ]
      | inr (x, es) ↦ absurd (ground arith)
    ]
  ]

  pub write_pending-Wrote :
      (sink : Endpoint W) (d : Direction) (p : Bool) (w : W)
      → ring_is_valid d.ring ≡ true
      → (write_pending sink d p w).status ≡ ok
      → let v = (readable d.ring given).1 in
        Wrote d w (sink.write w v) (length v.bytes) (write_pending sink d p w)
  unfolding write_pending
  write_pending-Wrote sink d p w valid h =
      let v = (readable d.ring given).1 in
      let r = sink.write w v in
      let readable_ok = readable-ok d.ring valid in
      let family = Wrote d w r (length v.bytes) in
      elim (Bool-cases (length v.bytes == 0 || should_hold_write d)) [
        | inl hold ↦
            let e : write_pending sink d p w ≡ stay ok d p w = ground (arith, readable_ok) in
            subst family (sym e) (waited refl refl)
        | inr go ↦ elim (Reply-cases r.reply) [
          | inl (s, typed_s) ↦
              let e : write_pending sink d p w ≡ written_reply d p (length v.bytes) r s =
                ground (arith, readable_ok, typed_s) in
              subst family (sym e) (
                written_reply-Wrote d p (length v.bytes) w r s typed_s
                  (sym (ap (λ m. m.status) e) ∙ h))
          | inr none_typed ↦ absurd (ground (arith, readable_ok))
        ]
      ]

  abbrev received_into : Direction → Received W → Direction
  received_into d r = record d { ring = written d.ring r.bytes }

  read_reply-Got :
      (d : Direction) (p : Bool) (n : ℕ) (w : W) (r : Received W) (s : Status)
      → r.reply ≡ typed s
      → (read_reply (received_into d r) p n r s).status ≡ ok
      → Got d w r n (read_reply (received_into d r) p n r s)
  unfolding read_reply
  read_reply-Got d p n w r s e h = elim (Bool-cases (is_would_block s)) [
    | inl b ↦ elim (Bool-cases (r.received == 0)) [
      | inl z ↦
          rw (b, z)
            (starved (e ∙ ap typed (would_block_of s b)) ((==_iff r.received 0).0 z) refl refl)
      | inr z ↦ absurd (ground arith)
    ]
    | inr b ↦ elim (Status-cases s) [
      | inl es ↦ elim (Bool-cases (ltb n r.received)) [
        | inl bad ↦ absurd (ground arith)
        | inr fine ↦ elim (Bool-cases (r.received == 0)) [
          | inl z ↦
              rw (b, es, fine, z) (ended (e ∙ ap typed es) ((==_iff r.received 0).0 z) refl refl)
          | inr z ↦ elim (Status-cases (commit (written d.ring r.bytes) r.received).0) [
            | inl c ↦
                rw (b, es, fine, z, c) (gave (e ∙ ap typed es) (ltb→ge n r.received fine) refl refl)
            | inr (x, c) ↦ absurd (ground arith)
          ]
        ]
      ]
      | inr (x, es) ↦ absurd (ground arith)
    ]
  ]

  pub read_available-Got :
      (source : Endpoint W) (d : Direction) (p : Bool) (w : W)
      → ring_is_valid d.ring ≡ true
      → (read_available source d p w).status ≡ ok
      → let b = (writable d.ring given).1 in
        Got d w (source.read w b) (length b.bytes) (read_available source d p w)
  unfolding read_available
  read_available-Got source d p w valid h =
      let b = (writable d.ring given).1 in
      let n = length b.bytes in
      let r = source.read w b in
      let writable_ok = writable-ok d.ring valid in
      let family = Got d w r n in
      elim (Bool-cases (d.source_closed || n == 0 || read_is_held d n)) [
        | inl hold ↦
            let e : read_available source d p w ≡ stay ok d p w = ground (arith, writable_ok) in
            subst family (sym e) (idle refl refl)
        | inr go ↦ elim (Reply-cases r.reply) [
          | inl (s, typed_s) ↦
              let e : read_available source d p w ≡ read_reply (received_into d r) p n r s =
                ground (arith, writable_ok, typed_s) in
              subst family (sym e)
                (read_reply-Got d p n w r s typed_s (sym (ap (λ m. m.status) e) ∙ h))
          | inr none_typed ↦ absurd (ground (arith, writable_ok))
        ]
      ]
