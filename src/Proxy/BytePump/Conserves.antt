-- ===== src/Proxy/BytePump/Conserves.antt =====
-- The pump loses no byte, adds none and keeps their order, in either direction.
use pbns.Common.{
  subst, ℕ, ◌+◌, ◌≤◌, ◌≡◌, refl, sym, ap, ap₂, ◌∙◌, inl, inr, Bool, true, List, [], ◌++◌,
  append-nil, append_assoc, arith, length, take, drop, take-append-drop, ok, Status-cases,
  nil_of_length, take-take,
}
use pbns.Common.Memory.{given, size_max}
use pbns.Proxy.ByteRing.{
  ring_tail, ByteRing, cap, ring_is_valid, written, readable, writable, commit, consume,
}
use pbns.Proxy.ByteRing.Layout.{contents}
use pbns.Proxy.ByteRing.Queue.{commit-contents, consume-contents}
use pbns.Proxy.BytePump.{
  Direction, Endpoint, Moved, write_pending, read_available, process_direction,
}
use pbns.Proxy.BytePump.Contract.{Carries}
use pbns.Proxy.BytePump.Carry.{
  Wrote, waited, blocked, took, Got, idle, starved, ended, gave, write_pending-Wrote,
  read_available-Got,
}

-- The ring holds exactly the bytes that the source has given and the sink has not taken yet.
pub record Balanced {W : Type 0} (taken passed : W → List ℕ) (ring : ByteRing) (w : W)
    : Type 0 where
  pub valid : ring_is_valid ring ≡ true
  pub small : cap ring ≤ size_max
  pub kept : taken w ≡ passed w ++ contents ring

add_zero : (n : ℕ) → n + 0 ≡ n
add_zero n = omega arith

written-nil : (ring : ByteRing) → written ring [] ≡ ring
written-nil ring =
    let n = ring_tail ring in
    let bytes = ring.storage.bytes in
    ap (λ x. record ring { storage = record ring.storage { bytes = x } })
      (ap₂ (λ x k. x ++ drop k bytes) (append-nil (take n bytes)) (add_zero n)
        ∙ take-append-drop n bytes)

module _ {W : Type 0} (source sink : Endpoint W) (taken passed : W → List ℕ)
    (other : W → List ℕ × List ℕ) (c : Carries source sink taken passed other) where
  abbrev Kept : ByteRing → W → W → Type 0
  Kept ring before after = Balanced taken passed ring after × (other after ≡ other before)

  move-Kept :
      (ring ring' : ByteRing) (w w' v : W) → ring' ≡ ring → w' ≡ w → Kept ring v w → Kept ring' v w'
  move-Kept ring ring' w w' v e f k = rw (e, f) k

  -- Nothing but the world moved.
  still-Kept :
      (ring : ByteRing) (w w' : W)
      → Balanced taken passed ring w
      → taken w' ≡ taken w
      → passed w' ≡ passed w
      → other w' ≡ other w
      → Kept ring w w'
  still-Kept ring w w' b t p o = (
    record {
      valid = b.valid;
      small = b.small;
      kept = t ∙ b.kept ∙ ap (λ x. x ++ contents ring) (sym p);
    },
    o,
  )

  consume-Kept :
      (ring : ByteRing) (w w' : W) (n : ℕ)
      → let v = (readable ring given).1.bytes in
        Balanced taken passed ring w
        → n ≤ length v
        → passed w' ≡ passed w ++ take n v
        → taken w' ≡ taken w
        → other w' ≡ other w
        → Kept (consume ring n).1 w w'
  consume-Kept ring w w' n b h p t o =
      let v = (readable ring given).1.bytes in
      let (prefix, _, valid, same_cap, rest) = consume-contents ring n b.valid h in
      let q = contents ring in
      let sent : take n v ≡ take n q = ap (take n) (sym prefix) ∙ take-take n (length v) q h in
      (
        record {
          valid = valid;
          small = omega (arith, same_cap, b.small);
          kept =
              t
              ∙ b.kept
              ∙ ap (◌++◌ (passed w)) (sym (take-append-drop n q))
              ∙ sym (append_assoc (passed w) (take n q) (drop n q))
              ∙ ap₂ (◌++◌) (ap (◌++◌ (passed w)) (sym sent) ∙ sym p) (sym rest);
        },
        o,
      )

  commit-Kept :
      (ring : ByteRing) (w w' : W) (bytes : List ℕ)
      → Balanced taken passed ring w
      → length bytes ≤ length (writable ring given).1.bytes
      → taken w' ≡ taken w ++ bytes
      → passed w' ≡ passed w
      → other w' ≡ other w
      → Kept (commit (written ring bytes) (length bytes)).1 w w'
  commit-Kept ring w w' bytes b h t p o =
      let (_, valid, same_cap, more) = commit-contents ring bytes b.valid b.small h in
      (
        record {
          valid = valid;
          small = omega (arith, same_cap, b.small);
          kept =
              t
              ∙ ap (λ x. x ++ bytes) b.kept
              ∙ append_assoc (passed w) (contents ring) bytes
              ∙ ap₂ (◌++◌) (sym p) (sym more);
        },
        o,
      )

  Wrote-Kept :
      (d : Direction) (w : W) (m : Moved W)
      → let v = (readable d.ring given).1 in
        Balanced taken passed d.ring w
        → Wrote d w (sink.write w v) (length v.bytes) m
        → Kept m.direction.ring w m.world
  Wrote-Kept d w m b (waited e f) =
      move-Kept d.ring m.direction.ring w m.world w (ap (λ x. x.ring) e) f (b, refl)
  Wrote-Kept d w m b (blocked e z f g) =
      let v = (readable d.ring given).1 in
      let (p, t, o) = c.write_blocked w v e z in
      move-Kept d.ring m.direction.ring (sink.write w v).world m.world w (ap (λ x. x.ring) f) g
        (still-Kept d.ring w (sink.write w v).world b t p o)
  Wrote-Kept d w m b (took e n f g) =
      let v = (readable d.ring given).1 in
      let r = sink.write w v in
      let (p, t, o) = c.write_ok w v e n in
      move-Kept (consume d.ring r.written).1 m.direction.ring r.world m.world w f g
        (consume-Kept d.ring w r.world r.written b n p t o)

  Got-Kept :
      (d : Direction) (w : W) (m : Moved W)
      → let b = (writable d.ring given).1 in
        Balanced taken passed d.ring w
        → Got d w (source.read w b) (length b.bytes) m
        → Kept m.direction.ring w m.world
  Got-Kept d w m b (idle e f) =
      move-Kept d.ring m.direction.ring w m.world w (ap (λ x. x.ring) e) f (b, refl)
  Got-Kept d w m b (starved e z f g) =
      let r = source.read w (writable d.ring given).1 in
      let (empty, t, p, o) = c.read_blocked w (writable d.ring given).1 e z in
      move-Kept d.ring m.direction.ring r.world m.world w
        (f ∙ ap (written d.ring) empty ∙ written-nil d.ring) g (still-Kept d.ring w r.world b t p o)
  Got-Kept d w m b (ended e z f g) =
      let r = source.read w (writable d.ring given).1 in
      let (count, t, p, o) = c.read_ok w (writable d.ring given).1 e (omega (arith, z)) in
      let empty = nil_of_length r.bytes (count ∙ z) in
      move-Kept d.ring m.direction.ring r.world m.world w
        (f ∙ ap (written d.ring) empty ∙ written-nil d.ring) g
        (still-Kept d.ring w r.world b (t ∙ ap (◌++◌ (taken w)) empty ∙ append-nil (taken w)) p o)
  Got-Kept d w m b (gave e n f g) =
      let r = source.read w (writable d.ring given).1 in
      let (count, t, p, o) = c.read_ok w (writable d.ring given).1 e n in
      move-Kept (commit (written d.ring r.bytes) (length r.bytes)).1 m.direction.ring r.world
        m.world w (f ∙ ap (λ k. (commit (written d.ring r.bytes) k).1) (sym count)) g
        (commit-Kept d.ring w r.world r.bytes b (omega (arith, count, n)) t p o)

  pub process_direction-Kept :
      (d : Direction) (p : Bool) (w : W)
      → Balanced taken passed d.ring w
      → (process_direction source sink d p w).status ≡ ok
      → let m = process_direction source sink d p w in Kept m.direction.ring w m.world
  unfolding process_direction
  process_direction-Kept d p w b h =
      let m = write_pending sink d p w in
      let next = read_available source m.direction m.made_progress m.world in
      elim (Status-cases m.status) [
        | inl e ↦
            let (held, o) = Wrote-Kept d w m b (write_pending-Wrote sink d p w b.valid e) in
            let same : process_direction source sink d p w ≡ next = ground arith in
            let (held', o') = Got-Kept m.direction m.world next held (
              read_available-Got source m.direction m.made_progress m.world held.valid
                (sym (ap (λ x. x.status) same) ∙ h)) in
            subst (λ x. Kept x.direction.ring w x.world) (sym same) (held', o' ∙ o)
        | inr (x, e) ↦ absurd (ground arith)
      ]
