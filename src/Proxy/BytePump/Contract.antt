-- ===== src/Proxy/BytePump/Contract.antt =====
-- What the pump relies on of its endpoints.
use pbns.Common.{ℕ, ◌≤◌, ◌≡◌, List, [], ◌++◌, length, take, ok, err}
use pbns.Common.{would_block}
use pbns.Common.Memory.{Buffer, View}
use pbns.Proxy.BytePump.{Endpoint, typed}

-- What a source and a sink promise of the bytes that they have given and taken so far: `taken` and
-- `passed` are those, and `other` is what they do not touch. A source that returns OK has written
-- as many bytes as it reports, a sink that returns OK has taken as many as it reports, and one that
-- would block, with a count of zero, has done nothing.
pub record Carries {W : Type 0} (source sink : Endpoint W) (taken passed : W → List ℕ)
    (other : W → List ℕ × List ℕ) : Type 0 where
  pub read_ok :
      (w : W) (b : Buffer)
      → let r = source.read w b in
        r.reply ≡ typed ok
        → r.received ≤ length b.bytes
        → (length r.bytes ≡ r.received)
          × (taken r.world ≡ taken w ++ r.bytes)
          × (passed r.world ≡ passed w)
          × (other r.world ≡ other w)
  pub read_blocked :
      (w : W) (b : Buffer)
      → let r = source.read w b in
        r.reply ≡ typed (err would_block)
        → r.received ≡ 0
        → (r.bytes ≡ [])
          × (taken r.world ≡ taken w)
          × (passed r.world ≡ passed w)
          × (other r.world ≡ other w)
  pub write_ok :
      (w : W) (v : View)
      → let r = sink.write w v in
        r.reply ≡ typed ok
        → r.written ≤ length v.bytes
        → (passed r.world ≡ passed w ++ take r.written v.bytes)
          × (taken r.world ≡ taken w)
          × (other r.world ≡ other w)
  pub write_blocked :
      (w : W) (v : View)
      → let r = sink.write w v in
        r.reply ≡ typed (err would_block)
        → r.written ≡ 0
        → (passed r.world ≡ passed w) × (taken r.world ≡ taken w) × (other r.world ≡ other w)
