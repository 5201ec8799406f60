-- ===== src/Tests/ProxyRuns.antt =====
-- pico/src/byte_ring.c and pico/src/byte_pump.c with endpoints that are lists of bytes.
use pbns.Common.{
  ℕ, ◌≡◌, ◌≤◌, ◌↔◌, refl, true, some, List, [], ◌∷◌, ◌++◌, length, take, drop, ok, err, arith,
  replicate, would_block,
}
use pbns.Common.Memory.{given}
use pbns.Proxy.ByteRing.{
  ByteRing, ring_is_valid, storage_is_valid, writable, readable, commit, consume, cap, size,
  written, ring_tail, writable_length, capacity,
}
use pbns.Proxy.ByteRing.Layout.{contents}
use pbns.Proxy.ByteRing.Queue.{commit-contents, consume-contents, windows-contents}
use pbns.Proxy.BytePump.{
  BytePump, Endpoint, default_policy, typed, zero_pump, is_complete, process_direction,
  write_pending, read_available, written_reply, read_reply, is_would_block, should_hold_write,
}
use pbns.Proxy.BytePump.Step.{batch_with_policy, batch_loop, step, step_directions}
use pbns.Proxy.BytePump.Contract.{Carries}
use pbns.Proxy.BytePump.Conserves.{Balanced}
use pbns.Proxy.BytePump.Transfer.{batch-Flows}

-- Three bytes in a ring of four, in two runs.
abbrev ring : ByteRing
ring = record {
  storage = record { ptr = 100; len = 0; bytes = 3 ∷ 0 ∷ 1 ∷ 2 ∷ [] };
  head = 2;
  used = 3;
  initialized = true;
}

commit-contents_example :
    let r = commit (written ring (4 ∷ [])) 1 in
    (r.0 ≡ ok)
    × (ring_is_valid r.1 ≡ true)
    × (cap r.1 ≡ 4)
    × (contents r.1 ≡ contents ring ++ 4 ∷ [])
unfolding ring_is_valid storage_is_valid writable writable_length ring_tail
commit-contents_example = commit-contents ring (4 ∷ []) refl (omega arith) (omega arith)

consume-contents_example :
    let r = consume ring 2 in
    let window = (readable ring given).1.bytes in
    (take (length window) (contents ring) ≡ window)
    × (r.0 ≡ ok)
    × (ring_is_valid r.1 ≡ true)
    × (cap r.1 ≡ 4)
    × (contents r.1 ≡ drop 2 (contents ring))
unfolding ring_is_valid storage_is_valid readable
consume-contents_example = consume-contents ring 2 refl (omega arith)

windows-contents_example :
    (size ring ≡ length (contents ring))
    × (((writable ring given).1.bytes ≡ []) ↔ (length (contents ring) ≡ cap ring))
    × (((readable ring given).1.bytes ≡ []) ↔ (contents ring ≡ []))
unfolding ring_is_valid storage_is_valid
windows-contents_example = windows-contents ring refl

-- What each endpoint has given and taken so far, and what the USB side still has to give.
record World : Type 0 where
  usb_in : List ℕ
  usb_out : List ℕ
  tls_in : List ℕ
  tls_out : List ℕ
  queue : List ℕ

-- The USB side gives what it has; the TLS side has nothing to give; both take everything.
abbrev usb : Endpoint World
usb = record {
  read = λ w b.
      let bytes = take (length b.bytes) w.queue in
      record {
        reply = typed ok;
        received = length bytes;
        bytes = bytes;
        world = record w { usb_in = w.usb_in ++ bytes; queue = drop (length b.bytes) w.queue };
      };
  write = λ w v. record {
    reply = typed ok;
    written = length v.bytes;
    world = record w { usb_out = w.usb_out ++ take (length v.bytes) v.bytes };
  };
}

abbrev tls : Endpoint World
tls = record {
  read = λ w b. record { reply = typed (err would_block); received = 0; bytes = []; world = w };
  write = λ w v. record {
    reply = typed ok;
    written = length v.bytes;
    world = record w { tls_out = w.tls_out ++ take (length v.bytes) v.bytes };
  };
}

up : Carries usb tls (λ w. w.usb_in) (λ w. w.tls_out) (λ w. (w.tls_in, w.usb_out))
up = record {
  read_ok = λ w b e h. (refl, refl, refl, refl);
  read_blocked = λ w b e h. absurd (ground (arith, e));
  write_ok = λ w v e h. (refl, refl, refl);
  write_blocked = λ w v e h. absurd (ground (arith, e));
}

down : Carries tls usb (λ w. w.tls_in) (λ w. w.usb_out) (λ w. (w.usb_in, w.tls_out))
down = record {
  read_ok = λ w b e h. absurd (ground (arith, e));
  read_blocked = λ w b e h. (refl, refl, refl, refl);
  write_ok = λ w v e h. (refl, refl, refl);
  write_blocked = λ w v e h. absurd (ground (arith, e));
}

abbrev empty_ring : ℕ → ByteRing
empty_ring ptr = record {
  storage = record { ptr = ptr; len = 0; bytes = replicate 4 0 };
  head = 0;
  used = 0;
  initialized = true;
}

abbrev pump : BytePump
pump = record zero_pump {
  usb_to_tls = empty_ring 100;
  tls_to_usb = empty_ring 200;
  initialized = true;
}

abbrev world : World
world = record {
  usb_in = [];
  usb_out = [];
  tls_in = [];
  tls_out = [];
  queue = 1 ∷ 2 ∷ 3 ∷ 4 ∷ 5 ∷ 6 ∷ [];
}

there : Balanced (λ w. w.usb_in) (λ w. w.tls_out) (empty_ring 100) world
unfolding ring_is_valid storage_is_valid
there = record { valid = refl; small = omega arith; kept = refl }

back : Balanced (λ w. w.tls_in) (λ w. w.usb_out) (empty_ring 200) world
unfolding ring_is_valid storage_is_valid
back = record { valid = refl; small = omega arith; kept = refl }

batch-Flows_example :
    let r = batch_with_policy pump (some usb) (some tls) (some default_policy) given given world in
    (r.steps ≤ 8)
    × (r.world.usb_in ≡ r.world.tls_out ++ contents r.pump.usb_to_tls)
    × (r.world.tls_in ≡ r.world.usb_out ++ contents r.pump.tls_to_usb)
unfolding batch_with_policy batch_loop step step_directions process_direction write_pending
    read_available written_reply read_reply is_would_block should_hold_write is_complete
    ring_is_valid storage_is_valid writable writable_length ring_tail readable commit consume size
    capacity
batch-Flows_example =
    batch-Flows usb tls (λ w. w.usb_in) (λ w. w.usb_out) (λ w. w.tls_in) (λ w. w.tls_out) up down
      default_policy pump world (there, back) refl
