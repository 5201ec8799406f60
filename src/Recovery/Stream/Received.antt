-- ===== src/Recovery/Stream/Received.antt =====
-- What a recovery stream holds after the chunks that it has taken, and what completion confirms.
use pbns.Common.{
  ℕ, ◌+◌, ◌*◌, ◌%◌, ◌≤◌, ◌<◌, ◌≡◌, refl, sym, ◌∙◌, ◌⊎◌, inl, inr, true, some, List, [], ◌++◌, arith,
  ◌==◌, if◌then◌else◌, Bool-cases, length, take, drop, length-append, length-take, length-drop,
  take-append_exact, copy_at, ok, Status-cases,
}
use pbns.Common.Memory.{View, Buffer, Pointer, given}
use pbns.Wire.Frame.{Frame}
use pbns.Recovery.Stream.{
  HashOps, RecoveryStream, Store, advanced, acknowledge, accept, init, chunk_size, image_max,
  init_arguments_are_valid, ack_window,
}
use pbns.Recovery.Stream.Step.{Chunk, after_chunk, accept-Chunk}

-- The stream and the pages after the bytes `received`: they are at the start of the pages, every
-- record but the last was a full chunk, and an acknowledgement is due every eighth record.
pub record Holds (s : RecoveryStream) (pages received : List ℕ) : Type 0 where
  pub sized : length pages ≡ s.image_size
  pub bounded : s.image_size ≤ image_max
  pub counted : s.offset ≡ length received
  pub within : s.offset ≤ s.image_size
  pub content : take s.offset pages ≡ received
  pub chunked : (s.offset ≡ s.next_sequence * chunk_size) ⊎ (s.offset ≡ s.image_size)
  pub few : s.next_sequence * chunk_size < s.offset + chunk_size
  pub acked : s.records_since_ack ≡ s.next_sequence % ack_window

copy_at-take :
    (pages received bytes : List ℕ) (offset : ℕ)
    → offset ≡ length received
    → take offset pages ≡ received
    → offset + length bytes ≤ length pages
    → (length (copy_at pages offset bytes) ≡ length pages)
      × (take (offset + length bytes) (copy_at pages offset bytes) ≡ received ++ bytes)
copy_at-take pages received bytes offset e held room =
    let kept = take offset pages in
    let rest = drop (offset + length bytes) pages in
    let size = length-append kept bytes in
    let taken = length-take offset pages in
    (
      omega (
        arith,
        length-append (kept ++ bytes) rest,
        size,
        taken,
        length-drop (offset + length bytes) pages,
      ),
      take-append_exact (kept ++ bytes) rest (offset + length bytes) (omega (arith, size, taken))
          ∙ rw held refl,
    )

acknowledge-fields :
    (t : RecoveryStream)
    → let a = acknowledge t in
      (a.0.offset ≡ t.offset)
      × (a.0.image_size ≡ t.image_size)
      × (a.0.next_sequence ≡ t.next_sequence)
      × (a.0.records_since_ack
          ≡ (if t.records_since_ack == ack_window then 0 else t.records_since_ack))
      × (a.1.required ≡ (t.records_since_ack == ack_window))
      × (a.0.initialized ≡ t.initialized)
      × (a.0.expected_digest ≡ t.expected_digest)
unfolding acknowledge
acknowledge-fields t = ground arith

module _ {C : Type 0} (ops : HashOps C) where
  Chunk-Holds :
      (s : RecoveryStream) (store : Store C) (f : Frame) (payload received : List ℕ)
      → Holds s store.pages received
      → Chunk ops s store f payload
      → Holds
          (after_chunk ops s store payload).stream
          (after_chunk ops s store payload).store.pages
          (received ++ payload)
  Chunk-Holds s store f payload received v c =
      let n = length payload in
      let short : n ≤ chunk_size = ground (arith, c.sized) in
      let fits : s.offset + n ≤ s.image_size = ground (arith, c.sized, c.started) in
      let full : (n ≡ chunk_size) ⊎ (s.offset + n ≡ s.image_size) =
        ground (arith, c.sized, c.started) in
      let (offset, size, next, since, due, live, digest) =
        acknowledge-fields (advanced s payload) in
      let (sized, content) =
        copy_at-take store.pages received payload s.offset v.counted v.content
          (omega (arith, v.sized)) in
      let moved : (acknowledge (advanced s payload)).0.offset ≡ s.offset + n =
        omega (arith, offset, v.within, v.bounded) in
      let aligned : s.offset ≡ s.next_sequence * chunk_size =
        ground (arith, v.chunked, fits, c.nonempty) in
      let counted : (acknowledge (advanced s payload)).0.next_sequence ≡ s.next_sequence + 1 =
        omega (arith, next, v.few, v.within, v.bounded) in
      record {
        sized = sized ∙ v.sized ∙ sym size;
        bounded = omega (arith, size, v.bounded);
        counted = omega (arith, moved, v.counted, length-append received payload);
        within = omega (arith, moved, size);
        content = rw moved content;
        chunked = ground (arith, moved, counted, size, full, aligned);
        few = omega (arith, moved, counted, aligned, c.nonempty, short);
        acked = ground (arith, since, counted, v.acked);
      }

  -- A chunk that `accept` takes goes behind the bytes that the pages hold, whatever its record
  -- number, and the stream keeps count.
  pub accept-Holds :
      (s : RecoveryStream) (store : Store C) (f : Frame) (payload : View) (received : List ℕ)
      → Holds s store.pages received
      → (accept ops s store (some f) payload given).status ≡ ok
      → let o = accept ops s store (some f) payload given in
        Holds o.stream o.store.pages (received ++ payload.bytes)
        × ((ops.update store.context payload.bytes).0 ≡ ok)
        × (o.store.context ≡ (ops.update store.context payload.bytes).1)
        × (o.stream.expected_digest ≡ s.expected_digest)
        × (o.stream.image_size ≡ s.image_size)
  accept-Holds s store f payload received v h =
      let (c, e) = accept-Chunk ops s store f payload h in
      let fields = acknowledge-fields (advanced s payload.bytes) in
      rw e (Chunk-Holds s store f payload.bytes received v c, c.hashed, refl, fields.6, fields.1)

init_arguments-bounds :
    (exact_pages : Buffer) (digest : List ℕ) (hash_ops : Pointer)
    → init_arguments_are_valid exact_pages (some digest) hash_ops ≡ true
    → length exact_pages.bytes ≤ image_max
unfolding init_arguments_are_valid
init_arguments-bounds exact_pages digest hash_ops h = ground arith

pub init-Holds :
    {C : Type 0} (ops : HashOps C) (request_id : List ℕ) (exact_pages : Buffer) (digest : List ℕ)
    (hash_ops : Pointer) (context : C)
    → (init ops request_id exact_pages (some digest) hash_ops context).status ≡ ok
    → let o = init ops request_id exact_pages (some digest) hash_ops context in
      Holds o.stream o.store.pages []
      × (o.store.context ≡ (ops.begin context).1)
      × (o.stream.expected_digest ≡ digest)
      × (o.stream.image_size ≡ length exact_pages.bytes)
unfolding init
init-Holds ops request_id exact_pages digest hash_ops context h =
    elim (Bool-cases (init_arguments_are_valid exact_pages (some digest) hash_ops)) [
      | inl valid ↦ elim (Status-cases (ops.begin context).0) [
        | inl begun ↦
            rw (valid, begun, init)
              (
                record {
                  sized = refl;
                  bounded = init_arguments-bounds exact_pages digest hash_ops valid;
                  counted = refl;
                  within = omega arith;
                  content = refl;
                  chunked = inl refl;
                  few = omega arith;
                  acked = refl;
                },
                refl,
                refl,
                refl,
              )
        | inr (x, e) ↦ absurd (ground arith)
      ]
      | inr bad ↦ absurd (ground arith)
    ]
