-- ===== src/Tests/ImageRuns.antt =====
-- src/core/recovery_stream.c with a hash that keeps the bytes that it was given.
use pbns.Common.{
  ℕ, ◌≡◌, ◌⊎◌, inl, refl, true, false, some, List, [], ◌∷◌, ◌++◌, length, bytes_equal, ok, arith,
  replicate, state, sequence, checks,
}
use pbns.Common.Memory.{View, Buffer, given, null_view}
use pbns.Wire.Frame.{Frame}
use pbns.Recovery.Stream.{
  HashOps, RecoveryStream, Store, init, init_arguments_are_valid, digest_nonzero, accept,
  accept_checks, take_chunk, acknowledge, fail, finish, complete_checks, check_digest, reset,
  refused, zero_stream,
}
use pbns.Recovery.Stream.Received.{Holds}
use pbns.Recovery.Stream.Image.{accept_all, hash_all, joined, finish-authentic}
use pbns.Recovery.Stream.Failure.{accept-fail, reset-wipes}

abbrev ops : HashOps (List ℕ)
ops = record {
  begin = λ c. (ok, []);
  update = λ c bytes. (ok, c ++ bytes);
  finish = λ c. (ok, c, c);
  clear = λ c. [];
}

abbrev bytes : List ℕ
bytes = 1 ∷ 2 ∷ 3 ∷ []

abbrev pages : Buffer
pages = record { ptr = 100; len = 0; bytes = replicate 3 9 }

abbrev id : List ℕ
id = replicate 16 7

abbrev frame : ℕ → ℕ → Frame
frame type number = record {
  service = 2;
  type = type;
  flags = 0;
  request_id = id;
  sequence = number;
}

abbrev chunk : View
chunk = record { ptr = 500; bytes = bytes }

finish-authentic_example :
    let start = init ops id pages (some bytes) given [] in
    let run = accept_all ops start.stream start.store ((frame 3 0, chunk) ∷ []) in
    let end = finish ops run.1 run.2 (some (frame 7 1)) null_view in
    let hash = hash_all ops [] ((frame 3 0, chunk) ∷ []) in
    (end.store.pages ≡ joined ((frame 3 0, chunk) ∷ []))
    × (length (joined ((frame 3 0, chunk) ∷ [])) ≡ 3)
    × (hash.0 ≡ ok)
    × ((ops.finish hash.1).0 ≡ ok)
    × ((ops.finish hash.1).1 ≡ bytes)
    × (end.stream.complete ≡ true)
unfolding init init_arguments_are_valid digest_nonzero accept accept_all accept_checks take_chunk
    acknowledge finish complete_checks check_digest checks bytes_equal
finish-authentic_example =
    finish-authentic ops id pages bytes given [] ((frame 3 0, chunk) ∷ []) (frame 7 1) null_view
      refl refl refl

abbrev stream : RecoveryStream
stream = record zero_stream {
  request_id = id;
  pages = given;
  image_size = 3;
  hash_ops = given;
  hash_active = true;
  initialized = true;
}

abbrev store : Store (List ℕ)
store = record { pages = replicate 3 9; context = [] }

holds : Holds stream (replicate 3 9) []
holds = record {
  sized = refl;
  bounded = omega arith;
  counted = refl;
  within = omega arith;
  content = refl;
  chunked = inl refl;
  few = omega arith;
  acked = refl;
}

accept-fail_example :
    let o = accept ops stream store (some (frame 3 4)) chunk given in
    (o.stream ≡ record stream { failed = true; hash_active = false })
    × (o.store.pages ≡ store.pages)
    × ((o.store.context ≡ []) ⊎ (o.store.context ≡ []))
    × (accept ops o.stream o.store (some (frame 3 0)) chunk given
        ≡ refused ops o.stream o.store state)
unfolding accept accept_checks checks bytes_equal fail
accept-fail_example =
    accept-fail ops stream store (frame 3 4) (frame 3 0) chunk chunk sequence (refl, refl, refl)
      (refl, refl) refl refl refl

reset-wipes_example :
    ((reset ops stream store).1.pages ≡ replicate 3 0) × ((reset ops stream store).0 ≡ zero_stream)
reset-wipes_example = reset-wipes ops stream store [] holds refl
