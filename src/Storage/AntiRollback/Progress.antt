-- ===== src/Storage/AntiRollback/Progress.antt =====
-- An advance to a later version succeeds when the memory does.
use pbns.Common.{
  ℕ, ◌+◌, ◌%◌, ◌^◌, ◌<◌, ◌≡◌, ◌≢◌, refl, sym, ap, ◌∙◌, ◌⊎◌, inl, inr, Bool, Option, none, some,
  List, [], arith, lt→ltb, ge→ltb, gt→leb, ==_iff, ne→==, Status, ok,
}
use pbns.Common.Memory.{View, given}
use pbns.Common.Words.{uint64_max}
use pbns.Storage.AntiRollback.{
  State, Backend, nvram_backend, backend, read_backend, write_backend, verify, advance_from,
  advance, read, inactive_slot, encode_record, select, nvram_reduced, init_nvram,
}
use pbns.Storage.AntiRollback.RoundTrip.{decode_record-encode_record}
use pbns.Storage.AntiRollback.Slots.{
  KeepsSlots, decode_slot, Newest, read_nvram-same, read_nvram-select, read_nvram-Newest,
}

abbrev pub no_authorization : View
no_authorization = record { ptr = 0; bytes = [] }

abbrev pub next_state : State → ℕ → State
next_state s target = record {
  version = target;
  generation = s.generation + 1;
  active_slot = inactive_slot s;
  assurance = nvram_reduced;
}

select-first :
    (s : State) (target : ℕ) (first second : Option (ℕ × ℕ))
    → inactive_slot s ≡ 0
    → first ≡ some (s.generation + 1, target)
    → (second ≡ none) ⊎ (second ≡ some (s.generation, s.version))
    → select first second ≡ (ok, next_state s target)
unfolding select
select-first s target first second e f (inl g) =
    rw (f, g, select) (ap (λ n. (ok, record (next_state s target) { active_slot = n })) (sym e))
select-first s target first second e f (inr g) =
    rw
      (
        f,
        g,
        ne→== (s.generation + 1) s.generation (omega arith),
        ge→ltb (s.generation + 1) s.generation (omega arith),
        select,
      )
      (ap (λ n. (ok, record (next_state s target) { active_slot = n })) (sym e))

select-second :
    (s : State) (target : ℕ) (first second : Option (ℕ × ℕ))
    → inactive_slot s ≡ 1
    → second ≡ some (s.generation + 1, target)
    → first ≡ some (s.generation, s.version)
    → select first second ≡ (ok, next_state s target)
unfolding select
select-second s target first second e f g =
    rw
      (
        g,
        f,
        ne→== s.generation (s.generation + 1) (omega arith),
        lt→ltb s.generation (s.generation + 1) (omega arith),
        select,
      )
      (ap (λ n. (ok, record (next_state s target) { active_slot = n })) (sym e))

-- The selection after a write to the inactive slot, whichever that is.
select-next :
    (s : State) (target : ℕ) (held held' : ℕ → Option (ℕ × ℕ))
    → Newest (held 0) (held 1) s
    → held' (inactive_slot s) ≡ some (s.generation + 1, target)
    → ((m : ℕ) → m ≢ inactive_slot s → held' m ≡ held m)
    → select (held' 0) (held' 1) ≡ (ok, next_state s target)
select-next s target held held' n new old = elim n.active [
  | inl (first, second, v, g, slot) ↦
      let e : inactive_slot s ≡ 0 = ground arith in
      select-first s target (held' 0) (held' 1) e (ap held' (sym e) ∙ new)
        (inl (old 1 (ground arith) ∙ second))
  | inr (inl (slot, first)) ↦
      let e : inactive_slot s ≡ 1 = ground arith in
      select-second s target (held' 0) (held' 1) e (ap held' (sym e) ∙ new)
        (old 0 (ground arith) ∙ first)
  | inr (inr (slot, second)) ↦
      let e : inactive_slot s ≡ 0 = ground arith in
      select-first s target (held' 0) (held' 1) e (ap held' (sym e) ∙ new)
        (inr (old 1 (ground arith) ∙ second))
]

module _ {W : Type 0} (slot_read : W → ℕ → Status × List ℕ × Bool × W)
    (slot_write : W → ℕ → List ℕ → Status × W) (slot : W → ℕ → Option (List ℕ))
    (c : KeepsSlots slot_read slot_write slot) where
  abbrev memory : Backend W
  memory = nvram_backend slot_read slot_write

  abbrev stored : State → ℕ → W → W
  stored s target w = (slot_write w (inactive_slot s) (encode_record (s.generation + 1) target)).1

  -- A read after the write gives the next state.
  read-stored :
      (s : State) (target : ℕ) (w : W)
      → ((v : W) (n : ℕ) → (slot_read v n).0 ≡ ok)
      → (slot_write w (inactive_slot s) (encode_record (s.generation + 1) target)).0 ≡ ok
      → Newest (decode_slot (slot w 0)) (decode_slot (slot w 1)) s
      → 0 < target
      → target < 2 ^ 64
      → s.generation < uint64_max
      → let r = read_backend memory (stored s target w) in (r.0 ≡ ok) × (r.1 ≡ next_state s target)
  unfolding read_backend
  read-stored s target w reads writes n pos small room =
      let v = stored s target w in
      let bytes = encode_record (s.generation + 1) target in
      let selected =
        select-next s target (λ m. decode_slot (slot w m)) (λ m. decode_slot (slot v m)) n
          (ap decode_slot (c.write_ok w (inactive_slot s) bytes writes)
            ∙ decode_record-encode_record (s.generation + 1) target (omega arith) pos
                (omega (arith, room)) small)
          (λ m ne. ap decode_slot (c.write_other w (inactive_slot s) m bytes ne)) in
      let (status, found) =
        read_nvram-select slot_read slot_write slot c v (reads v 0) (reads (slot_read v 0).3 1) in
      (status ∙ ap (λ r. r.0) selected, found ∙ ap (λ r. r.1) selected)

  read-Newest :
      (w : W)
      → (read_backend memory w).0 ≡ ok
      → let u = (read_backend memory w).2 in
        Newest (decode_slot (slot u 0)) (decode_slot (slot u 1)) (read_backend memory w).1
  unfolding read_backend
  read-Newest w h =
      let same = read_nvram-same slot_read slot_write slot c w in
      rw (same 0, same 1) (read_nvram-Newest slot_read slot_write slot c w h)

  write-stored :
      (s : State) (target : ℕ) (w : W)
      → s.generation < uint64_max
      → write_backend memory s target no_authorization w
        ≡ slot_write w (inactive_slot s) (encode_record (s.generation + 1) target)
  unfolding write_backend
  write-stored s target w room = rw (ne→== s.generation uint64_max (omega arith)) refl

  verify-next :
      (s : State) (target : ℕ) (w : W)
      → s.generation < uint64_max
      → (read_backend memory w).0 ≡ ok
      → (read_backend memory w).1 ≡ next_state s target
      → verify memory s target w ≡ (ok, next_state s target, (read_backend memory w).2)
  unfolding verify
  verify-next s target w room e f =
      let wrap : (s.generation + 1) % 2 ^ 64 ≡ s.generation + 1 = omega (arith, room) in
      rw
        (
          e,
          f,
          wrap,
          (==_iff target target).1 refl,
          (==_iff (s.generation + 1) (s.generation + 1)).1 refl,
          verify,
        )
        refl

  -- The calls of an advance that none of the guards stops.
  advance-steps :
      (target : ℕ) (w : W)
      → let now = read_backend memory w in
        now.0 ≡ ok
        → now.1.version < target
        → (slot_write now.2 (inactive_slot now.1) (encode_record (now.1.generation + 1) target)).0
          ≡ ok
        → write_backend memory now.1 target no_authorization now.2
          ≡ slot_write now.2 (inactive_slot now.1) (encode_record (now.1.generation + 1) target)
        → advance (init_nvram (some slot_read) (some slot_write)).1 target no_authorization given w
          ≡ verify memory now.1 target (stored now.1 target now.2)
  unfolding advance advance_from init_nvram backend
  advance-steps target w readable newer wrote written =
      let now = read_backend memory w in
      let ok_written = ap (λ r. r.0) written ∙ wrote in
      rw (readable, gt→leb target now.1.version newer, ne→== target 0 (omega arith), ok_written)
        (ap (λ r. verify memory now.1 target r.1) written)

  -- With a memory that keeps its slots and whose reads and writes return OK: an advance with no
  -- authorization, from a readable state whose generation is not the last, to a later version of 64
  -- bits, returns OK, and its state has the target as its version, the next generation, and the
  -- slot that was not active.
  pub advance-succeeds :
      (target : ℕ) (w : W)
      → let controller = (init_nvram (some slot_read) (some slot_write)).1 in
        let before = (read controller given w).1 in
        ((v : W) (n : ℕ) → (slot_read v n).0 ≡ ok)
        → ((v : W) (n : ℕ) (bytes : List ℕ) → (slot_write v n bytes).0 ≡ ok)
        → (read controller given w).0 ≡ ok
        → before.version < target
        → target < 2 ^ 64
        → before.generation < uint64_max
        → let after = advance controller target no_authorization given w in
          (after.0 ≡ ok) × (after.1 ≡ next_state before target)
  unfolding read init_nvram backend
  advance-succeeds target w reads writes readable newer small room =
      let now = read_backend memory w in
      let s = now.1 in
      let v = stored s target now.2 in
      let wrote = writes now.2 (inactive_slot s) (encode_record (s.generation + 1) target) in
      let (again, found) =
        read-stored s target now.2 reads wrote (read-Newest w readable) (omega arith) small room in
      let advanced = advance-steps target w readable newer in
      let written = write-stored s target now.2 room in
      let verified : verify memory s target v
          ≡ (ok, next_state s target, (read_backend memory v).2) =
        verify-next s target v room again found in
      let all = advanced wrote written ∙ verified in (ap (λ r. r.0) all, ap (λ r. r.1) all)
