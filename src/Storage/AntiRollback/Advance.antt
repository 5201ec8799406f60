-- ===== src/Storage/AntiRollback/Advance.antt =====
-- An advance raises the version, or leaves the record that is active as it was.
use pbns.Common.{
  subst, ℕ, ◌+◌, ◌%◌, ◌^◌, ◌<◌, ◌≡◌, ◌≢◌, refl, sym, ap, ◌∙◌, ◌⊎◌, inl, inr, Bool, false, not, ◌&&◌,
  ◌||◌, Option, some, List, arith, ltb, leb, ◌==◌, Bool-cases, length, leb→gt, Status, ok,
  Status-cases,
}
use pbns.Common.Memory.{View, Pointer, given, is_null, view_is_valid}
use pbns.Common.Words.{uint64_max}
use pbns.Storage.AntiRollback.{
  State, AntiRollback, Backend, nvram_backend, backend_of, backend, read_backend, write_backend,
  is_nvram, verify, advance_from, advance, read, inactive_slot, encode_record,
  authorization_max_size, init_nvram,
}
use pbns.Storage.AntiRollback.Slots.{KeepsSlots, read_nvram-same}

verify-ok :
    {W : Type 0} (b : Backend W) (current : State) (target : ℕ) (w : W)
    → (verify b current target w).0 ≡ ok
    → let s = (verify b current target w).1 in
      (s.version ≡ target)
      × ((is_nvram b ≡ false) ⊎ (s.generation ≡ (current.generation + 1) % 2 ^ 64))
unfolding verify
verify-ok b current target w h =
    let (status, verified, u) = read_backend b w in
    elim (Status-cases status) [
      | inl e ↦ elim (Bool-cases (not (verified.version == target))) [
        | inl bad ↦ absurd (ground arith)
        | inr same ↦
            elim (Bool-cases
              (is_nvram b && not (verified.generation == (current.generation + 1) % 2 ^ 64))) [
                | inl bad ↦ absurd (ground arith)
                | inr fine ↦ ground arith
              ]
      ]
      | inr (x, e) ↦ absurd (ground arith)
    ]

advance_from-ok :
    {W : Type 0} (b : Backend W) (current : State) (target : ℕ) (authorization : View) (w : W)
    → (advance_from b current target authorization w).0 ≡ ok
    → let u = (write_backend b current target authorization w).1 in
      (current.version < target)
      × ((write_backend b current target authorization w).0 ≡ ok)
      × (advance_from b current target authorization w ≡ verify b current target u)
unfolding advance_from
advance_from-ok b current target authorization w h =
    elim (Bool-cases (leb target current.version)) [
      | inl stale ↦ absurd (ground arith)
      | inr newer ↦ elim (Status-cases (write_backend b current target authorization w).0) [
        | inl e ↦ (leb→gt target current.version newer, e, ground arith)
        | inr (x, e) ↦ absurd (ground arith)
      ]
    ]

advance-from :
    {W : Type 0} (c : AntiRollback W) (target : ℕ) (authorization : View) (w : W)
    → (advance c target authorization given w).0 ≡ ok
    → let now = read_backend (backend_of c) w in
      (now.0 ≡ ok)
      × (advance c target authorization given w
          ≡ advance_from (backend_of c) now.1 target authorization now.2)
unfolding advance
advance-from c target authorization w h = elim (Status-cases (read_backend (backend_of c) w).0) [
  | inl e ↦ ground arith
  | inr (x, e) ↦ absurd (ground arith)
]

-- If an advance returns OK, then `read` had given a version below the target, and the state that is
-- returned has the target as its version; in non-volatile memory its generation is the next one.
pub advance-raises :
    {W : Type 0} (c : AntiRollback W) (target : ℕ) (authorization : View) (w : W)
    → (advance c target authorization given w).0 ≡ ok
    → let before = read c given w in
      let after = advance c target authorization given w in
      (before.0 ≡ ok)
      × (before.1.version < target)
      × (after.1.version ≡ target)
      × ((is_nvram (backend_of c) ≡ false)
          ⊎ (after.1.generation ≡ (before.1.generation + 1) % 2 ^ 64))
unfolding read
advance-raises c target authorization w h =
    let b = backend_of c in
    let now = read_backend b w in
    let (read_ok, e) = advance-from c target authorization w h in
    let (newer, _, f) =
      advance_from-ok b now.1 target authorization now.2 (sym (ap (λ r. r.0) e) ∙ h) in
    let (version, generation) =
      verify-ok b now.1 target (write_backend b now.1 target authorization now.2).1
        (sym (ap (λ r. r.0) (e ∙ f)) ∙ h) in
    subst
      (λ r.
        (now.0 ≡ ok)
        × (now.1.version < target)
        × (r.1.version ≡ target)
        × ((is_nvram b ≡ false) ⊎ (r.1.generation ≡ (now.1.generation + 1) % 2 ^ 64)))
      (sym (e ∙ f)) (read_ok, newer, version, generation)

inactive-other : (s : State) (m : ℕ) → s.active_slot ≡ m → m < 2 → m ≢ inactive_slot s
inactive-other s m e h = ground arith

module _ {W : Type 0} (slot_read : W → ℕ → Status × List ℕ × Bool × W)
    (slot_write : W → ℕ → List ℕ → Status × W) (slot : W → ℕ → Option (List ℕ))
    (c : KeepsSlots slot_read slot_write slot) where
  write-active :
      (current : State) (target : ℕ) (authorization : View) (w : W) (m : ℕ)
      → current.active_slot ≡ m
      → m < 2
      → slot (write_backend (nvram_backend slot_read slot_write) current target authorization w).1 m
        ≡ slot w m
  unfolding write_backend
  write-active current target authorization w m e h =
      let kept =
        c.write_other w (inactive_slot current) m (encode_record (current.generation + 1) target)
          (inactive-other current m e h) in
      elim (Bool-cases (not (length authorization.bytes == 0))) [
        | inl some_bytes ↦ rw (some_bytes, write_backend) refl
        | inr none_left ↦ elim (Bool-cases (current.generation == uint64_max)) [
          | inl last ↦ rw (none_left, last, write_backend) refl
          | inr room ↦ rw (none_left, room, write_backend) kept
        ]
      ]

  abbrev memory : Backend W
  memory = nvram_backend slot_read slot_write

  read-same : (w : W) (m : ℕ) → slot (read_backend memory w).2 m ≡ slot w m
  unfolding read_backend
  read-same w m = read_nvram-same slot_read slot_write slot c w m

  verify-same :
      (current : State) (target : ℕ) (w : W) (m : ℕ)
      → slot (verify memory current target w).2 m ≡ slot w m
  unfolding verify
  verify-same current target w m =
      let verified = (read_backend memory w).1 in
      elim (Status-cases (read_backend memory w).0) [
        | inl e ↦
            elim (Bool-cases (
              not (verified.version == target)
              || not (verified.generation == (current.generation + 1) % 2 ^ 64))) [
                | inl bad ↦ rw (e, bad, verify) (read-same w m)
                | inr fine ↦ rw (e, fine, verify) (read-same w m)
              ]
        | inr (x, e) ↦ rw (e, verify) (read-same w m)
      ]

  advance_from-active :
      (current : State) (target : ℕ) (authorization : View) (w : W) (m : ℕ)
      → current.active_slot ≡ m
      → m < 2
      → slot (advance_from memory current target authorization w).2 m ≡ slot w m
  unfolding advance_from
  advance_from-active current target authorization w m e h =
      let kept = write-active current target authorization w m e h in
      let u = (write_backend memory current target authorization w).1 in
      elim (Bool-cases (leb target current.version)) [
        | inl stale ↦ rw (stale, advance_from) refl
        | inr newer ↦ elim (Status-cases (write_backend memory current target authorization w).0) [
          | inl f ↦ rw (newer, f, advance_from) (verify-same current target u m ∙ kept)
          | inr (x, f) ↦ rw (newer, f, advance_from) kept
        ]
      ]

  -- With a memory that keeps its slots, whatever an advance returns, and whatever a write that
  -- failed has left in the other slot, the slot that a read found active holds what it held.
  pub advance-active :
      (target : ℕ) (authorization : View) (out : Pointer) (w : W) (m : ℕ)
      → let controller = (init_nvram (some slot_read) (some slot_write)).1 in
        (read controller given w).1.active_slot ≡ m
        → m < 2
        → slot (advance controller target authorization out w).2 m ≡ slot w m
  unfolding advance read init_nvram backend
  advance-active target authorization out w m e h =
      let now = read_backend memory w in
      let refused =
        not (view_is_valid authorization)
        || is_null out
        || target == 0
        || ltb authorization_max_size (length authorization.bytes) in
      elim (Bool-cases refused) [
        | inl bad ↦ rw (bad, advance) refl
        | inr good ↦ elim (Status-cases now.0) [
          | inl f ↦
              rw (good, f, advance)
                (advance_from-active now.1 target authorization now.2 m e h ∙ read-same w m)
          | inr (x, f) ↦ rw (good, f, advance) (read-same w m)
        ]
      ]
