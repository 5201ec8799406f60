-- ===== src/Storage/AntiRollback/Slots.antt =====
-- Which of the two slots is read, and what is promised of the memory that holds them.
use pbns.Common.{
  ℕ, ◌≤◌, ◌≡◌, ◌≢◌, refl, sym, ap, ◌∙◌, ◌⊎◌, inl, inr, Bool, Option, none, some, List, arith,
  Status, ok, Status-cases,
}
use pbns.Storage.AntiRollback.{State, select, decoded, decode_record, read_nvram, no_slot}

abbrev pub decode_slot : Option (List ℕ) → Option (ℕ × ℕ)
decode_slot none = none
decode_slot (some bytes) = decode_record bytes

-- The promises of the callbacks: `slot` is what the memory holds. A read that returns OK gives what
-- the slot holds, and no read changes a slot. A write touches its own slot only, whatever it
-- returns, and has stored the record when it returns OK.
pub record KeepsSlots {W : Type 0} (slot_read : W → ℕ → Status × List ℕ × Bool × W)
    (slot_write : W → ℕ → List ℕ → Status × W) (slot : W → ℕ → Option (List ℕ)) : Type 0 where
  pub read_ok :
      (w : W) (n : ℕ) → let r = slot_read w n in r.0 ≡ ok → decoded r.1 r.2 ≡ decode_slot (slot w n)
  pub read_same : (w : W) (n m : ℕ) → slot (slot_read w n).3 m ≡ slot w m
  pub write_ok :
      (w : W) (n : ℕ) (bytes : List ℕ)
      → (slot_write w n bytes).0 ≡ ok
      → slot (slot_write w n bytes).1 n ≡ some bytes
  pub write_other :
      (w : W) (n m : ℕ) (bytes : List ℕ) → m ≢ n → slot (slot_write w n bytes).1 m ≡ slot w m

-- The state that a selection returns is that of its active slot, and no slot is newer.
pub record Newest (first second : Option (ℕ × ℕ)) (s : State) : Type 0 where
  pub active :
      ((first ≡ none)
        × (second ≡ none)
        × (s.version ≡ 0)
        × (s.generation ≡ 0)
        × (s.active_slot ≡ no_slot))
      ⊎ ((s.active_slot ≡ 0) × (first ≡ some (s.generation, s.version)))
      ⊎ ((s.active_slot ≡ 1) × (second ≡ some (s.generation, s.version)))
  pub first_older : (g v : ℕ) → first ≡ some (g, v) → g ≤ s.generation
  pub second_older : (g v : ℕ) → second ≡ some (g, v) → g ≤ s.generation

pub select-Newest :
    (first second : Option (ℕ × ℕ))
    → (select first second).0 ≡ ok
    → Newest first second (select first second).1
unfolding select
select-Newest none none h = record {
  active = inl (refl, refl, refl, refl, refl);
  first_older = λ g v e. absurd (ground (arith, e));
  second_older = λ g v e. absurd (ground (arith, e));
}
select-Newest none (some (k, u)) h = record {
  active = inr (inr (refl, refl));
  first_older = λ g v e. absurd (ground (arith, e));
  second_older = λ g v e. ground (arith, e);
}
select-Newest (some (k, u)) none h = record {
  active = inr (inl (refl, refl));
  first_older = λ g v e. ground (arith, e);
  second_older = λ g v e. absurd (ground (arith, e));
}
select-Newest (some (g, v)) (some (k, u)) h = record {
  active = ground arith;
  first_older = λ a b e. ground (arith, e);
  second_older = λ a b e. ground (arith, e);
}

module _ {W : Type 0} (slot_read : W → ℕ → Status × List ℕ × Bool × W)
    (slot_write : W → ℕ → List ℕ → Status × W) (slot : W → ℕ → Option (List ℕ))
    (c : KeepsSlots slot_read slot_write slot) where
  -- Whatever a read returns, the slots are as they were.
  pub read_nvram-same : (w : W) (m : ℕ) → slot (read_nvram slot_read w).2 m ≡ slot w m
  unfolding read_nvram
  read_nvram-same w m =
      let u = (slot_read w 0).3 in
      let one = c.read_same w 0 m in
      let two = c.read_same u 1 m ∙ one in
      elim (Status-cases (slot_read w 0).0) [
        | inl e ↦ elim (Status-cases (slot_read u 1).0) [
          | inl f ↦ rw (e, f, read_nvram) two
          | inr (x, f) ↦ rw (e, f, read_nvram) two
        ]
        | inr (x, e) ↦ rw (e, read_nvram) one
      ]

  pub read_nvram-select :
      (w : W)
      → (slot_read w 0).0 ≡ ok
      → (slot_read (slot_read w 0).3 1).0 ≡ ok
      → ((read_nvram slot_read w).0 ≡ (select (decode_slot (slot w 0)) (decode_slot (slot w 1))).0)
        × ((read_nvram slot_read w).1
            ≡ (select (decode_slot (slot w 0)) (decode_slot (slot w 1))).1)
  unfolding read_nvram
  read_nvram-select w e f =
      let u = (slot_read w 0).3 in
      let first = c.read_ok w 0 e in
      let second = c.read_ok u 1 f ∙ ap decode_slot (c.read_same w 0 1) in
      rw (e, f, first, second, read_nvram) (refl, refl)

  reads-ok :
      (w : W)
      → (read_nvram slot_read w).0 ≡ ok
      → ((slot_read w 0).0 ≡ ok) × ((slot_read (slot_read w 0).3 1).0 ≡ ok)
  unfolding read_nvram
  reads-ok w h = elim (Status-cases (slot_read w 0).0) [
    | inl e ↦ elim (Status-cases (slot_read (slot_read w 0).3 1).0) [
      | inl f ↦ (e, f)
      | inr (x, f) ↦ absurd (ground arith)
    ]
    | inr (x, e) ↦ absurd (ground arith)
  ]

  -- With a memory that keeps its slots, a read that returns OK gives the record of the active slot,
  -- or version 0 when no slot holds a valid record, and no slot holds a valid record of a later
  -- generation.
  pub read_nvram-Newest :
      (w : W)
      → (read_nvram slot_read w).0 ≡ ok
      → Newest (decode_slot (slot w 0)) (decode_slot (slot w 1)) (read_nvram slot_read w).1
  read_nvram-Newest w h =
      let (e, f) = reads-ok w h in
      let (status, state) = read_nvram-select w e f in
      rw state (select-Newest (decode_slot (slot w 0)) (decode_slot (slot w 1)) (sym status ∙ h))
