-- ===== src/Storage/AntiRollback.antt =====
-- src/core/anti_rollback.c: the lowest version that may still boot, in a TPM counter or in two slots
-- of non-volatile memory. The callbacks and the world that they act on are parameters; the status
-- of a callback is one of `pbns_status`. `none` is a NULL callback.
mod Record
unfoldable pub use Record.*
pub mod RoundTrip
pub mod Slots
pub mod Advance
pub mod Progress
use pbns.Common.{
  ℕ, zero, suc, ◌+◌, ◌-◌, ◌*◌, ◌/◌, ◌%◌, ◌^◌, Bool, true, false, not, ◌&&◌, ◌||◌, Option, none,
  some, List, [], ◌∷◌, ◌++◌, ltb, leb, ◌==◌, if◌then◌else◌, length, take, drop, bytes_equal, Status,
  ok, err, Error, argument, limit, state, replay, ambiguous,
}
use pbns.Common.Memory.{View, Pointer, null, given, is_null, view_is_valid, size_max}
use pbns.Common.Words.{u32_be, read_u32_be, uint64_max}
use pbns.Wire.Crc32c.{crc32c_bytes}

abbrev pub authorization_max_size : ℕ
authorization_max_size = 4096

abbrev pub no_slot : ℕ
no_slot = size_max

-- `pbns_anti_rollback_assurance`
pub data Assurance : Type 0 where
  invalid tpm nvram_reduced : Assurance

-- `pbns_anti_rollback_state`
pub record State : Type 0 where
  pub version : ℕ
  pub generation : ℕ
  pub active_slot : ℕ
  pub assurance : Assurance

abbrev pub zero_state : State
zero_state = record { version = 0; generation = 0; active_slot = 0; assurance = invalid }

-- `pbns_anti_rollback`; the world stands for what `context` points at.
pub record AntiRollback (W : Type 0) : Type 0 where
  pub assurance : Assurance
  pub tpm_read : Option (W → Status × ℕ × W)
  pub tpm_advance : Option (W → ℕ → ℕ → View → Status × W)
  pub slot_read : Option (W → ℕ → Status × List ℕ × Bool × W)
  pub slot_write : Option (W → ℕ → List ℕ → Status × W)

unfoldable pub select : Option (ℕ × ℕ) → Option (ℕ × ℕ) → Status × State
select first second =
    let empty = record zero_state { assurance = nvram_reduced; active_slot = no_slot } in
    elim first [
      | none ↦ elim second [
        | none ↦ (ok, empty)
        | some (g, v) ↦ (ok, record empty { generation = g; version = v; active_slot = 1 })
      ]
      | some (g, v) ↦ elim second [
        | none ↦ (ok, record empty { generation = g; version = v; active_slot = 0 })
        | some (h, u) ↦
            (if g == h
              then (err ambiguous, empty)
              else if ltb g h
              then (ok, record empty { generation = h; version = u; active_slot = 1 })
              else (ok, record empty { generation = g; version = v; active_slot = 0 }))
      ]
    ]

abbrev pub decoded : List ℕ → Bool → Option (ℕ × ℕ)
decoded record_bytes present = if present then decode_record record_bytes else none

-- The callbacks of a valid controller.
pub data Backend (W : Type 0) : Type 0 where
  no_backend : Backend W
  tpm_backend : (W → Status × ℕ × W) → (W → ℕ → ℕ → View → Status × W) → Backend W
  nvram_backend : (W → ℕ → Status × List ℕ × Bool × W) → (W → ℕ → List ℕ → Status × W) → Backend W

-- The slot that the next record goes to.
abbrev pub inactive_slot : State → ℕ
inactive_slot current =
    if current.active_slot == no_slot
    then 0
    else if current.active_slot % 2 == 0
    then current.active_slot + 1
    else current.active_slot - 1

module _ {W : Type 0} where
  abbrev zero_controller : AntiRollback W
  zero_controller = record {
    assurance = invalid;
    tpm_read = none;
    tpm_advance = none;
    slot_read = none;
    slot_write = none;
  }

  -- `pbns_anti_rollback_init_tpm`
  unfoldable pub init_tpm :
      Option (W → Status × ℕ × W) → Option (W → ℕ → ℕ → View → Status × W) → Status × AntiRollback W
  init_tpm (some read) (some advance) = (
    ok,
    record zero_controller { assurance = tpm; tpm_read = some read; tpm_advance = some advance },
  )
  init_tpm read advance = (err argument, zero_controller)

  -- `pbns_anti_rollback_init_nvram`
  unfoldable pub init_nvram :
      Option (W → ℕ → Status × List ℕ × Bool × W)
      → Option (W → ℕ → List ℕ → Status × W)
      → Status × AntiRollback W
  init_nvram (some read) (some write) = (
    ok,
    record zero_controller {
      assurance = nvram_reduced;
      slot_read = some read;
      slot_write = some write;
    },
  )
  init_nvram read write = (err argument, zero_controller)

  -- `read_nvram`: the status, the state and the world.
  unfoldable pub read_nvram : (W → ℕ → Status × List ℕ × Bool × W) → W → Status × State × W
  read_nvram slot_read w =
      let (status, first, present, u) = slot_read w 0 in
      let (status', second, present', v) = slot_read u 1 in
      let (selected, found) = select (decoded first present) (decoded second present') in
      elim status [
        | err e ↦ (err e, zero_state, u)
        | ok ↦ elim status' [ err e ↦ (err e, zero_state, v) | ok ↦ (selected, found, v) ]
      ]

  -- `controller_valid`: the callbacks that a valid controller calls, those of its assurance, when
  -- the others are NULL.
  unfoldable pub backend :
      Assurance
      → Option (W → Status × ℕ × W)
      → Option (W → ℕ → ℕ → View → Status × W)
      → Option (W → ℕ → Status × List ℕ × Bool × W)
      → Option (W → ℕ → List ℕ → Status × W)
      → Backend W
  backend tpm (some read) (some advance) none none = tpm_backend read advance
  backend nvram_reduced none none (some read) (some write) = nvram_backend read write
  backend assurance tpm_read tpm_advance slot_read slot_write = no_backend

  abbrev pub backend_of : AntiRollback W → Backend W
  backend_of c = backend c.assurance c.tpm_read c.tpm_advance c.slot_read c.slot_write

  unfoldable pub read_backend : Backend W → W → Status × State × W
  read_backend no_backend w = (err argument, zero_state, w)
  read_backend (tpm_backend tpm_read tpm_advance) w =
      let (status, version, u) = tpm_read w in
      elim status [
        | err e ↦ (err e, zero_state, u)
        | ok ↦
            (ok, record zero_state { version = version; active_slot = no_slot; assurance = tpm }, u)
      ]
  read_backend (nvram_backend slot_read slot_write) w = read_nvram slot_read w

  -- `pbns_anti_rollback_read`; the pointer is `state`.
  unfoldable pub read : AntiRollback W → Pointer → W → Status × State × W
  read c null w = (err argument, zero_state, w)
  read c given w = read_backend (backend_of c) w

  -- The write of the new version, and the generation that the new state must have.
  unfoldable pub write_backend : Backend W → State → ℕ → View → W → Status × W
  write_backend no_backend current target authorization w = (err argument, w)
  write_backend (tpm_backend tpm_read tpm_advance) current target authorization w =
      if length authorization.bytes == 0
      then (err argument, w)
      else tpm_advance w current.version target authorization
  write_backend (nvram_backend slot_read slot_write) current target authorization w =
      if not (length authorization.bytes == 0)
      then (err argument, w)
      else if current.generation == uint64_max
      then (err limit, w)
      else slot_write w (inactive_slot current) (encode_record (current.generation + 1) target)

  abbrev pub is_nvram : Backend W → Bool
  is_nvram no_backend = false
  is_nvram (tpm_backend _ _) = false
  is_nvram (nvram_backend _ _) = true

  abbrev pub is_none : Backend W → Bool
  is_none no_backend = true
  is_none (tpm_backend _ _) = false
  is_none (nvram_backend _ _) = false

  -- The last part of `advance`: what was written is read back.
  unfoldable pub verify : Backend W → State → ℕ → W → Status × State × W
  verify b current target w =
      let (status, verified, u) = read_backend b w in
      elim status [
        | err e ↦ (err e, zero_state, u)
        | ok ↦
            (if not (verified.version == target)
                || is_nvram b && not (verified.generation == (current.generation + 1) % 2 ^ 64)
              then (err Error.state, zero_state, u)
              else (ok, verified, u))
      ]

  unfoldable pub advance_from : Backend W → State → ℕ → View → W → Status × State × W
  advance_from b current target authorization w =
      let (status, u) = write_backend b current target authorization w in
      let checked = verify b current target u in
      if leb target current.version
      then (err replay, zero_state, w)
      else elim status [ ok ↦ checked | err e ↦ (err e, zero_state, u) ]

  -- `pbns_anti_rollback_advance`; the pointer is `state`.
  unfoldable pub advance : AntiRollback W → ℕ → View → Pointer → W → Status × State × W
  advance c target authorization out w =
      let b = backend_of c in
      let (status, current, u) = read_backend b w in
      let advanced = advance_from b current target authorization u in
      if is_none b
        || not (view_is_valid authorization)
        || is_null out
        || target == 0
        || ltb authorization_max_size (length authorization.bytes)
      then (err argument, zero_state, w)
      else elim status [ ok ↦ advanced | err e ↦ (err e, zero_state, u) ]
