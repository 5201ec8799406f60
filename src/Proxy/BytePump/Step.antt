-- ===== src/Proxy/BytePump/Step.antt =====
-- pico/src/byte_pump.c: one step of the pump in both directions, and a batch of steps.
use pbns.Common.{
  ℕ, zero, suc, ◌+◌, Bool, true, false, not, ◌&&◌, ◌||◌, Option, some, ◌==◌, if◌then◌else◌, Status,
  ok, err, argument, state,
}
use pbns.Common.Memory.{Pointer, given}
use pbns.Proxy.BytePump.{
  BytePump, Direction, Endpoint, Moved, Policy, default_policy, is_complete, process_direction,
}

-- `PBNS_BYTE_PUMP_BATCH_MAX_STEPS`
abbrev pub batch_max_steps : ℕ
batch_max_steps = 8

abbrev pub usb_to_tls_direction : BytePump → Policy → Direction
usb_to_tls_direction pump policy = record {
  ring = pump.usb_to_tls;
  source_closed = pump.usb_source_closed;
  read_generation = pump.usb_to_tls_read_generation;
  write_generation = pump.usb_to_tls_write_generation;
  counted = true;
  minimum_write = policy.usb_to_tls_minimum_write;
  minimum_writable = 0;
  force_write = policy.force_usb_to_tls_write;
}

abbrev pub tls_to_usb_direction : BytePump → Policy → Direction
tls_to_usb_direction pump policy = record {
  ring = pump.tls_to_usb;
  source_closed = pump.tls_source_closed;
  read_generation = 0;
  write_generation = 0;
  counted = false;
  minimum_write = 0;
  minimum_writable = policy.tls_to_usb_minimum_writable;
  force_write = false;
}

-- What the pointers of a direction have written back into the pump.
abbrev pub store_usb_to_tls : BytePump → Direction → BytePump
store_usb_to_tls pump d = record pump {
  usb_to_tls = d.ring;
  usb_source_closed = d.source_closed;
  usb_to_tls_read_generation = d.read_generation;
  usb_to_tls_write_generation = d.write_generation;
}

abbrev pub store_tls_to_usb : BytePump → Direction → BytePump
store_tls_to_usb pump d = record pump { tls_to_usb = d.ring; tls_source_closed = d.source_closed }

-- `fail_pump`, on the pump that is left behind.
abbrev pub fail_pump : BytePump → BytePump
fail_pump pump = record pump { failed = true }

-- What a step or a batch returns and leaves behind; a single step has no count of steps.
pub record Stepped (W : Type 0) : Type 0 where
  pub status : Status
  pub pump : BytePump
  pub steps : ℕ
  pub made_progress : Bool
  pub world : W

-- The policy of the next step of a batch: the write is forced until one has been made.
abbrev pub next_policy : ℕ → Policy → BytePump → Policy
next_policy forced_write_generation policy pump =
    if policy.force_usb_to_tls_write
      && not (pump.usb_to_tls_write_generation == forced_write_generation)
    then record policy { force_usb_to_tls_write = false }
    else policy

module _ {W : Type 0} where
  abbrev pub refused : Status → BytePump → W → Stepped W
  refused status pump w = record {
    status = status;
    pump = pump;
    steps = 0;
    made_progress = false;
    world = w;
  }

  abbrev moved : Moved W → BytePump → Stepped W
  moved m pump = record {
    status = m.status;
    pump = pump;
    steps = 0;
    made_progress = m.made_progress;
    world = m.world;
  }

  -- Both directions of a step, the USB source first.
  unfoldable pub step_directions : Endpoint W → Endpoint W → Policy → BytePump → W → Stepped W
  step_directions usb tls policy pump w =
      let first = process_direction usb tls (usb_to_tls_direction pump policy) false w in
      let after = store_usb_to_tls pump first.direction in
      let second =
        process_direction tls usb (tls_to_usb_direction after policy) first.made_progress
          first.world in
      let last = store_tls_to_usb after second.direction in
      elim first.status [
        | err e ↦ moved first (fail_pump after)
        | ok ↦ elim second.status [ ok ↦ moved second last | err e ↦ moved second (fail_pump last) ]
      ]

  -- `pbns_byte_pump_step_with_policy` with endpoints and a policy that are given.
  unfoldable pub step : Endpoint W → Endpoint W → Policy → BytePump → W → Stepped W
  step usb tls policy pump w =
      if not pump.initialized || pump.cancelled || pump.failed
      then refused (err state) pump w
      else if is_complete pump
      then refused ok pump w
      else step_directions usb tls policy pump w

  -- `pbns_byte_pump_step_with_policy`; an endpoint is `none` when one of its operations is NULL, the
  -- policy when it is NULL, and the pointer is `made_progress`.
  unfoldable pub step_with_policy :
      BytePump → Option (Endpoint W) → Option (Endpoint W) → Option Policy → Pointer → W → Stepped W
  step_with_policy pump (some usb) (some tls) (some policy) given w = step usb tls policy pump w
  step_with_policy pump usb tls policy made_progress w = refused (err argument) pump w

  -- `pbns_byte_pump_step`
  unfoldable pub step_default :
      BytePump → Option (Endpoint W) → Option (Endpoint W) → Pointer → W → Stepped W
  step_default pump usb tls made_progress w =
      step_with_policy pump usb tls (some default_policy) made_progress w

  -- The loop of a batch, with the steps that are left and those that were made.
  unfoldable pub batch_loop :
      ℕ → Endpoint W → Endpoint W → ℕ → Policy → ℕ → Bool → BytePump → W → Stepped W
  batch_loop zero usb tls generation policy count progress pump w = record {
    status = ok;
    pump = pump;
    steps = count;
    made_progress = progress;
    world = w;
  }
  batch_loop (suc left) usb tls generation policy count progress pump w =
      let r = step usb tls policy pump w in
      let so_far = progress || r.made_progress in
      let next =
        batch_loop left usb tls generation (next_policy generation policy r.pump) (count + 1) so_far
          r.pump r.world in
      let here = record r { steps = count + 1; made_progress = so_far } in
      elim r.status [
        | err e ↦ here
        | ok ↦ (if not r.made_progress || is_complete r.pump then here else next)
      ]

  -- `pbns_byte_pump_batch_with_policy`; the pointers are `steps` and `made_progress`.
  unfoldable pub batch_with_policy :
      BytePump
      → Option (Endpoint W)
      → Option (Endpoint W)
      → Option Policy
      → Pointer
      → Pointer
      → W
      → Stepped W
  batch_with_policy pump (some usb) (some tls) (some policy) given given w =
      if not pump.initialized || pump.cancelled || pump.failed
      then refused (err state) pump w
      else batch_loop batch_max_steps usb tls pump.usb_to_tls_write_generation policy 0 false pump w
  batch_with_policy pump usb tls policy steps made_progress w = refused (err argument) pump w

  -- `pbns_byte_pump_batch`
  unfoldable pub batch :
      BytePump → Option (Endpoint W) → Option (Endpoint W) → Pointer → Pointer → W → Stepped W
  batch pump usb tls steps made_progress w =
      batch_with_policy pump usb tls (some default_policy) steps made_progress w
