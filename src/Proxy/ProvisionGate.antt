-- ===== src/Proxy/ProvisionGate.antt =====
-- pico/src/provision_gate.c: the button that has to be held to provision the proxy, and the session
-- that is opened then. The objects are not at NULL.
pub mod Holding
use pbns.Common.{
  ℕ, ◌+◌, ◌-◌, ◌%◌, ◌^◌, Bool, true, false, not, ◌&&◌, ◌||◌, ltb, leb, ◌==◌, if◌then◌else◌, Status,
  ok, err, argument, would_block, state,
}
use pbns.Common.Memory.{Pointer, null, given, is_null}
use pbns.Common.Words.{uint64_max}

-- `PBNS_PROVISION_SAMPLE_INTERVAL_MS` and `PBNS_PROVISION_HOLD_MS`
abbrev pub sample_interval_ms : ℕ
sample_interval_ms = 50

abbrev pub hold_ms : ℕ
hold_ms = 2000

-- `pbns_provision_gate_state`
pub data GateState : Type 0 where
  idle press_pending latched : GateState

-- `pbns_provision_gate`
pub record Gate : Type 0 where
  pub state : GateState
  pub press_started_ms : ℕ
  pub last_sample_ms : ℕ
  pub next_sample_ms : ℕ
  pub has_sample : Bool
  pub initialized : Bool

abbrev pub is_latched_state : GateState → Bool
is_latched_state latched = true
is_latched_state _ = false

-- `next_sample_deadline`
unfoldable pub next_sample_deadline : ℕ → ℕ
next_sample_deadline now_ms =
    if ltb (uint64_max - sample_interval_ms) now_ms then uint64_max else now_ms + sample_interval_ms

-- `pbns_provision_gate_init`
abbrev pub init : Gate
init = record {
  state = idle;
  press_started_ms = 0;
  last_sample_ms = 0;
  next_sample_ms = 0;
  has_sample = false;
  initialized = true;
}

-- `pbns_provision_gate_sample_due`
unfoldable pub sample_due : Gate → ℕ → Bool
sample_due g now_ms =
    if not g.initialized || is_latched_state g.state
    then false
    else if not g.has_sample || ltb now_ms g.last_sample_ms
    then true
    else not (g.last_sample_ms == uint64_max) && leb g.next_sample_ms now_ms

-- What `observe` leaves behind.
pub record Observed : Type 0 where
  pub status : Status
  pub gate : Gate
  pub activated : Bool

abbrev stays : Status → Gate → Observed
stays status g = record { status = status; gate = g; activated = false }

-- The gate after a sample, before the button is looked at; a clock that goes back lets go of it.
unfoldable pub sampled : Gate → ℕ → Gate
sampled g now_ms =
    let back = g.has_sample && ltb now_ms g.last_sample_ms in
    record g {
      state = if back then idle else g.state;
      press_started_ms = if back then 0 else g.press_started_ms;
      has_sample = true;
      last_sample_ms = now_ms;
      next_sample_ms = next_sample_deadline now_ms;
    }

-- The button is pressed; the difference of the times is one of 64 bits.
unfoldable pub press : Gate → GateState → ℕ → Observed
press g idle now_ms = stays ok (record g { state = press_pending; press_started_ms = now_ms })
press g press_pending now_ms =
    if leb hold_ms ((now_ms + 2 ^ 64 - g.press_started_ms) % 2 ^ 64)
    then record { status = ok; gate = record g { state = latched }; activated = true }
    else stays ok g
press g latched now_ms = stays (err state) g

unfoldable pub take_sample : Gate → ℕ → Bool → Observed
unfolding sampled press
take_sample g now_ms pressed =
    let s = sampled g now_ms in
    if not pressed
    then stays ok (record s { state = idle; press_started_ms = 0 })
    else press s s.state now_ms

-- `pbns_provision_gate_observe`; the pointer is `activated`.
unfoldable pub observe : Gate → ℕ → Bool → Pointer → Observed
unfolding sample_due take_sample
observe g now_ms pressed activated =
    if not g.initialized || is_null activated
    then stays (err argument) g
    else if is_latched_state g.state
    then stays ok g
    else if not (sample_due g now_ms)
    then stays (err would_block) g
    else take_sample g now_ms pressed

-- `pbns_provision_gate_is_latched`
unfoldable pub is_latched : Gate → Bool
is_latched g = g.initialized && is_latched_state g.state

-- `pbns_provision_session_state`
pub data SessionState : Type 0 where
  inactive wait_disconnect wait_connect ready : SessionState

-- `pbns_provision_session`, and `pbns_provision_session_init`
pub record ProvisionSession : Type 0 where
  pub state : SessionState
  pub initialized : Bool

abbrev pub init_session : ProvisionSession
init_session = record { state = inactive; initialized = true }

-- `pbns_provision_session_activate`
unfoldable pub activate : ProvisionSession → Bool → Status × ProvisionSession
activate s connected =
    if not s.initialized
    then (err argument, s)
    else (ok, record s { state = if connected then wait_disconnect else wait_connect })

unfoldable pub connection : SessionState → Bool → Status × SessionState × Bool
connection inactive connected = (err state, inactive, false)
connection wait_disconnect connected =
    (ok, if connected then wait_disconnect else wait_connect, false)
connection wait_connect connected = (ok, if connected then ready else wait_connect, connected)
connection ready connected = (ok, if connected then ready else wait_connect, false)

-- `pbns_provision_session_observe`; the pointer is `opened`, and the last result what it points at.
unfoldable pub observe_session :
    ProvisionSession → Bool → Pointer → Status × ProvisionSession × Bool
unfolding connection
observe_session s connected opened =
    if not s.initialized || is_null opened
    then (err argument, s, false)
    else let (status, next, is_open) = connection s.state connected in
      (status, record s { state = next }, is_open)

-- `pbns_provision_session_is_ready`
unfoldable pub is_ready : ProvisionSession → Bool
is_ready s = s.initialized && elim s.state [
  | ready ↦ true
  | inactive ↦ false
  | wait_disconnect ↦ false
  | wait_connect ↦ false
]
