-- ===== src/Wire/RecordReader.antt =====
-- src/core/record_reader.c: collects the bytes of one COBS record up to its zero byte.
pub mod Chunks
pub mod Records
use pbns.Common.{
  ℕ, ◌+◌, Bool, true, false, not, ◌&&◌, ◌||◌, Option, none, some, List, [], ◌∷◌, leb, ◌==◌,
  if◌then◌else◌, length, set, take, Status, ok, err, argument, limit, format, state, would_block,
}
use pbns.Common.Memory.{
  View, Buffer, Pointer, is_null, null_view, null_buffer, view_is_valid, buffer_is_valid,
  ranges_overlap,
}

-- `pbns_record_reader`
pub record Reader : Type 0 where
  pub storage : Buffer
  pub initialized : Bool
  pub discarding : Bool
  pub ready : Bool
  pub failed : Bool

abbrev pub zero_reader : Reader
zero_reader = record {
  storage = null_buffer;
  initialized = false;
  discarding = false;
  ready = false;
  failed = false;
}

-- `pbns_record_reader_init` on a reader that is not at NULL.
unfoldable pub init : Buffer → Reader
init storage =
    if not (buffer_is_valid storage)
    then zero_reader
    else record zero_reader { storage = storage; initialized = true }

-- `pbns_record_reader_reset`
unfoldable pub reset : Reader → Reader
reset r = if not r.initialized then r else record r {
  storage = record r.storage { len = 0 };
  discarding = false;
  ready = false;
  failed = false;
}

-- What `push` leaves behind: the reader and the three results.
pub record Pushed : Type 0 where
  pub status : Status
  pub reader : Reader
  pub consumed : ℕ
  pub record_ready : Bool
  pub cobs_record : View

abbrev pub stopped : Status → Reader → ℕ → Pushed
stopped s r consumed = record {
  status = s;
  reader = r;
  consumed = consumed;
  record_ready = false;
  cobs_record = null_view;
}

-- `reader->storage.ptr[reader->storage.len] = octet; ++reader->storage.len;`
abbrev pub store : Reader → ℕ → Reader
store r octet = record r {
  storage = record r.storage {
    len = r.storage.len + 1;
    bytes = set r.storage.bytes r.storage.len octet;
  };
}

-- The view of the record collected so far.
abbrev pub collected : Reader → View
collected r = record { ptr = r.storage.ptr; bytes = take r.storage.len r.storage.bytes }

-- The `for` loop of `pbns_record_reader_push`, and the return behind it.
unfoldable pub push_loop : List ℕ → ℕ → Reader → Pushed
push_loop [] index r = stopped (err would_block) r index
push_loop (octet ∷ rest) index r =
    let skipped = push_loop rest (index + 1) r in
    let overflowed = push_loop rest (index + 1) (record r { discarding = true }) in
    let stored = push_loop rest (index + 1) (store r octet) in
    if r.discarding
    then (if octet == 0
        then stopped (err limit) (record r { failed = true }) (index + 1)
        else skipped)
    else if octet == 0
    then (if r.storage.len == 0
        then stopped (err format) (record r { failed = true }) (index + 1)
        else record {
          status = ok;
          reader = record r { ready = true };
          consumed = index + 1;
          record_ready = true;
          cobs_record = collected r;
        })
    else if leb (length r.storage.bytes) r.storage.len
    then overflowed
    else stored

-- `pbns_record_reader_push` on a reader that is not at NULL; the pointers are those of the three
-- results.
unfoldable pub push : Reader → View → Pointer → Pointer → Pointer → Pushed
push r input consumed record_ready cobs_record =
    if is_null consumed || is_null record_ready || is_null cobs_record || not (view_is_valid input)
    then stopped (err argument) r 0
    else if not r.initialized || r.ready || r.failed
    then stopped (err state) r 0
    else if ranges_overlap input.ptr (length input.bytes) r.storage.ptr (length r.storage.bytes)
    then stopped (err argument) r 0
    else push_loop input.bytes 0 r
