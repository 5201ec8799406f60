-- ===== src/Session/Broker/Types.antt =====
-- include/pbns/broker.h, include/pbns/transport.h: the broker and what it works with. The
-- transport, the platform and the CBOR library are parameters that act on a world of any type.
use pbns.Common.{ℕ, Bool, false, Option, List, replicate, Status, ok, err}
use pbns.Common.Memory.{View, Buffer, null_buffer, null_view}
use pbns.Common.Actions.{Action, gets, change, returns, fails, answer}
use pbns.Wire.Frame.{Frame, FrameLimits, zero_frame, request_id_size}
use pbns.Wire.RecordReader.{Reader, zero_reader}
use pbns.Session.Stream.{Stream, zero_stream}

-- What `receive` returns; `bytes` are those of the whole buffer afterwards.
pub record Received (W : Type 0) : Type 0 where
  pub status : Status
  pub received : ℕ
  pub bytes : List ℕ
  pub world : W

-- `pbns_transport_ops`
pub record Transport (W : Type 0) : Type 0 where
  pub open_link : W → Status × W
  pub close_link : W → Status × W
  pub send : W → List ℕ → ℕ → Status × W
  pub receive : W → Buffer → ℕ → Received W
  pub cancel_request : W → List ℕ → Status × W
  pub limits : W → Status × FrameLimits × W

-- `pbns_broker_platform_ops`; `random` fills a request id.
pub record Platform (W : Type 0) : Type 0 where
  pub random : W → Status × List ℕ × W
  pub monotonic_ms : W → Status × ℕ × W

-- An item of a CBOR text, as far as the broker looks at it. Integers have two kinds, as in QCBOR.
pub data ItemValue : Type 0 where
  map_of : ℕ → ItemValue
  int64 : ℕ → ItemValue
  negative : ItemValue
  uint64 : ℕ → ItemValue
  text_string : List ℕ → ItemValue
  other_value : ItemValue

pub data ItemLabel : Type 0 where
  no_label other_label : ItemLabel
  int_label : ℕ → ItemLabel

pub record Item : Type 0 where
  pub value : ItemValue
  pub label : ItemLabel
  pub nesting : ℕ

-- What is used of QCBOR: the item that a decoder gives after so many items, whether it may finish
-- there, and the canonical map of an error, with its length and the storage that it is written to.
pub record ErrorCodec : Type 0 where
  pub next_item : List ℕ → ℕ → Option Item
  pub finished : List ℕ → ℕ → Bool
  pub encode_error : ℕ → ℕ → List ℕ → List ℕ → Option ℕ × List ℕ

-- `pbns_broker_storage`
pub record BrokerStorage : Type 0 where
  pub encoded : Buffer
  pub raw_scratch : Buffer
  pub receive : Buffer
  pub decoded : Buffer

-- `pbns_broker_response`
pub record Response : Type 0 where
  pub frame : Frame
  pub payload : View

abbrev pub zero_response : Response
zero_response = record { frame = zero_frame; payload = null_view }

-- `pbns_broker`. The storage of the reader is the encoded buffer: `init` gives the reader the same
-- pointer, and the length of the encoded buffer itself is never anything but 0.
pub record Broker : Type 0 where
  pub raw_scratch : Buffer
  pub receive : Buffer
  pub decoded : Buffer
  pub reader : Reader
  pub stream : Stream
  pub limits : FrameLimits
  pub request_id : List ℕ
  pub service : ℕ
  pub deadline_ms : ℕ
  pub receive_offset : ℕ
  pub receive_length : ℕ
  pub bulk_exact_data_size : ℕ
  pub bulk_received_data_size : ℕ
  pub bulk_next_ack_sequence : ℕ
  pub upload_next_sequence : ℕ
  pub initialized : Bool
  pub opened : Bool
  pub active : Bool
  pub deadline_active : Bool
  pub bulk_mode : Bool
  pub bulk_failed : Bool
  pub upload_mode : Bool
  pub upload_response_received : Bool

abbrev pub zero_request_id : List ℕ
zero_request_id = replicate request_id_size 0

abbrev pub zero_broker : Broker
zero_broker = record {
  raw_scratch = null_buffer;
  receive = null_buffer;
  decoded = null_buffer;
  reader = zero_reader;
  stream = zero_stream;
  limits = record { control_payload_max = 0; data_payload_max = 0; encoded_record_max = 0 };
  request_id = zero_request_id;
  service = 0;
  deadline_ms = 0;
  receive_offset = 0;
  receive_length = 0;
  bulk_exact_data_size = 0;
  bulk_received_data_size = 0;
  bulk_next_ack_sequence = 0;
  upload_next_sequence = 0;
  initialized = false;
  opened = false;
  active = false;
  deadline_active = false;
  bulk_mode = false;
  bulk_failed = false;
  upload_mode = false;
  upload_response_received = false;
}

-- A broker and the world that its transport and its platform act on.
pub record Live (W : Type 0) : Type 0 where
  pub broker : Broker
  pub world : W

-- An action of the broker.
abbrev pub Task : Type 0 → Type 0 → Type 0
Task W A = Action (Live W) A

module _ {W : Type 0} where
  unfoldable pub the_broker : Action (Live W) Broker
  the_broker = gets λ s. s.broker

  unfoldable pub update : (Broker → Broker) → Action (Live W) Unit
  update f = change λ s. record s { broker = f s.broker }

  -- A call of the world.
  unfoldable pub call : (W → Status × W) → Action (Live W) Unit
  call f s = let (status, w) = f s.world in (answer status, record s { world = w })

  -- A call of the world with a result.
  unfoldable pub call_for : {A : Type 0} → (W → Status × A × W) → Action (Live W) A
  call_for f s =
      let (status, a, w) = f s.world in
      (elim status [ ok ↦ returns a | err e ↦ fails e ], record s { world = w })
