-- ===== src/Wire/Frame/Types.antt =====
-- include/pbns/frame.h: frames, their limits and the constants of version 1.
use pbns.Common.{ℕ, Bool, ◌&&◌, List, [], ◌∷◌, leb, replicate}

-- `pbns_service_id` and `pbns_message_type` are C integers that a caller or a peer may set to any
-- value, so they stay codes.
abbrev pub trusted_time : ℕ
trusted_time = 1

abbrev pub recovery_artifact : ℕ
recovery_artifact = 2

abbrev pub enrollment : ℕ
enrollment = 4

abbrev pub request : ℕ
request = 1

abbrev pub response : ℕ
response = 2

abbrev pub data_record : ℕ
data_record = 3

abbrev pub ack : ℕ
ack = 4

abbrev pub error : ℕ
error = 5

abbrev pub cancel : ℕ
cancel = 6

abbrev pub complete : ℕ
complete = 7

abbrev pub protocol_version : ℕ
protocol_version = 1

abbrev pub header_size : ℕ
header_size = 36

abbrev pub trailer_size : ℕ
trailer_size = 4

abbrev pub control_payload_max : ℕ
control_payload_max = 65536

abbrev pub data_payload_max : ℕ
data_payload_max = 16384

abbrev pub wire_max : ℕ
wire_max = 65836

abbrev pub request_id_size : ℕ
request_id_size = 16

abbrev pub ack_payload_size : ℕ
ack_payload_size = 8

-- `pbns_frame`; `request_id` holds its 16 bytes.
pub record Frame : Type 0 where
  pub service : ℕ
  pub type : ℕ
  pub flags : ℕ
  pub request_id : List ℕ
  pub sequence : ℕ

pub record FrameLimits : Type 0 where
  pub control_payload_max : ℕ
  pub data_payload_max : ℕ
  pub encoded_record_max : ℕ

abbrev pub zero_frame : Frame
zero_frame = record {
  service = 0;
  type = 0;
  flags = 0;
  request_id = replicate request_id_size 0;
  sequence = 0;
}

-- "PBNS"
abbrev pub frame_magic : List ℕ
frame_magic = b'P' ∷ b'B' ∷ b'N' ∷ b'S' ∷ []

abbrev pub service_is_valid : ℕ → Bool
service_is_valid s = leb trusted_time s && leb s enrollment

abbrev pub message_type_is_valid : ℕ → Bool
message_type_is_valid t = leb request t && leb t complete
