-- ===== src/Common/Codes.antt =====
-- include/pbns/status.h: `pbns_status`, with the negative codes as the errors.

pub data Error : Type 0 where
  argument limit format crc version service message_type sequence state : Error
  would_block timeout transport crypto authentication replay unsupported : Error
  unimplemented entropy ambiguous resource io busy : Error

pub data Status : Type 0 where
  ok : Status
  err : Error → Status
