-- ===== src/Wire.antt =====
-- The record layer: COBS, CRC-32C, frames and the record reader.
pub mod Cobs
pub mod Crc32c
pub mod Frame
pub mod RecordReader
