-- ===== src/Session/Broker.antt =====
-- src/core/broker.c: one request at a time over a transport.
pub mod Types
pub mod Utf8
pub mod Storage
pub mod Link
pub mod RemoteError
pub mod Receive
pub mod Bulk
pub mod Upload
pub mod Request
pub mod Sessions
pub mod Reading
pub mod Progress
pub mod Download
pub mod Named
pub mod Fresh
pub mod Padding
pub mod Answered
pub mod Answers
