-- ===== src/Session.antt =====
-- src/core/stream.c and src/core/launcher.c: the frames of one request, and the start of a system.
pub mod Stream
pub mod Broker
pub mod Launcher
