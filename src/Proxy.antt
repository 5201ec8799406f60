-- ===== src/Proxy.antt =====
-- pico/src: the proxy that stands between the wire and the broker.
pub mod ByteRing
pub mod BytePump
pub mod ProvisionGate
