-- ===== src/Kv4p.antt =====
-- radio_server/backends/kv4p: the serial radio's wire.
pub mod Kiss
pub mod Frame
pub mod Structs
pub mod Encoder
pub mod Pacer
mod Examples
