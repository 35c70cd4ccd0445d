-- ===== src/Uvk5.antt =====
-- radio_server/backends/uvk5: the wire of the docked UV-K5.
pub mod Frame
pub mod Codec
pub mod Message
mod Examples
