-- ===== src/Uvk5/Message.antt =====
-- The message classes of radio_server/backends/uvk5/frames.py, and `parse_frame`.
pub mod Status
pub mod Command
pub mod Eeprom
pub mod Vfo
pub mod Modulation
pub mod Broadcast
pub mod Registers
pub mod Reply
pub mod Parse
pub mod RoundTrip
pub mod Stream
pub mod Dispatch
