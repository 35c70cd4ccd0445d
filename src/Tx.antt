-- ===== src/Tx.antt =====
-- radio_server/tx: what keys the transmitter.
pub mod Tot
pub mod Session
pub mod Slot
mod Examples
