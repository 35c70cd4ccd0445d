-- ===== src/Vocoder.antt =====
-- radio_server/vocoder: the wire of the DV Dongle.
pub mod Frame
