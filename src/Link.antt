-- ===== src/Link.antt =====
-- radio_server/link: the relay to the voice server.
pub mod Mute
