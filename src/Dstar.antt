-- ===== src/Dstar.antt =====
-- radio_server/dstar: the wire codecs of the D-STAR gateway link.
pub mod Dsrp
pub mod Header
mod Examples
