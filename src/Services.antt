-- ===== src/Services.antt =====
-- radio_server/services: what the station says over the air.
pub mod StationId
pub mod StreamingId
mod Examples
