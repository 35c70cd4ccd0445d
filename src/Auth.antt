-- ===== src/Auth.antt =====
-- radio_server/auth: the over-the-air login.
pub mod Totp
pub mod Gate
mod Examples
