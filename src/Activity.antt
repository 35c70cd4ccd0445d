-- ===== src/Activity.antt =====
-- radio_server/activity: whether the receiver hears something.
pub mod Level
pub mod Polled
mod Examples
