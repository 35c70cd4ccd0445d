-- ===== src/Controller.antt =====
-- `Controller` of radio_server/controller/engine.py, with the `Dispatcher` of services/dispatch.py that
-- its gate calls: DTMF entries through the login gate, the commands they run, and the station ID of
-- each over. Times are ticks of the injected clock, which stands still during one call. `entries` are
-- what the DTMF input pumped out of a frame. The texts of errors are left out of events; a service
-- renders its audio from the session and does not raise; `on_link` is wired and returns.
pub mod State
pub mod Command
pub mod Step
pub mod Keys
pub mod Ledger
pub mod Lost
mod Examples
