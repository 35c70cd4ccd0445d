-- ===== src/Activity/Polled.antt =====
-- `PolledGate` of radio_server/activity/gate.py: the inner gate runs on a thread of its own, and a
-- call answers what it said last. `none` is an inner gate that raises; `warnings` and `recoveries`
-- count the log lines at the edges. Starting and joining the thread is not modelled.
pub mod Edges
use radio_server.Base.{ℕ, ◌+◌, Bool, true, false, not, Option, none, some, if◌then◌else◌}

pub record PolledGate : Type 0 where
  pub busy : Bool
  pub failing : Bool
  pub warnings : ℕ
  pub recoveries : ℕ

abbrev pub new : PolledGate
new = record { busy = false; failing = false; warnings = 0; recoveries = 0 }

-- `_poll_once`
unfoldable pub poll_once : Option Bool → PolledGate → PolledGate
poll_once none g = record g {
  busy = false;
  failing = true;
  warnings = if g.failing then g.warnings else g.warnings + 1;
}
poll_once (some b) g = record g {
  busy = b;
  failing = false;
  recoveries = if g.failing then g.recoveries + 1 else g.recoveries;
}

-- `__call__`
unfoldable pub call : PolledGate → Bool
call g = g.busy
