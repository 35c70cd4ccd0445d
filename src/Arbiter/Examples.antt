-- ===== src/Arbiter/Examples.antt =====
-- The theorems about radio_server/arbiter/state.py at concrete inputs.
use radio_server.Base.{true, false, ◌≡◌, refl, List, [], ◌∷◌}
use radio_server.Arbiter.{
  receiving, transmitting, new, mode, acquire_tx, begin_receive, notify, eq_mode,
}
use radio_server.Arbiter.Run.{
  Op, acquire, begin_rx, run, owner, tx_held, rx_wanted, last_told, NoRepeat, mode-run, changes-run,
}

abbrev busy : List Op
busy = begin_rx ∷ acquire ∷ begin_rx ∷ acquire ∷ []

busy_changes : (run (new true) busy).changes ≡ transmitting ∷ receiving ∷ []
unfolding run acquire_tx begin_receive notify mode eq_mode
busy_changes = refl

mode-run_example : mode (run (new false) busy) ≡ owner (tx_held false busy) (rx_wanted false busy)
mode-run_example = mode-run (new false) busy

changes-run_example :
    (last_told (run (new true) busy).changes ≡ mode (run (new true) busy))
    × NoRepeat (run (new true) busy).changes
changes-run_example = changes-run busy
