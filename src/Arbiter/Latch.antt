-- ===== src/Arbiter/Latch.antt =====
-- What `acquire_tx` and `release_tx` of radio_server/arbiter/state.py do to the two latches.
use radio_server.Base.{true, false, ◌≡◌, none, some, arith}
use radio_server.Arbiter.{RadioArbiter, mode, eq_mode, acquire_tx, release_tx}

module _ (a : RadioArbiter) where
  pub release_latch :
      ((release_tx a).is_transmitting ≡ false) × ((release_tx a).is_receiving ≡ a.is_receiving)
  unfolding release_tx mode eq_mode
  release_latch = (ground arith, ground arith)

  pub acquire_latch :
      (b : RadioArbiter)
      → acquire_tx a ≡ some b
      → (a.is_transmitting ≡ false) × (b.is_transmitting ≡ true) × (b.is_receiving ≡ a.is_receiving)
  unfolding acquire_tx mode eq_mode
  acquire_latch b e = ground arith

  pub acquire_refused : acquire_tx a ≡ none → a.is_transmitting ≡ true
  unfolding acquire_tx
  acquire_refused e = ground arith
