-- ===== src/Tx/Tot/Race.antt =====
-- Two callers at once on one radio_server/tx/tot.py: `transmit` takes the lock twice, and another
-- thread's `ptt(True)` can come between.
use radio_server.Base.{ℕ, ◌<◌, true, false, ◌≡◌, List, some, none, arith}
use radio_server.Tx.Tot.{TotRadio, ptt, transmit_enter, transmit_exit, fire, send}

-- With the cap on, a `ptt(True)` that lands while a one-shot plays loses its watchdog when the
-- one-shot ends: the key is held, nothing is armed, and no timer that fires then drops it.
pub key_during_one_shot :
    (t : TotRadio) (audio : List ℕ) (k : ℕ)
    → 0 < t.tot
    → t.locked ≡ false
    → t.keyed ≡ false
    → let (r, entered) = transmit_enter t in
      let left = transmit_exit true (ptt true (send audio entered)) in
      (r ≡ some true) × (left.keyed ≡ true) × (left.token ≡ none) × (fire k left ≡ left)
unfolding transmit_enter ptt transmit_exit fire send
key_during_one_shot t audio k c l h = ground arith
