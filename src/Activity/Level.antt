-- ===== src/Activity/Level.antt =====
-- `AudioLevelGate` of radio_server/activity/gate.py. A frame is its level, which `frame_rms` computes
-- of its samples, and the time it came at, in ticks of the injected clock.
pub mod Hysteresis
use radio_server.Base.{
  ℕ, ◌+◌, Bool, true, false, ◌&&◌, List, [], ◌∷◌, Option, none, some, leb, ltb, if◌then◌else◌,
}

pub record AudioLevelGate : Type 0 where
  pub on_threshold : ℕ
  pub off_threshold : ℕ
  pub hang : ℕ
  pub is_open : Bool
  pub active_until : Option ℕ

-- `__init__`: `none` is the ValueError.
unfoldable pub new : ℕ → ℕ → ℕ → Option AudioLevelGate
new on off hang =
    if leb on off
    then none
    else some (record {
      on_threshold = on;
      off_threshold = off;
      hang = hang;
      is_open = false;
      active_until = none;
    })

abbrev pub hangs : ℕ → Option ℕ → Bool
hangs now none = false
hangs now (some t) = ltb now t

-- `__call__`
unfoldable pub call : ℕ → ℕ → AudioLevelGate → Bool × AudioLevelGate
call level now g =
    if leb (if g.is_open then g.off_threshold else g.on_threshold) level
    then (true, record g { is_open = true; active_until = some (now + g.hang) })
    else if g.is_open && hangs now g.active_until
    then (true, g)
    else (false, record g { is_open = false; active_until = none })
