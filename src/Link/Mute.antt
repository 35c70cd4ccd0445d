-- ===== src/Link/Mute.antt =====
-- `DtmfMuteGate` of radio_server/link/mute.py. Times are ticks of the injected clock.
pub mod Window
use radio_server.Base.{ℕ, ◌+◌, Bool, true, false, Option, none, some, ltb, if◌then◌else◌}

pub record DtmfMuteGate : Type 0 where
  pub muted_until : Option ℕ

abbrev pub new : DtmfMuteGate
new = record { muted_until = none }

abbrev pub later_of : ℕ → Option ℕ → ℕ
later_of until none = until
later_of until (some m) = if ltb m until then until else m

unfoldable pub mute_for : ℕ → ℕ → DtmfMuteGate → DtmfMuteGate
mute_for hold now g = record g { muted_until = some (later_of (now + hold) g.muted_until) }

-- `note_tone` and `note_digit`
unfoldable pub note_tone : ℕ → ℕ → DtmfMuteGate → DtmfMuteGate
note_tone hold now g = mute_for hold now g

abbrev pub before : ℕ → Option ℕ → Bool
before now none = false
before now (some m) = ltb now m

unfoldable pub muted : ℕ → DtmfMuteGate → Bool
muted now g = before now g.muted_until
