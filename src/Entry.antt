-- ===== src/Entry.antt =====
-- `DtmfFramer` of radio_server/audio/dtmf.py: keys into entries. A key is the code of its character,
-- and a time is the clock's reading in ticks; a clock that runs backwards is taken to stand still.
pub mod Framing
pub mod Polling
pub mod Windows
mod Examples
use radio_server.Base.{
  ℕ, ◌-◌, Bool, true, false, ◌&&◌, not, List, [], ◌∷◌, ◌++◌, Option, none, some, leb, ◌==◌,
  if◌then◌else◌,
}

-- CLEAR, SUBMIT
abbrev pub clear_key : ℕ
clear_key = b'*'

abbrev pub submit_key : ℕ
submit_key = b'#'

pub record DtmfFramer : Type 0 where
  pub buffer : List ℕ
  pub last_at : Option ℕ

abbrev pub new : DtmfFramer
new = record { buffer = []; last_at = none }

abbrev pub is_empty : List ℕ → Bool
is_empty [] = true
is_empty (d ∷ ds) = false

abbrev pub gap_reached : ℕ → ℕ → Option ℕ → Bool
gap_reached timeout now none = false
gap_reached timeout now (some t) = leb timeout (now - t)

module _ (timeout : ℕ) where
  -- `_expire`
  unfoldable pub expire : ℕ → DtmfFramer → DtmfFramer
  expire now s =
      if not (is_empty s.buffer) && gap_reached timeout now s.last_at
      then record s { buffer = [] }
      else s

  abbrev pub handle : ℕ → DtmfFramer → Option (List ℕ) × DtmfFramer
  handle digit s =
      if digit == clear_key
      then (none, record s { buffer = [] })
      else if digit == submit_key
      then (if is_empty s.buffer then (none, s) else (some s.buffer, record s { buffer = [] }))
      else (none, record s { buffer = s.buffer ++ (digit ∷ []) })

  unfoldable pub feed : ℕ → ℕ → DtmfFramer → Option (List ℕ) × DtmfFramer
  feed digit now s = handle digit (record (expire now s) { last_at = some now })

  unfoldable pub tick : ℕ → DtmfFramer → DtmfFramer
  tick now s = expire now s
