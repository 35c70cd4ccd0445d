-- ===== src/Uvk5/Message/Status.antt =====
-- The status bytes of the replies of radio_server/backends/uvk5/frames.py: `SetVfoStatus`,
-- `ModulationStatus` and `BroadcastFmStatus`.
use radio_server.Base.{ℕ, Bool, false, ◌||◌, List, [], ◌∷◌, ◌==◌, if◌then◌else◌}

-- A status byte: a member of its IntEnum, or the plain number of an unknown one.
pub data Status : Type 0 where
  member unknown : (n : ℕ) → Status

abbrev pub is_in : ℕ → List ℕ → Bool
is_in n [] = false
is_in n (m ∷ ms) = n == m || is_in n ms

abbrev pub status_of : List ℕ → ℕ → Status
status_of members n = if is_in n members then member n else unknown n

-- `int(status)`
abbrev pub number : Status → ℕ
number (member n) = n
number (unknown n) = n

-- `status is APPLIED`
abbrev pub is_applied : Status → Bool
is_applied (member n) = n == 0
is_applied (unknown n) = false
