-- ===== src/Tx/Slot.antt =====
-- `TxSlot` of radio_server/tx/session.py: the slot of the one talker. The clock's reading is `now`,
-- and the refusals are an association list by label.
pub mod Exclusion
mod Examples
use radio_server.Base.{
  ℕ, ◌+◌, ◌-◌, String, str_eq, Bool, true, false, List, [], ◌∷◌, Option, none, some, if◌then◌else◌,
}

pub record TxSlot : Type 0 where
  pub is_occupied : Bool
  pub holder : Option String
  pub acquired_at : Option ℕ
  pub refused : List (String × ℕ)

abbrev pub new : TxSlot
new = record { is_occupied = false; holder = none; acquired_at = none; refused = [] }

-- `holder or "unknown"`, for which the empty label is no label.
abbrev pub label : Option String → String
label none = "unknown"
label (some h) = if str_eq h "" then "unknown" else h

-- `refused.get(h, 0)`
unfoldable pub count_of : String → List (String × ℕ) → ℕ
count_of h [] = 0
count_of h ((k, n) ∷ ks) = let rest = count_of h ks in if str_eq h k then n else rest

-- `refused[h] = refused.get(h, 0) + 1`
unfoldable pub count_up : String → List (String × ℕ) → List (String × ℕ)
count_up h [] = (h, 1) ∷ []
count_up h ((k, n) ∷ ks) =
    let rest = count_up h ks in if str_eq h k then (k, n + 1) ∷ ks else (k, n) ∷ rest

unfoldable pub try_acquire : Option String → ℕ → TxSlot → Bool × TxSlot
try_acquire holder now s =
    if s.is_occupied
    then (false, record s { refused = count_up (label holder) s.refused })
    else (true, record s { is_occupied = true; holder = holder; acquired_at = some now })

unfoldable pub release : TxSlot → TxSlot
release s = record s { is_occupied = false; holder = none; acquired_at = none }

abbrev pub since : ℕ → Option ℕ → Option ℕ
since now none = none
since now (some t) = some (now - t)

-- For a clock that does not run backwards.
unfoldable pub held_s : ℕ → TxSlot → Option ℕ
held_s now s = since now s.acquired_at
