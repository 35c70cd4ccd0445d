-- ===== src/Uvk5/Message/Modulation.antt =====
-- The set-modulation messages of radio_server/backends/uvk5/frames.py.
use radio_server.Base.{
  ℕ, ◌%◌, Bool, ◌||◌, List, [], ◌∷◌, Option, none, some, ◌==◌, if◌then◌else◌, String,
}
use radio_server.Uvk5.Codec.{Codec, fixed, checked}
use radio_server.Uvk5.Message.Status.{Status, status_of, number}

abbrev pub modulation_statuses : List ℕ
modulation_statuses = 0 ∷ 1 ∷ 2 ∷ 4 ∷ 5 ∷ []

pub record SetModulationReply : Type 0 where
  pub status : Status
  pub modulation : ℕ
  pub raw : ℕ
  pub flags : ℕ

unfoldable pub set_modulation_reply_of : List ℕ → Option SetModulationReply
set_modulation_reply_of (status ∷ modulation ∷ raw ∷ flags ∷ []) = some (record {
  status = status_of modulation_statuses status;
  modulation = modulation;
  raw = raw;
  flags = flags;
})
set_modulation_reply_of _ = none

abbrev pub set_modulation_reply : Codec SetModulationReply
set_modulation_reply =
    fixed 0x0878 (1 ∷ 1 ∷ 1 ∷ 1 ∷ []) (λ m. number m.status ∷ m.modulation ∷ m.raw ∷ m.flags ∷ [])
      set_modulation_reply_of

pub record SetModulation : Type 0 where
  pub modulation : ℕ

-- `__post_init__`
unfoldable pub set_modulation_checks : SetModulation → Bool
set_modulation_checks m = m.modulation == 0 || m.modulation == 1

unfoldable pub set_modulation_of : List ℕ → Option SetModulation
set_modulation_of (modulation ∷ []) =
    checked set_modulation_checks (record { modulation = modulation })
set_modulation_of _ = none

abbrev pub set_modulation : Codec SetModulation
set_modulation = fixed 0x0877 (1 ∷ []) (λ m. m.modulation ∷ []) set_modulation_of

-- MODULATION_NAMES
abbrev pub modulation_names : List (ℕ × String)
modulation_names = (0, "FM") ∷ (1, "AM") ∷ []

abbrev pub name_of : List (ℕ × String) → ℕ → Option String
name_of [] n = none
name_of ((m, s) ∷ names) n = if n == m then some s else name_of names n

-- `SetModulationReply.name`
unfoldable pub name : SetModulationReply → Option String
name m = name_of modulation_names m.modulation

-- `tx_ok`: FLAG_TX_OK is bit 0.
unfoldable pub tx_ok : SetModulationReply → Bool
tx_ok m = m.flags % 2 == 1
