-- ===== src/Uvk5/Message/Broadcast/Mirror.antt =====
-- What the three 0x0879 classes of radio_server/backends/uvk5/frames.py can say.
use mathlib.Core.Option.{none-ne-some}
use radio_server.Base.{
  ℕ, ◌%◌, ◌≤◌, ◌<◌, true, ◌&&◌, ◌≡◌, List, [], ◌∷◌, Option, none, some, leb, arith,
}
use radio_server.Base.Struct
use radio_server.Base.Struct.{Bytes, unpack-pack}
use radio_server.Uvk5.Message.Broadcast.{
  broadcast_fm_format, clear_broadcast_fm_pack, probe_broadcast_fm_pack, Action, turn_on, tune,
  other_word, action_of, SetBroadcastFm, is_on_raster, is_action, set_broadcast_fm_checks,
  set_broadcast_fm_values, set_broadcast_fm_pack,
}

-- What the radio reads of a 0x0879.
abbrev pub reads : Bytes → Option (List ℕ)
reads params = Struct.unpack broadcast_fm_format params

-- ON or TUNE to a station of the raster, in one of the four bands.
abbrev pub IsTune : Option (List ℕ) → Type 0
IsTune o =
    (action hz band : ℕ) × (o ≡ some (action ∷ hz ∷ band ∷ []))
    × (1 ≤ action)
    × (action ≤ 2)
    × (0 < hz)
    × (hz % 100000 ≡ 0)
    × (band ≤ 3)

values-IsTune :
    (action hz band : ℕ) (params : Bytes)
    → 1 ≤ action
    → action ≤ 2
    → (is_on_raster (some hz) && leb band 3) ≡ true
    → Struct.pack broadcast_fm_format (action ∷ hz ∷ band ∷ []) ≡ some params
    → IsTune (reads params)
values-IsTune action hz band params low high checks e = (
  action,
  hz,
  band,
  unpack-pack broadcast_fm_format (action ∷ hz ∷ band ∷ []) params e,
  low,
  high,
  ground arith,
  ground arith,
  ground arith,
)

set_values-IsTune :
    (action : Action) (hz : Option ℕ) (band : ℕ) (params : Bytes)
    → (is_action action && (is_on_raster hz && leb band 3)) ≡ true
    → set_broadcast_fm_values (action_of action) hz band ≡ some params
    → IsTune (reads params)
set_values-IsTune turn_on (some hz) band params checks e =
    values-IsTune 1 hz band params (omega arith) (omega arith) checks e
set_values-IsTune tune (some hz) band params checks e =
    values-IsTune 2 hz band params (omega arith) (omega arith) checks e
set_values-IsTune turn_on none band params checks e = absurd (none-ne-some params e)
set_values-IsTune tune none band params checks e = absurd (none-ne-some params e)
set_values-IsTune other_word none band params checks e = absurd (none-ne-some params e)
set_values-IsTune other_word (some hz) band params checks e = absurd (none-ne-some params e)

-- A SetBroadcastFm that its checks let through can only start or move the receiver, to a station of the
-- raster; ClearBroadcastFm can only stop it, and ProbeBroadcastFm names no station.
pub broadcast_fm_mirror :
    (m : SetBroadcastFm) (params : Bytes)
    → set_broadcast_fm_checks m ≡ true
    → set_broadcast_fm_pack m ≡ some params
    → (cleared probed : Bytes) → clear_broadcast_fm_pack ≡ some cleared
    → probe_broadcast_fm_pack ≡ some probed
    → IsTune (reads params)
      × (reads cleared ≡ some (0 ∷ 0 ∷ 0 ∷ []))
      × (reads probed ≡ some (2 ∷ 0 ∷ 0 ∷ []))
unfolding set_broadcast_fm_checks set_broadcast_fm_pack clear_broadcast_fm_pack
    probe_broadcast_fm_pack
broadcast_fm_mirror m params checks e cleared probed ec ep = (
  set_values-IsTune m.action m.hz m.band params checks e,
  unpack-pack broadcast_fm_format (0 ∷ 0 ∷ 0 ∷ []) cleared ec,
  unpack-pack broadcast_fm_format (2 ∷ 0 ∷ 0 ∷ []) probed ep,
)
