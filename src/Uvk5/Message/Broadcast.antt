-- ===== src/Uvk5/Message/Broadcast.antt =====
-- The broadcast-FM messages of radio_server/backends/uvk5/frames.py.
pub mod Mirror
use radio_server.Base.{
  ℕ, ◌/◌, ◌%◌, Bool, true, false, not, ◌&&◌, List, [], ◌∷◌, Option, none, some, leb, ◌==◌,
  if◌then◌else◌,
}
use radio_server.Base.Struct
use radio_server.Base.Struct.{Bytes, pack_bytes, unpack_from}
use radio_server.Uvk5.Codec.{Codec, fixed}
use radio_server.Uvk5.Message.Status.{Status, status_of, number}

abbrev pub broadcast_fm_statuses : List ℕ
broadcast_fm_statuses = 0 ∷ 1 ∷ 2 ∷ 4 ∷ 5 ∷ 6 ∷ 8 ∷ 9 ∷ []

pub record BroadcastFmReply : Type 0 where
  pub status : Status
  pub state : ℕ
  pub raw_hz : ℕ
  pub raw_band : ℕ
  pub flags : ℕ

unfoldable pub broadcast_fm_reply_of : List ℕ → Option BroadcastFmReply
broadcast_fm_reply_of (status ∷ state ∷ raw_hz ∷ raw_band ∷ flags ∷ []) = some (record {
  status = status_of broadcast_fm_statuses status;
  state = state;
  raw_hz = raw_hz;
  raw_band = raw_band;
  flags = flags;
})
broadcast_fm_reply_of _ = none

abbrev pub broadcast_fm_reply : Codec BroadcastFmReply
broadcast_fm_reply =
    fixed 0x087A (1 ∷ 1 ∷ 4 ∷ 1 ∷ 1 ∷ [])
      (λ m. number m.status ∷ m.state ∷ m.raw_hz ∷ m.raw_band ∷ m.flags ∷ []) broadcast_fm_reply_of

-- `on`, `band` and `hz`: `none` is the blanking sentinel.
unfoldable pub on : BroadcastFmReply → Option Bool
on m = if m.state == 0xFF then none else some (not (m.state == 0))

unfoldable pub band : BroadcastFmReply → Option ℕ
band m = if m.raw_band == 0xFF then none else some m.raw_band

unfoldable pub hz : BroadcastFmReply → Option ℕ
hz m = if m.raw_hz == 0 then none else some m.raw_hz

-- `tx_ok`, `fm_blocks_tx` and `will_key`: bits 0 and 1.
unfoldable pub fm_tx_ok : BroadcastFmReply → Bool
fm_tx_ok m = m.flags % 2 == 1

unfoldable pub fm_blocks_tx : BroadcastFmReply → Bool
fm_blocks_tx m = m.flags / 2 % 2 == 1

unfoldable pub will_key : BroadcastFmReply → Bool
will_key m = fm_tx_ok m && not (fm_blocks_tx m)

-- The three classes that build a 0x0879: the action, the frequency and the band.
abbrev pub broadcast_fm_format : List ℕ
broadcast_fm_format = 1 ∷ 4 ∷ 1 ∷ []

unfoldable pub probe_broadcast_fm_pack : Option Bytes
probe_broadcast_fm_pack = Struct.pack broadcast_fm_format (2 ∷ 0 ∷ 0 ∷ [])

unfoldable pub clear_broadcast_fm_pack : Option Bytes
clear_broadcast_fm_pack = Struct.pack broadcast_fm_format (0 ∷ 0 ∷ 0 ∷ [])

-- BROADCAST_FM_ACTIONS has `on` and `tune`; any other word is refused by `__post_init__`.
pub data Action : Type 0 where
  turn_on tune other_word : Action

abbrev pub action_of : Action → Option ℕ
action_of turn_on = some 1
action_of tune = some 2
action_of other_word = none

pub record SetBroadcastFm : Type 0 where
  pub action : Action
  pub hz : Option ℕ
  pub band : ℕ

abbrev pub is_on_raster : Option ℕ → Bool
is_on_raster none = false
is_on_raster (some hz) = not (hz == 0) && hz % 100000 == 0

abbrev pub is_action : Action → Bool
is_action turn_on = true
is_action tune = true
is_action other_word = false

-- `__post_init__`
unfoldable pub set_broadcast_fm_checks : SetBroadcastFm → Bool
set_broadcast_fm_checks m = is_action m.action && (is_on_raster m.hz && leb m.band 3)

abbrev pub set_broadcast_fm_values : Option ℕ → Option ℕ → ℕ → Option Bytes
set_broadcast_fm_values (some action) (some hz) band =
    Struct.pack broadcast_fm_format (action ∷ hz ∷ band ∷ [])
set_broadcast_fm_values _ _ band = none

unfoldable pub set_broadcast_fm_pack : SetBroadcastFm → Option Bytes
set_broadcast_fm_pack m = set_broadcast_fm_values (action_of m.action) m.hz m.band
