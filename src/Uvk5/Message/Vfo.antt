-- ===== src/Uvk5/Message/Vfo.antt =====
-- The set-VFO messages of radio_server/backends/uvk5/frames.py.
use radio_server.Base.{
  ℕ, ◌+◌, Bool, not, ◌&&◌, ◌||◌, List, [], ◌∷◌, Option, none, some, leb, ◌==◌, if◌then◌else◌,
}
use radio_server.Base.Struct.{Bytes}
use radio_server.Uvk5.Codec.{Codec, fixed, checked}
use radio_server.Base.Int.{ℤ, pos, ◌-ℤ◌}
use radio_server.Uvk5.Message.Status.{Status, is_in, status_of, number}

abbrev pub ctcss_options : List ℕ
ctcss_options =
    670 ∷ 693 ∷ 719 ∷ 744 ∷ 770 ∷ 797 ∷ 825 ∷ 854 ∷ 885 ∷ 915 ∷ 948 ∷ 974 ∷ 1000 ∷ 1035 ∷ 1072
    ∷ 1109 ∷ 1148 ∷ 1188 ∷ 1230 ∷ 1273 ∷ 1318 ∷ 1365 ∷ 1413 ∷ 1462 ∷ 1514 ∷ 1567 ∷ 1598 ∷ 1622
    ∷ 1655 ∷ 1679 ∷ 1713 ∷ 1738 ∷ 1773 ∷ 1799 ∷ 1835 ∷ 1862 ∷ 1899 ∷ 1928 ∷ 1966 ∷ 1995 ∷ 2035
    ∷ 2065 ∷ 2107 ∷ 2181 ∷ 2257 ∷ 2291 ∷ 2336 ∷ 2418 ∷ 2503 ∷ 2541 ∷ []

-- The members of `SetVfoStatus`
abbrev pub set_vfo_statuses : List ℕ
set_vfo_statuses = 0 ∷ 1 ∷ 2 ∷ 3 ∷ 4 ∷ 5 ∷ 6 ∷ 7 ∷ []

pub record SetVfoReply : Type 0 where
  pub status : Status
  pub rx_hz : ℕ
  pub tx_hz : ℕ
  pub ctcss_tenths : ℕ
  pub power : ℕ

unfoldable pub set_vfo_reply_of : List ℕ → Option SetVfoReply
set_vfo_reply_of (status ∷ power ∷ rx ∷ tx ∷ tone ∷ []) = some (record {
  status = status_of set_vfo_statuses status;
  rx_hz = rx;
  tx_hz = tx;
  ctcss_tenths = tone;
  power = power;
})
set_vfo_reply_of _ = none

abbrev pub set_vfo_reply : Codec SetVfoReply
set_vfo_reply =
    fixed 0x0874 (1 ∷ 1 ∷ 4 ∷ 4 ∷ 2 ∷ [])
      (λ m. number m.status ∷ m.power ∷ m.rx_hz ∷ m.tx_hz ∷ m.ctcss_tenths ∷ []) set_vfo_reply_of

pub record SetVfo : Type 0 where
  pub rx_hz : ℕ
  pub offset_hz : ℕ
  pub ctcss_tenths : ℕ
  pub direction : ℕ
  pub narrow : ℕ
  pub power : ℕ

-- `__post_init__`
unfoldable pub set_vfo_checks : SetVfo → Bool
set_vfo_checks m =
    leb m.direction 2
    && (leb m.narrow 1
        && (leb m.power 2
            && (not (m.rx_hz == 0)
                && ((m.ctcss_tenths == 0 || is_in m.ctcss_tenths ctcss_options)
                    && (m.direction == 0 || not (m.offset_hz == 0))))))

unfoldable pub set_vfo_of : List ℕ → Option SetVfo
set_vfo_of (rx_hz ∷ offset_hz ∷ ctcss_tenths ∷ direction ∷ narrow ∷ power ∷ []) =
    checked set_vfo_checks (record {
      rx_hz = rx_hz;
      offset_hz = offset_hz;
      ctcss_tenths = ctcss_tenths;
      direction = direction;
      narrow = narrow;
      power = power;
    })
set_vfo_of _ = none

abbrev pub set_vfo : Codec SetVfo
set_vfo =
    fixed 0x0873 (4 ∷ 4 ∷ 2 ∷ 1 ∷ 1 ∷ 1 ∷ [])
      (λ m. m.rx_hz ∷ m.offset_hz ∷ m.ctcss_tenths ∷ m.direction ∷ m.narrow ∷ m.power ∷ [])
      set_vfo_of

-- `tx_hz`, its sign and size: `OFFSET_SUB` may go below zero.
unfoldable pub tx_hz : SetVfo → ℤ
tx_hz m =
    if m.direction == 1
    then pos (m.rx_hz + m.offset_hz)
    else if m.direction == 2
    then pos m.rx_hz -ℤ pos m.offset_hz
    else pos m.rx_hz

-- `SetVfoProbe`
unfoldable pub set_vfo_probe : ℕ × Bytes
set_vfo_probe = (0x0873, [])
