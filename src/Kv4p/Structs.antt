-- ===== src/Kv4p/Structs.antt =====
-- The packed structs of radio_server/backends/kv4p/frames.py. What
-- `struct` makes of a Python float in an `f` field is a parameter (`Float32`): the bits of the nearest
-- 32-bit float, and the Python float of such bits. A signed field has its two's complement in the bytes.
pub mod RoundTrip
use radio_server.Base.{
  ℕ, suc, ◌+◌, ◌-◌, ◌*◌, ◌/◌, ◌^◌, Bool, List, [], ◌∷◌, ◌++◌, Option, none, some, length, take,
  drop, ltb, ◌==◌, if◌then◌else◌, and_then,
}
use radio_server.Base.Int.{ℤ, pos, negsuc}
use radio_server.Base.Struct
use radio_server.Base.Struct.{Bytes}

-- A signed field of some bytes, and back. Out of range is a number that the field does not fit.
unfoldable pub of_signed : ℕ → ℤ → ℕ
of_signed w (pos n) = if ltb n (256 ^ w / 2) then n else 256 ^ w
of_signed w (negsuc n) = if ltb n (256 ^ w / 2) then 256 ^ w - 1 - n else 256 ^ w

unfoldable pub to_signed : ℕ → ℕ → ℤ
to_signed w n = if ltb n (256 ^ w / 2) then pos n else negsuc (256 ^ w - 1 - n)

-- Python's floats, and `f` fields: `none` is the OverflowError.
pub record Float32 : Type 1 where
  pub Float : Type 0
  pub to_bits : Float → Option ℕ
  pub of_bits : ℕ → Float

-- The bits of an `f` field. An overflow is a number that the field does not fit.
abbrev pub of_float : Option ℕ → ℕ
of_float none = 256 ^ 4
of_float (some bits) = bits

pub record WindowUpdate : Type 0 where
  pub size : ℕ

abbrev pub window_update_format : List ℕ
window_update_format = 4 ∷ []

abbrev pub window_update_values : WindowUpdate → List ℕ
window_update_values m = m.size ∷ []

unfoldable pub window_update_of : List ℕ → Option WindowUpdate
window_update_of (size ∷ []) = some (record { size = size })
window_update_of _ = none

unfoldable pub window_update_pack : WindowUpdate → Option Bytes
window_update_pack m = Struct.pack window_update_format (window_update_values m)

unfoldable pub window_update_unpack : Bytes → Option WindowUpdate
window_update_unpack bytes = and_then (Struct.unpack window_update_format bytes) window_update_of

abbrev pub version_format : List ℕ
version_format = 2 ∷ 1 ∷ 4 ∷ 1 ∷ 4 ∷ 4 ∷ 1 ∷ []

abbrev pub host_desired_state_format : List ℕ
host_desired_state_format = 4 ∷ 4 ∷ 2 ∷ 1 ∷ 4 ∷ 4 ∷ 1 ∷ 1 ∷ 1 ∷ []

abbrev pub device_state_format : List ℕ
device_state_format = 4 ∷ 4 ∷ 2 ∷ 1 ∷ 4 ∷ 4 ∷ 1 ∷ 1 ∷ 1 ∷ 1 ∷ 1 ∷ 1 ∷ 1 ∷ []

module _ (F : Float32) where
  pub record Version : Type 0 where
    pub ver : ℕ
    pub radio_module_status : ℤ
    pub window_size : ℕ
    pub rf_module_type : ℕ
    pub min_radio_freq : F.Float
    pub max_radio_freq : F.Float
    pub features : ℕ

  abbrev pub version_values : Version → List ℕ
  version_values m =
      m.ver
      ∷ of_signed 1 m.radio_module_status
      ∷ m.window_size
      ∷ m.rf_module_type
      ∷ of_float (F.to_bits m.min_radio_freq)
      ∷ of_float (F.to_bits m.max_radio_freq)
      ∷ m.features
      ∷ []

  unfoldable pub version_of : List ℕ → Option Version
  version_of
        (ver ∷ radio_module_status ∷ window_size ∷ rf_module_type ∷ min_radio_freq ∷ max_radio_freq
          ∷ features ∷ []) =
      some (record {
        ver = ver;
        radio_module_status = to_signed 1 radio_module_status;
        window_size = window_size;
        rf_module_type = rf_module_type;
        min_radio_freq = F.of_bits min_radio_freq;
        max_radio_freq = F.of_bits max_radio_freq;
        features = features;
      })
  version_of _ = none

  unfoldable pub version_pack : Version → Option Bytes
  version_pack m = Struct.pack version_format (version_values m)

  unfoldable pub version_unpack : Bytes → Option Version
  version_unpack bytes = and_then (Struct.unpack version_format bytes) version_of

  pub record HostDesiredState : Type 0 where
    pub sequence : ℕ
    pub memory_id : ℤ
    pub flags : ℕ
    pub bw : ℕ
    pub freq_tx : F.Float
    pub freq_rx : F.Float
    pub ctcss_tx : ℕ
    pub squelch : ℕ
    pub ctcss_rx : ℕ

  abbrev pub host_desired_state_values : HostDesiredState → List ℕ
  host_desired_state_values m =
      m.sequence
      ∷ of_signed 4 m.memory_id
      ∷ m.flags
      ∷ m.bw
      ∷ of_float (F.to_bits m.freq_tx)
      ∷ of_float (F.to_bits m.freq_rx)
      ∷ m.ctcss_tx
      ∷ m.squelch
      ∷ m.ctcss_rx
      ∷ []

  unfoldable pub host_desired_state_of : List ℕ → Option HostDesiredState
  host_desired_state_of
        (sequence ∷ memory_id ∷ flags ∷ bw ∷ freq_tx ∷ freq_rx ∷ ctcss_tx ∷ squelch ∷ ctcss_rx
          ∷ []) =
      some (record {
        sequence = sequence;
        memory_id = to_signed 4 memory_id;
        flags = flags;
        bw = bw;
        freq_tx = F.of_bits freq_tx;
        freq_rx = F.of_bits freq_rx;
        ctcss_tx = ctcss_tx;
        squelch = squelch;
        ctcss_rx = ctcss_rx;
      })
  host_desired_state_of _ = none

  unfoldable pub host_desired_state_pack : HostDesiredState → Option Bytes
  host_desired_state_pack m = Struct.pack host_desired_state_format (host_desired_state_values m)

  unfoldable pub host_desired_state_unpack : Bytes → Option HostDesiredState
  host_desired_state_unpack bytes =
      and_then (Struct.unpack host_desired_state_format bytes) host_desired_state_of

  pub record DeviceState : Type 0 where
    pub applied_sequence : ℕ
    pub memory_id : ℤ
    pub flags : ℕ
    pub bw : ℕ
    pub freq_tx : F.Float
    pub freq_rx : F.Float
    pub ctcss_tx : ℕ
    pub squelch : ℕ
    pub ctcss_rx : ℕ
    pub radio_module_status : ℤ
    pub mode : ℕ
    pub last_error : ℕ
    pub latest_rssi : ℕ

  abbrev pub device_state_values : DeviceState → List ℕ
  device_state_values m =
      m.applied_sequence
      ∷ of_signed 4 m.memory_id
      ∷ m.flags
      ∷ m.bw
      ∷ of_float (F.to_bits m.freq_tx)
      ∷ of_float (F.to_bits m.freq_rx)
      ∷ m.ctcss_tx
      ∷ m.squelch
      ∷ m.ctcss_rx
      ∷ of_signed 1 m.radio_module_status
      ∷ m.mode
      ∷ m.last_error
      ∷ m.latest_rssi
      ∷ []

  unfoldable pub device_state_of : List ℕ → Option DeviceState
  device_state_of
        (applied_sequence ∷ memory_id ∷ flags ∷ bw ∷ freq_tx ∷ freq_rx ∷ ctcss_tx ∷ squelch
          ∷ ctcss_rx ∷ radio_module_status ∷ mode ∷ last_error ∷ latest_rssi ∷ []) =
      some (record {
        applied_sequence = applied_sequence;
        memory_id = to_signed 4 memory_id;
        flags = flags;
        bw = bw;
        freq_tx = F.of_bits freq_tx;
        freq_rx = F.of_bits freq_rx;
        ctcss_tx = ctcss_tx;
        squelch = squelch;
        ctcss_rx = ctcss_rx;
        radio_module_status = to_signed 1 radio_module_status;
        mode = mode;
        last_error = last_error;
        latest_rssi = latest_rssi;
      })
  device_state_of _ = none

  unfoldable pub device_state_pack : DeviceState → Option Bytes
  device_state_pack m = Struct.pack device_state_format (device_state_values m)

  unfoldable pub device_state_unpack : Bytes → Option DeviceState
  device_state_unpack bytes = and_then (Struct.unpack device_state_format bytes) device_state_of

  pub record Hello : Type 0 where
    pub version : Version
    pub device_state : DeviceState

  unfoldable pub hello_pack : Hello → Option Bytes
  hello_pack m =
      and_then (version_pack m.version)
        (λ head. and_then (device_state_pack m.device_state) (λ tail. some (head ++ tail)))

  -- Hello.SIZE is 43, of which the version has 17.
  unfoldable pub hello_unpack : Bytes → Option Hello
  hello_unpack bytes =
      if length bytes == 43
      then and_then (version_unpack (take 17 bytes)) (λ version.
        and_then (device_state_unpack (drop 17 bytes))
          (λ state. some (record { version = version; device_state = state })))
      else none
