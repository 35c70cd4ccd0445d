-- ===== src/Uvk5/Message/Command.antt =====
-- The plain commands of radio_server/backends/uvk5/frames.py.
use radio_server.Base.{ℕ, List, [], ◌∷◌, Option, none, some, length}
use radio_server.Uvk5.Codec.{Codec, fixed, bare}

pub record Hello : Type 0 where
  pub timestamp : ℕ

unfoldable pub hello_of : List ℕ → Option Hello
hello_of (timestamp ∷ []) = some (record { timestamp = timestamp })
hello_of _ = none

abbrev pub hello : Codec Hello
hello = fixed 0x0514 (4 ∷ []) (λ m. m.timestamp ∷ []) hello_of

pub record KeyPress : Type 0 where
  pub key : ℕ
  pub padding : ℕ
  pub timestamp : ℕ

unfoldable pub key_press_of : List ℕ → Option KeyPress
key_press_of (key ∷ padding ∷ timestamp ∷ []) =
    some (record { key = key; padding = padding; timestamp = timestamp })
key_press_of _ = none

abbrev pub key_press : Codec KeyPress
key_press = fixed 0x0801 (1 ∷ 1 ∷ 4 ∷ []) (λ m. m.key ∷ m.padding ∷ m.timestamp ∷ []) key_press_of

pub record GetScreen : Type 0 where
  pub timestamp : ℕ

unfoldable pub get_screen_of : List ℕ → Option GetScreen
get_screen_of (timestamp ∷ []) = some (record { timestamp = timestamp })
get_screen_of _ = none

abbrev pub get_screen : Codec GetScreen
get_screen = fixed 0x0803 (4 ∷ []) (λ m. m.timestamp ∷ []) get_screen_of

pub record Scan : Type 0 where
  pub mid_freq : ℕ
  pub width : ℕ
  pub density : ℕ
  pub timestamp : ℕ

unfoldable pub scan_of : List ℕ → Option Scan
scan_of (mid_freq ∷ width ∷ density ∷ timestamp ∷ []) =
    some (record { mid_freq = mid_freq; width = width; density = density; timestamp = timestamp })
scan_of _ = none

abbrev pub scan : Codec Scan
scan =
    fixed 0x0808 (4 ∷ 4 ∷ 2 ∷ 4 ∷ []) (λ m. m.mid_freq ∷ m.width ∷ m.density ∷ m.timestamp ∷ [])
      scan_of

pub record StockSetModulation : Type 0 where
  pub length : ℕ
  pub mode : ℕ

unfoldable pub stock_set_modulation_of : List ℕ → Option StockSetModulation
stock_set_modulation_of (length ∷ mode ∷ []) = some (record { length = length; mode = mode })
stock_set_modulation_of _ = none

abbrev pub stock_set_modulation : Codec StockSetModulation
stock_set_modulation =
    fixed 0x0872 (2 ∷ 2 ∷ []) (λ m. m.length ∷ m.mode ∷ []) stock_set_modulation_of

pub record JetScan : Type 0 where
  pub start_freq : ℕ
  pub end_freq : ℕ
  pub step : ℕ

unfoldable pub jet_scan_of : List ℕ → Option JetScan
jet_scan_of (start_freq ∷ end_freq ∷ step ∷ []) =
    some (record { start_freq = start_freq; end_freq = end_freq; step = step })
jet_scan_of _ = none

abbrev pub jet_scan : Codec JetScan
jet_scan = fixed 0x0888 (4 ∷ 4 ∷ 4 ∷ []) (λ m. m.start_freq ∷ m.end_freq ∷ m.step ∷ []) jet_scan_of

pub data EnterHwMode : Type 0 where
  entering : EnterHwMode

abbrev pub enter_hw_mode : Codec EnterHwMode
enter_hw_mode = bare 0x0870 entering

pub data ExitHwMode : Type 0 where
  exiting : ExitHwMode

abbrev pub exit_hw_mode : Codec ExitHwMode
exit_hw_mode = bare 0x0871 exiting

pub data Reset : Type 0 where
  resetting : Reset

abbrev pub reset : Codec Reset
reset = bare 0x05DD resetting
