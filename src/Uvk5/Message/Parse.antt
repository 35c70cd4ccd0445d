-- ===== src/Uvk5/Message/Parse.antt =====
-- `_DISPATCH`, `RawMessage` and `parse_frame` of radio_server/backends/uvk5/frames.py.
use radio_server.Base.{
  and_then, ℕ, List, [], ◌∷◌, Option, none, some, length, drop, ltb, ◌==◌, if◌then◌else◌,
}
use radio_server.Base.Struct.{Bytes, unpack_from}
use radio_server.Uvk5.Frame.{inner_header}
use radio_server.Uvk5.Codec.{Codec}
use radio_server.Uvk5.Message.Command.{
  Hello, KeyPress, GetScreen, Scan, StockSetModulation, EnterHwMode, ExitHwMode, Reset, JetScan,
  hello, key_press, get_screen, scan, stock_set_modulation, enter_hw_mode, exit_hw_mode, reset,
  jet_scan,
}
use radio_server.Uvk5.Message.Vfo.{SetVfo, SetVfoReply, set_vfo, set_vfo_reply}
use radio_server.Uvk5.Message.Modulation.{
  SetModulation, SetModulationReply, set_modulation, set_modulation_reply,
}
use radio_server.Uvk5.Message.Broadcast.{BroadcastFmReply, broadcast_fm_reply}
use radio_server.Uvk5.Message.Eeprom.{
  EepromRead, EepromReadReply, EepromWrite, EepromWriteReply, eeprom_read, eeprom_read_reply,
  eeprom_write, eeprom_write_reply,
}
use radio_server.Uvk5.Message.Registers.{
  WriteRegisters, ReadRegisters, WriteGpio, ReadGpio, write_registers, read_registers, write_gpio,
  read_gpio,
}
use radio_server.Uvk5.Message.Reply.{
  ImHere, ScanReply, RegisterInfo, GpioInfo, JetScanReply, im_here, scan_reply, register_info,
  gpio_info, jet_scan_reply,
}

-- An instance of one of the classes that `_DISPATCH` names.
pub data Message : Type 0 where
  hello_message : Hello → Message
  key_press_message : KeyPress → Message
  get_screen_message : GetScreen → Message
  scan_message : Scan → Message
  stock_set_modulation_message : StockSetModulation → Message
  enter_hw_mode_message : EnterHwMode → Message
  exit_hw_mode_message : ExitHwMode → Message
  set_vfo_message : SetVfo → Message
  set_vfo_reply_message : SetVfoReply → Message
  set_modulation_message : SetModulation → Message
  set_modulation_reply_message : SetModulationReply → Message
  broadcast_fm_reply_message : BroadcastFmReply → Message
  eeprom_read_message : EepromRead → Message
  eeprom_read_reply_message : EepromReadReply → Message
  eeprom_write_message : EepromWrite → Message
  eeprom_write_reply_message : EepromWriteReply → Message
  reset_message : Reset → Message
  jet_scan_message : JetScan → Message
  write_registers_message : WriteRegisters → Message
  read_registers_message : ReadRegisters → Message
  write_gpio_message : WriteGpio → Message
  read_gpio_message : ReadGpio → Message
  im_here_message : ImHere → Message
  scan_reply_message : ScanReply → Message
  register_info_message : RegisterInfo → Message
  gpio_info_message : GpioInfo → Message
  jet_scan_reply_message : JetScanReply → Message

-- What `parse_frame` returns: one of these, or a RawMessage.
pub data Parsed : Type 0 where
  typed : Message → Parsed
  raw : (command param_len : ℕ) (params : Bytes) → Parsed

-- The class of a message, as its opcode and what its instance packs.
abbrev pub packing : {A : Type 0} → Codec A → A → ℕ × Option Bytes
packing codec m = (codec.command, codec.pack m)

-- `COMMAND` and `pack()` of the class of the message, which each codec names.
unfoldable pub packed : Message → ℕ × Option Bytes
packed (hello_message m) = packing hello m
packed (key_press_message m) = packing key_press m
packed (get_screen_message m) = packing get_screen m
packed (scan_message m) = packing scan m
packed (stock_set_modulation_message m) = packing stock_set_modulation m
packed (enter_hw_mode_message m) = packing enter_hw_mode m
packed (exit_hw_mode_message m) = packing exit_hw_mode m
packed (set_vfo_message m) = packing set_vfo m
packed (set_vfo_reply_message m) = packing set_vfo_reply m
packed (set_modulation_message m) = packing set_modulation m
packed (set_modulation_reply_message m) = packing set_modulation_reply m
packed (broadcast_fm_reply_message m) = packing broadcast_fm_reply m
packed (eeprom_read_message m) = packing eeprom_read m
packed (eeprom_read_reply_message m) = packing eeprom_read_reply m
packed (eeprom_write_message m) = packing eeprom_write m
packed (eeprom_write_reply_message m) = packing eeprom_write_reply m
packed (reset_message m) = packing reset m
packed (jet_scan_message m) = packing jet_scan m
packed (write_registers_message m) = packing write_registers m
packed (read_registers_message m) = packing read_registers m
packed (write_gpio_message m) = packing write_gpio m
packed (read_gpio_message m) = packing read_gpio m
packed (im_here_message m) = packing im_here m
packed (scan_reply_message m) = packing scan_reply m
packed (register_info_message m) = packing register_info m
packed (gpio_info_message m) = packing gpio_info m
packed (jet_scan_reply_message m) = packing jet_scan_reply m

abbrev pub entry : {A : Type 0} → Codec A → (A → Message) → ℕ × (Bytes → Option Message)
entry codec wrap = (codec.command, λ params. and_then (codec.unpack params) (λ m. some (wrap m)))

-- `_DISPATCH`
unfoldable pub dispatch : List (ℕ × (Bytes → Option Message))
dispatch =
    entry hello hello_message
    ∷ entry key_press key_press_message
    ∷ entry get_screen get_screen_message
    ∷ entry scan scan_message
    ∷ entry stock_set_modulation stock_set_modulation_message
    ∷ entry enter_hw_mode enter_hw_mode_message
    ∷ entry exit_hw_mode exit_hw_mode_message
    ∷ entry set_vfo set_vfo_message
    ∷ entry set_vfo_reply set_vfo_reply_message
    ∷ entry set_modulation set_modulation_message
    ∷ entry set_modulation_reply set_modulation_reply_message
    ∷ entry broadcast_fm_reply broadcast_fm_reply_message
    ∷ entry eeprom_read eeprom_read_message
    ∷ entry eeprom_read_reply eeprom_read_reply_message
    ∷ entry eeprom_write eeprom_write_message
    ∷ entry eeprom_write_reply eeprom_write_reply_message
    ∷ entry reset reset_message
    ∷ entry jet_scan jet_scan_message
    ∷ entry write_registers write_registers_message
    ∷ entry read_registers read_registers_message
    ∷ entry write_gpio write_gpio_message
    ∷ entry read_gpio read_gpio_message
    ∷ entry im_here im_here_message
    ∷ entry scan_reply scan_reply_message
    ∷ entry register_info register_info_message
    ∷ entry gpio_info gpio_info_message
    ∷ entry jet_scan_reply jet_scan_reply_message
    ∷ []

-- `_DISPATCH.get(command)` and, when it is there, `codec.unpack(params)`; `none` when there is no codec
-- or it raised.
abbrev pub unpacked : List (ℕ × (Bytes → Option Message)) → ℕ → Bytes → Option Message
unpacked [] command params = none
unpacked ((c, unpack) ∷ table) command params =
    if command == c then unpack params else unpacked table command params

abbrev pub parsed : ℕ → ℕ → Bytes → Option Message → Parsed
parsed command param_len params none = raw command param_len params
parsed command param_len params (some m) = typed m

abbrev pub parse_params : List ℕ → Bytes → Option Parsed
parse_params (command ∷ param_len ∷ _) params =
    some (parsed command param_len params (unpacked dispatch command params))
parse_params _ params = none

unfoldable pub parse_frame : Bytes → Option Parsed
parse_frame payload =
    if ltb (length payload) 4
    then none
    else parse_params (unpack_from inner_header payload) (drop 4 payload)
