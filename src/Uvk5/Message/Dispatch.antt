-- ===== src/Uvk5/Message/Dispatch.antt =====
-- `parse_frame` of radio_server/backends/uvk5/frames.py over any payload.
use mathlib.Core.Option.{some_inj, none-ne-some, some-ne-none}
use radio_server.Base.{
  and_then-some, ℕ, ◌<◌, true, ◌≡◌, ◌↔◌, refl, sym, ap, ◌∙◌, List, [], ◌∷◌, Option, none, some,
  length, take, drop, All, ltb, ◌==◌, ==_iff, if◌then◌else◌, if_intro, arith,
}
use radio_server.Base.Struct.{Bytes, un_le, unpack_from}
use radio_server.Uvk5.Frame.{inner_header}
use radio_server.Uvk5.Codec.{Codec}
use radio_server.Uvk5.Message.Parse.{
  Message, hello_message, key_press_message, get_screen_message, scan_message,
  stock_set_modulation_message, enter_hw_mode_message, exit_hw_mode_message, set_vfo_message,
  set_vfo_reply_message, set_modulation_message, set_modulation_reply_message,
  broadcast_fm_reply_message, eeprom_read_message, eeprom_read_reply_message, eeprom_write_message,
  eeprom_write_reply_message, reset_message, jet_scan_message, write_registers_message,
  read_registers_message, write_gpio_message, read_gpio_message, im_here_message,
  scan_reply_message, register_info_message, gpio_info_message, jet_scan_reply_message, typed,
  packed, entry, dispatch, unpacked, parsed, parse_params, parse_frame,
}
use radio_server.Uvk5.Message.Command.{
  hello, key_press, get_screen, scan, stock_set_modulation, enter_hw_mode, exit_hw_mode, reset,
  jet_scan,
}
use radio_server.Uvk5.Message.Vfo.{set_vfo, set_vfo_reply}
use radio_server.Uvk5.Message.Modulation.{set_modulation, set_modulation_reply}
use radio_server.Uvk5.Message.Broadcast.{broadcast_fm_reply}
use radio_server.Uvk5.Message.Eeprom.{
  eeprom_read, eeprom_read_reply, eeprom_write, eeprom_write_reply,
}
use radio_server.Uvk5.Message.Registers.{write_registers, read_registers, write_gpio, read_gpio}
use radio_server.Uvk5.Message.Reply.{im_here, scan_reply, register_info, gpio_info, jet_scan_reply}

-- An entry gives messages of its own opcode only.
abbrev OwnOpcode : ℕ × (Bytes → Option Message) → Type 0
OwnOpcode (command, unpack) =
    (params : Bytes) (m : Message) → unpack params ≡ some m → (packed m).0 ≡ command

entry-OwnOpcode :
    {A : Type 0} (codec : Codec A) (wrap : A → Message)
    → ((a : A) → (packed (wrap a)).0 ≡ codec.command)
    → OwnOpcode (entry codec wrap)
entry-OwnOpcode codec wrap h params m e =
    let (a, unpacked_as, wrapped) = and_then-some (codec.unpack params) (λ a. some (wrap a)) m e in
    ap (λ m. (packed m).0) (sym (some_inj.0 wrapped)) ∙ h a

dispatch-OwnOpcode : All OwnOpcode dispatch
unfolding dispatch packed
dispatch-OwnOpcode = (
  entry-OwnOpcode hello hello_message (λ a. refl),
  (
    entry-OwnOpcode key_press key_press_message (λ a. refl),
    (
      entry-OwnOpcode get_screen get_screen_message (λ a. refl),
      (
        entry-OwnOpcode scan scan_message (λ a. refl),
        (
          entry-OwnOpcode stock_set_modulation stock_set_modulation_message (λ a. refl),
          (
            entry-OwnOpcode enter_hw_mode enter_hw_mode_message (λ a. refl),
            (
              entry-OwnOpcode exit_hw_mode exit_hw_mode_message (λ a. refl),
              (
                entry-OwnOpcode set_vfo set_vfo_message (λ a. refl),
                (
                  entry-OwnOpcode set_vfo_reply set_vfo_reply_message (λ a. refl),
                  (
                    entry-OwnOpcode set_modulation set_modulation_message (λ a. refl),
                    (
                      entry-OwnOpcode set_modulation_reply set_modulation_reply_message (λ a. refl),
                      (
                        entry-OwnOpcode broadcast_fm_reply broadcast_fm_reply_message (λ a. refl),
                        (
                          entry-OwnOpcode eeprom_read eeprom_read_message (λ a. refl),
                          (
                            entry-OwnOpcode eeprom_read_reply eeprom_read_reply_message (λ a. refl),
                            (
                              entry-OwnOpcode eeprom_write eeprom_write_message (λ a. refl),
                              (
                                entry-OwnOpcode eeprom_write_reply eeprom_write_reply_message
                                    (λ a. refl),
                                (
                                  entry-OwnOpcode reset reset_message (λ a. refl),
                                  (
                                    entry-OwnOpcode jet_scan jet_scan_message (λ a. refl),
                                    (
                                      entry-OwnOpcode write_registers write_registers_message
                                          (λ a. refl),
                                      (
                                        entry-OwnOpcode read_registers read_registers_message
                                            (λ a. refl),
                                        (
                                          entry-OwnOpcode write_gpio write_gpio_message (λ a. refl),
                                          (
                                            entry-OwnOpcode read_gpio read_gpio_message (λ a. refl),
                                            (
                                              entry-OwnOpcode im_here im_here_message (λ a. refl),
                                              (
                                                entry-OwnOpcode scan_reply scan_reply_message
                                                    (λ a. refl),
                                                (
                                                  entry-OwnOpcode register_info
                                                      register_info_message (λ a. refl),
                                                  (
                                                    entry-OwnOpcode gpio_info gpio_info_message
                                                        (λ a. refl),
                                                    (
                                                      entry-OwnOpcode jet_scan_reply
                                                          jet_scan_reply_message (λ a. refl),
                                                      tt,
                                                    ),
                                                  ),
                                                ),
                                              ),
                                            ),
                                          ),
                                        ),
                                      ),
                                    ),
                                  ),
                                ),
                              ),
                            ),
                          ),
                        ),
                      ),
                    ),
                  ),
                ),
              ),
            ),
          ),
        ),
      ),
    ),
  ),
)

unpacked-opcode :
    (table : List (ℕ × (Bytes → Option Message))) (command : ℕ) (params : Bytes) (m : Message)
    → All OwnOpcode table
    → unpacked table command params ≡ some m
    → (packed m).0 ≡ command
unpacked-opcode [] command params m all = λ e. absurd (none-ne-some m e)
unpacked-opcode ((c, unpack) ∷ table) command params m (own, all) =
    if_intro (λ o. o ≡ some m → (packed m).0 ≡ command) (command == c)
      (λ t e. own params m e ∙ sym ((==_iff command c).0 t))
      (λ t. unpacked-opcode table command params m all)

-- The opcode of a payload: its two first bytes.
abbrev pub opcode_of : Bytes → ℕ
opcode_of payload = un_le (take 2 payload)

parsed-typed :
    (command n : ℕ) (params : Bytes) (o : Option Message) (m : Message)
    → parsed command n params o ≡ typed m
    → o ≡ some m
parsed-typed command n params none m e = absurd (cc)
parsed-typed command n params (some m') m e = cc

-- A payload that is parsed as a message of some class carries the opcode of that class.
pub parse_frame-opcode :
    (payload : Bytes) (m : Message)
    → parse_frame payload ≡ some (typed m)
    → opcode_of payload ≡ (packed m).0
unfolding parse_frame unpack_from
parse_frame-opcode payload m =
    let command = opcode_of payload in
    let params = drop 4 payload in
    let n = un_le (take 2 (drop 2 payload)) in
    if_intro (λ o. o ≡ some (typed m) → command ≡ (packed m).0) (ltb (length payload) 4)
      (λ t e. absurd (none-ne-some (typed m) e))
      (λ t e. sym (
        unpacked-opcode dispatch command params m dispatch-OwnOpcode
          (parsed-typed command n params (unpacked dispatch command params) m (some_inj.0 e))))

-- A payload is refused exactly when it is too short for the inner header; anything else is parsed.
pub parse_frame-none_iff : (payload : Bytes) → (parse_frame payload ≡ none) ↔ (length payload < 4)
unfolding parse_frame unpack_from
parse_frame-none_iff payload =
    let rest = parse_params (unpack_from inner_header payload) (drop 4 payload) in
    (
      if_intro (λ o. o ≡ none → length payload < 4) (ltb (length payload) 4) (λ t e. ground arith)
          (λ t e. absurd (some-ne-none _ e)),
      λ h.
          let t : ltb (length payload) 4 ≡ true = ground arith in
          ap (λ t. if t then none else rest) t,
    )
