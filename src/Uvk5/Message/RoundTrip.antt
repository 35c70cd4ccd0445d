-- ===== src/Uvk5/Message/RoundTrip.antt =====
-- `parse_frame` of radio_server/backends/uvk5/frames.py over what the classes pack.
pub mod Fixed
pub mod Headed
pub mod Counted
use radio_server.Base.{
  and_then, and_then-some, ℕ, ◌+◌, ◌*◌, ◌<◌, ◌≤◌, Bool, true, false, ◌≡◌, refl, sym, ap, ◌∙◌, List,
  [], ◌∷◌, ◌++◌, Option, none, some, length, take, drop, ltb, ◌==◌, if◌then◌else◌, arith,
  length-append, drop-append,
}
use radio_server.Base.Struct.{Bytes, fits, fields, unpack_from, unpack_from-fields, length-fields}
use radio_server.Uvk5.Frame.{inner_header}
use radio_server.Uvk5.Frame.RoundTrip.{payload_of}
use radio_server.Uvk5.Codec.{Codec, RoundTrips, fixed, bare}
use radio_server.Uvk5.Message.Command.{
  EnterHwMode, entering, ExitHwMode, exiting, Reset, resetting, hello, key_press, get_screen, scan,
  stock_set_modulation, enter_hw_mode, exit_hw_mode, reset, jet_scan,
}
use radio_server.Uvk5.Message.Vfo.{set_vfo, set_vfo_checks, set_vfo_statuses, set_vfo_reply}
use radio_server.Uvk5.Message.Modulation.{
  set_modulation, set_modulation_checks, modulation_statuses, set_modulation_reply,
}
use radio_server.Uvk5.Message.Broadcast.{broadcast_fm_reply, broadcast_fm_statuses}
use radio_server.Uvk5.Message.Eeprom.{
  eeprom_read, eeprom_read_checks, eeprom_read_reply, eeprom_write, eeprom_write_checks,
  eeprom_write_reply,
}
use radio_server.Uvk5.Message.Registers.{write_registers, read_registers, write_gpio, read_gpio}
use radio_server.Uvk5.Message.Reply.{im_here, scan_reply, register_info, gpio_info, jet_scan_reply}
use radio_server.Uvk5.Message.Parse.{
  Message, hello_message, key_press_message, get_screen_message, scan_message,
  stock_set_modulation_message, enter_hw_mode_message, exit_hw_mode_message, set_vfo_message,
  set_vfo_reply_message, set_modulation_message, set_modulation_reply_message,
  broadcast_fm_reply_message, eeprom_read_message, eeprom_read_reply_message, eeprom_write_message,
  eeprom_write_reply_message, reset_message, jet_scan_message, write_registers_message,
  read_registers_message, write_gpio_message, read_gpio_message, im_here_message,
  scan_reply_message, register_info_message, gpio_info_message, jet_scan_reply_message, Parsed,
  typed, raw, packing, packed, entry, dispatch, unpacked, parsed, parse_params, parse_frame,
}
use radio_server.Uvk5.Message.RoundTrip.Fixed.{
  IsNamed, bare-RoundTrips, hello-RoundTrips, key_press-RoundTrips, get_screen-RoundTrips,
  scan-RoundTrips, stock_set_modulation-RoundTrips, set_vfo-RoundTrips, set_vfo_reply-RoundTrips,
  set_modulation-RoundTrips, set_modulation_reply-RoundTrips, broadcast_fm_reply-RoundTrips,
  eeprom_read-RoundTrips, jet_scan-RoundTrips, register_info-RoundTrips, gpio_info-RoundTrips,
  jet_scan_reply-RoundTrips,
}
use radio_server.Uvk5.Message.RoundTrip.Headed.{
  eeprom_read_reply-RoundTrips, eeprom_write-RoundTrips, eeprom_write_reply-RoundTrips,
  im_here-RoundTrips, scan_reply-RoundTrips,
}
use radio_server.Uvk5.Message.RoundTrip.Counted.{
  write_registers-RoundTrips, read_registers-RoundTrips, write_gpio-RoundTrips,
  read_gpio-RoundTrips,
}

-- A message in the form that `unpack` gives it: the checks of its `__post_init__` passed, a status that is
-- the member of its IntEnum when there is one, and its runs of bytes and tuples have the length of its
-- format.
abbrev pub IsValid : Message → Type 0
IsValid (hello_message m) = Unit
IsValid (key_press_message m) = Unit
IsValid (get_screen_message m) = Unit
IsValid (scan_message m) = Unit
IsValid (stock_set_modulation_message m) = Unit
IsValid (enter_hw_mode_message m) = Unit
IsValid (exit_hw_mode_message m) = Unit
IsValid (set_vfo_message m) = set_vfo_checks m ≡ true
IsValid (set_vfo_reply_message m) = IsNamed set_vfo_statuses m.status
IsValid (set_modulation_message m) = set_modulation_checks m ≡ true
IsValid (set_modulation_reply_message m) = IsNamed modulation_statuses m.status
IsValid (broadcast_fm_reply_message m) = IsNamed broadcast_fm_statuses m.status
IsValid (eeprom_read_message m) = eeprom_read_checks m ≡ true
IsValid (eeprom_read_reply_message m) = m.size ≡ length m.body
IsValid (eeprom_write_message m) = eeprom_write_checks m ≡ true
IsValid (eeprom_write_reply_message m) = Unit
IsValid (reset_message m) = Unit
IsValid (jet_scan_message m) = Unit
IsValid (write_registers_message m) = Unit
IsValid (read_registers_message m) = Unit
IsValid (write_gpio_message m) = Unit
IsValid (read_gpio_message m) = Unit
IsValid (im_here_message m) = length m.version ≡ 16
IsValid (scan_reply_message m) = length m.signals ≡ 100
IsValid (register_info_message m) = Unit
IsValid (gpio_info_message m) = Unit
IsValid (jet_scan_reply_message m) = (length m.freqs ≡ 16) × (length m.sigs ≡ 16)

only_entering : (m : EnterHwMode) → entering ≡ m
only_entering entering = refl

only_exiting : (m : ExitHwMode) → exiting ≡ m
only_exiting exiting = refl

only_resetting : (m : Reset) → resetting ≡ m
only_resetting resetting = refl

-- The table has for each message the class that packs it.
pub unpacked-packed :
    (m : Message) (params : Bytes)
    → IsValid m
    → (packed m).1 ≡ some params
    → unpacked dispatch (packed m).0 params ≡ some m
unfolding packed dispatch fixed bare
unpacked-packed (hello_message m) params v e =
    ap (λ o. and_then o (λ m. some (hello_message m))) (hello-RoundTrips m params v e)
unpacked-packed (key_press_message m) params v e =
    ap (λ o. and_then o (λ m. some (key_press_message m))) (key_press-RoundTrips m params v e)
unpacked-packed (get_screen_message m) params v e =
    ap (λ o. and_then o (λ m. some (get_screen_message m))) (get_screen-RoundTrips m params v e)
unpacked-packed (scan_message m) params v e =
    ap (λ o. and_then o (λ m. some (scan_message m))) (scan-RoundTrips m params v e)
unpacked-packed (stock_set_modulation_message m) params v e =
    ap (λ o. and_then o (λ m. some (stock_set_modulation_message m)))
      (stock_set_modulation-RoundTrips m params v e)
unpacked-packed (enter_hw_mode_message m) params v e =
    ap (λ o. and_then o (λ m. some (enter_hw_mode_message m)))
      ((bare-RoundTrips enter_hw_mode.command entering only_entering) m params v e)
unpacked-packed (exit_hw_mode_message m) params v e =
    ap (λ o. and_then o (λ m. some (exit_hw_mode_message m)))
      ((bare-RoundTrips exit_hw_mode.command exiting only_exiting) m params v e)
unpacked-packed (set_vfo_message m) params v e =
    ap (λ o. and_then o (λ m. some (set_vfo_message m))) (set_vfo-RoundTrips m params v e)
unpacked-packed (set_vfo_reply_message m) params v e =
    ap (λ o. and_then o (λ m. some (set_vfo_reply_message m)))
      (set_vfo_reply-RoundTrips m params v e)
unpacked-packed (set_modulation_message m) params v e =
    ap (λ o. and_then o (λ m. some (set_modulation_message m)))
      (set_modulation-RoundTrips m params v e)
unpacked-packed (set_modulation_reply_message m) params v e =
    ap (λ o. and_then o (λ m. some (set_modulation_reply_message m)))
      (set_modulation_reply-RoundTrips m params v e)
unpacked-packed (broadcast_fm_reply_message m) params v e =
    ap (λ o. and_then o (λ m. some (broadcast_fm_reply_message m)))
      (broadcast_fm_reply-RoundTrips m params v e)
unpacked-packed (eeprom_read_message m) params v e =
    ap (λ o. and_then o (λ m. some (eeprom_read_message m))) (eeprom_read-RoundTrips m params v e)
unpacked-packed (eeprom_read_reply_message m) params v e =
    ap (λ o. and_then o (λ m. some (eeprom_read_reply_message m)))
      (eeprom_read_reply-RoundTrips m params v e)
unpacked-packed (eeprom_write_message m) params v e =
    ap (λ o. and_then o (λ m. some (eeprom_write_message m))) (eeprom_write-RoundTrips m params v e)
unpacked-packed (eeprom_write_reply_message m) params v e =
    ap (λ o. and_then o (λ m. some (eeprom_write_reply_message m)))
      (eeprom_write_reply-RoundTrips m params v e)
unpacked-packed (reset_message m) params v e =
    ap (λ o. and_then o (λ m. some (reset_message m)))
      ((bare-RoundTrips reset.command resetting only_resetting) m params v e)
unpacked-packed (jet_scan_message m) params v e =
    ap (λ o. and_then o (λ m. some (jet_scan_message m))) (jet_scan-RoundTrips m params v e)
unpacked-packed (write_registers_message m) params v e =
    ap (λ o. and_then o (λ m. some (write_registers_message m)))
      (write_registers-RoundTrips m params v e)
unpacked-packed (read_registers_message m) params v e =
    ap (λ o. and_then o (λ m. some (read_registers_message m)))
      (read_registers-RoundTrips m params v e)
unpacked-packed (write_gpio_message m) params v e =
    ap (λ o. and_then o (λ m. some (write_gpio_message m))) (write_gpio-RoundTrips m params v e)
unpacked-packed (read_gpio_message m) params v e =
    ap (λ o. and_then o (λ m. some (read_gpio_message m))) (read_gpio-RoundTrips m params v e)
unpacked-packed (im_here_message m) params v e =
    ap (λ o. and_then o (λ m. some (im_here_message m))) (im_here-RoundTrips m params v e)
unpacked-packed (scan_reply_message m) params v e =
    ap (λ o. and_then o (λ m. some (scan_reply_message m))) (scan_reply-RoundTrips m params v e)
unpacked-packed (register_info_message m) params v e =
    ap (λ o. and_then o (λ m. some (register_info_message m)))
      (register_info-RoundTrips m params v e)
unpacked-packed (gpio_info_message m) params v e =
    ap (λ o. and_then o (λ m. some (gpio_info_message m))) (gpio_info-RoundTrips m params v e)
unpacked-packed (jet_scan_reply_message m) params v e =
    ap (λ o. and_then o (λ m. some (jet_scan_reply_message m)))
      (jet_scan_reply-RoundTrips m params v e)

inner_header-fits :
    (command n : ℕ) → command < 65536 → n < 65536 → fits inner_header (command ∷ n ∷ []) ≡ true
unfolding fits
inner_header-fits command n hc hn = ground arith

-- `parse_frame` over a payload of some parameters.
pub parse_frame-payload_of :
    (command : ℕ) (params : Bytes)
    → command < 65536
    → length params < 65536
    → parse_frame (payload_of (command, params))
      ≡ some (parsed command (length params) params (unpacked dispatch command params))
unfolding parse_frame
parse_frame-payload_of command params hc hp =
    let n = length params in
    let f = inner_header-fits command n hc hp in
    let head = fields inner_header (command ∷ n ∷ []) in
    let four : length head ≡ 4 = length-fields inner_header (command ∷ n ∷ []) f ∙ omega arith in
    let t : ltb (length (head ++ params)) 4 ≡ false = ground (arith, length-append head params) in
    ap
      (λ t.
        if t
        then none
        else parse_params (unpack_from inner_header (head ++ params)) (drop 4 (head ++ params)))
      t
    ∙ ap (λ l. parse_params l (drop 4 (head ++ params)))
        (unpack_from-fields inner_header (command ∷ n ∷ []) params f)
    ∙ ap (parse_params (command ∷ n ∷ [])) (drop-append 4 head params four)

pub command-lt : (m : Message) → (packed m).0 < 65536
unfolding packed fixed bare
command-lt (hello_message m) = omega arith
command-lt (key_press_message m) = omega arith
command-lt (get_screen_message m) = omega arith
command-lt (scan_message m) = omega arith
command-lt (stock_set_modulation_message m) = omega arith
command-lt (enter_hw_mode_message m) = omega arith
command-lt (exit_hw_mode_message m) = omega arith
command-lt (set_vfo_message m) = omega arith
command-lt (set_vfo_reply_message m) = omega arith
command-lt (set_modulation_message m) = omega arith
command-lt (set_modulation_reply_message m) = omega arith
command-lt (broadcast_fm_reply_message m) = omega arith
command-lt (eeprom_read_message m) = omega arith
command-lt (eeprom_read_reply_message m) = omega arith
command-lt (eeprom_write_message m) = omega arith
command-lt (eeprom_write_reply_message m) = omega arith
command-lt (reset_message m) = omega arith
command-lt (jet_scan_message m) = omega arith
command-lt (write_registers_message m) = omega arith
command-lt (read_registers_message m) = omega arith
command-lt (write_gpio_message m) = omega arith
command-lt (read_gpio_message m) = omega arith
command-lt (im_here_message m) = omega arith
command-lt (scan_reply_message m) = omega arith
command-lt (register_info_message m) = omega arith
command-lt (gpio_info_message m) = omega arith
command-lt (jet_scan_reply_message m) = omega arith

-- What a class packs of a valid message, `parse_frame` gives back as that message of that class, once it
-- stands behind the inner header.
pub parse_frame-packed :
    (m : Message) (params : Bytes)
    → IsValid m
    → (packed m).1 ≡ some params
    → length params < 65536
    → parse_frame (payload_of ((packed m).0, params)) ≡ some (typed m)
parse_frame-packed m params valid e n =
    let command = (packed m).0 in
    parse_frame-payload_of command params (command-lt m) n
    ∙ ap (λ o. some (parsed command (length params) params o)) (unpacked-packed m params valid e)
