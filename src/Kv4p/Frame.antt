-- ===== src/Kv4p/Frame.antt =====
-- `build_vendor_frame` and the dispatch of decoded frames in
-- radio_server/backends/kv4p/frames.py.
pub mod Dispatch
use radio_server.Base.{
  ℕ, ◌+◌, ◌/◌, ◌%◌, Bool, true, false, ◌&&◌, not, List, [], ◌∷◌, ◌++◌, Option, none, some, length,
  take, drop, get_or, leb, ltb, ◌==◌, if◌then◌else◌,
}
use radio_server.Kv4p.Kiss.{Bytes, proto_mtu, vendor_header_len, build_kiss_frame}

-- KISS_CMD_DATA, KISS_CMD_SETHARDWARE
abbrev pub cmd_data : ℕ
cmd_data = 0x00

abbrev pub cmd_sethardware : ℕ
cmd_sethardware = 0x06

-- b"KV4P"
abbrev pub vendor_prefix : Bytes
vendor_prefix = b'K' ∷ b'V' ∷ b'4' ∷ b'P' ∷ []

abbrev pub protocol_version : ℕ
protocol_version = 0x01

unfoldable pub build_vendor_frame : ℕ → Bytes → Bytes
build_vendor_frame command payload =
    build_kiss_frame cmd_sethardware (vendor_prefix ++ (protocol_version ∷ command % 256 ∷ payload))

-- `VendorFrame` and `Ax25Frame`
pub data Frame : Type 0 where
  vendor : ℕ → Bytes → Frame
  ax25 : Bytes → Frame

abbrev pub eq_bytes : Bytes → Bytes → Bool
eq_bytes [] [] = true
eq_bytes (a ∷ as') (b ∷ bs) = a == b && eq_bytes as' bs
eq_bytes _ _ = false

-- `_parse_vendor`
unfoldable pub parse_vendor : Bytes → Option Frame
parse_vendor payload =
    if ltb (length payload) vendor_header_len
    then none
    else if not (eq_bytes (take 4 payload) vendor_prefix)
    then none
    else if not (get_or payload 4 0 == protocol_version)
    then none
    else some (vendor (get_or payload 5 0) (drop vendor_header_len payload))

-- The port is the high nibble of the command byte and the KISS command the low one.
unfoldable pub parse_frame : Bytes → Option Frame
parse_frame [] = none
parse_frame (command_byte ∷ payload) =
    if not (command_byte / 16 == 0)
    then none
    else if command_byte % 16 == cmd_data
    then (if ltb 0 (length payload) && leb (length payload) proto_mtu
        then some (ax25 payload)
        else none)
    else if command_byte % 16 == cmd_sethardware
    then parse_vendor payload
    else none
