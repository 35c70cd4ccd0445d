-- ===== src/Dstar/Dsrp.antt =====
-- The DSRP packets of radio_server/dstar/dsrp.py. Bytes are numbers, a text is the list of its code
-- points, and `none` is the ValueError. Shifts and masks are written as arithmetic: the fields that
-- `|` joins share no bit.
pub mod Sequence
pub mod RoundTrip
use radio_server.Base.{
  ℕ, suc, ◌+◌, ◌*◌, ◌/◌, ◌%◌, Bool, true, false, ◌&&◌, ◌||◌, not, List, [], ◌∷◌, ◌++◌, Option, none,
  some, map, length, take, drop, get_or, replicate, leb, ltb, ◌==◌, if◌then◌else◌,
}

abbrev pub Bytes : Type 0
Bytes = List ℕ

-- MAGIC
abbrev pub magic : Bytes
magic = b'D' ∷ b'S' ∷ b'R' ∷ b'P' ∷ []

-- The packet types: poll, header, data; register, text, temporary text, status.
abbrev pub type_poll : ℕ
type_poll = 0x0A

abbrev pub type_header : ℕ
type_header = 0x20

abbrev pub type_data : ℕ
type_data = 0x21

abbrev pub type_register : ℕ
type_register = 0x0B

abbrev pub type_text : ℕ
type_text = 0x00

abbrev pub type_temptext : ℕ
type_temptext = 0x01

abbrev pub type_status : ℕ
type_status = 0x04

abbrev pub end_bit : ℕ
end_bit = 0x40

abbrev pub seq_max : ℕ
seq_max = 0x14

abbrev pub radio_header_len : ℕ
radio_header_len = 41

abbrev pub voice_frame_len : ℕ
voice_frame_len = 9

abbrev pub slow_data_len : ℕ
slow_data_len = 3

abbrev pub dv_frame_len : ℕ
dv_frame_len = voice_frame_len + slow_data_len

abbrev pub data_sync : Bytes
data_sync = 0x55 ∷ 0x2D ∷ 0x16 ∷ []

abbrev pub slow_data_filler : Bytes
slow_data_filler = replicate slow_data_len 0

-- `encode("ascii", "replace")` and `decode("ascii", "replace")` of one character
abbrev pub encode_char : ℕ → ℕ
encode_char c = if ltb c 128 then c else b'?'

abbrev pub decode_byte : ℕ → ℕ
decode_byte b = if ltb b 128 then b else 0xFFFD

unfoldable pub build_poll : List ℕ → Bytes
build_poll text = magic ++ (type_poll ∷ (map encode_char text ++ (0 ∷ [])))

unfoldable pub build_header_packet : Bytes → ℕ → Option Bytes
build_header_packet radio_header session_id =
    if not (length radio_header == radio_header_len)
    then none
    else let sid = session_id % 65536 in
      some (magic ++ (type_header ∷ sid / 256 ∷ sid % 256 ∷ 0 ∷ radio_header))

unfoldable pub build_dv_frame : Bytes → Bytes → Option Bytes
build_dv_frame ambe slow_data =
    if not (length ambe == voice_frame_len)
    then none
    else if not (length slow_data == slow_data_len)
    then none
    else some (ambe ++ slow_data)

unfoldable pub build_data_packet : Bytes → ℕ → ℕ → Bool → ℕ → Option Bytes
build_data_packet dv_frame session_id seq_no end errors =
    if not (length dv_frame == dv_frame_len)
    then none
    else let sid = session_id % 65536 in
      let seq = seq_no % 64 + (if end then end_bit else 0) in
      some (magic ++ (type_data ∷ sid / 256 ∷ sid % 256 ∷ seq ∷ errors % 256 ∷ dv_frame))

unfoldable pub slow_data_for_seq : ℕ → Bytes
slow_data_for_seq seq_no = if seq_no == 0 then data_sync else slow_data_filler

unfoldable pub next_seq : ℕ → ℕ
next_seq seq_no = if leb seq_max seq_no then 0 else seq_no + 1

-- `MessageKind` with the fields of `DsrpMessage` that it fills.
pub data DsrpMessage : Type 0 where
  header : ℕ → Bytes → DsrpMessage
  data_frame : ℕ → ℕ → Bool → ℕ → Bytes → DsrpMessage
  text status register poll : List ℕ → DsrpMessage
  unknown : DsrpMessage

unfoldable pub voice_frame : Bytes → Bytes
voice_frame dv_frame = take voice_frame_len dv_frame

abbrev pub eq_bytes : Bytes → Bytes → Bool
eq_bytes [] [] = true
eq_bytes (a ∷ as') (b ∷ bs) = a == b && eq_bytes as' bs
eq_bytes _ _ = false

-- `split(b"\x00", 1)[0]`
unfoldable pub until_nul : Bytes → Bytes
until_nul [] = []
until_nul (b ∷ bs) = let rest = until_nul bs in if b == 0 then [] else b ∷ rest

-- The text behind the type byte.
unfoldable pub text_of : Bytes → List ℕ
text_of packet = map decode_byte (until_nul (drop 5 packet))

unfoldable pub parse : Bytes → DsrpMessage
parse packet =
    if ltb (length packet) 5 || not (eq_bytes (take 4 packet) magic)
    then unknown
    else let ptype = get_or packet 4 0 in
      let session_id = get_or packet 5 0 * 256 + get_or packet 6 0 in
      if ptype == type_header && leb (8 + radio_header_len) (length packet)
      then header session_id (take radio_header_len (drop 8 packet))
      else if ptype == type_data && leb (9 + dv_frame_len) (length packet)
      then (let seq = get_or packet 7 0 in
          data_frame session_id (seq % 64) (seq / 64 % 2 == 1) (get_or packet 8 0)
            (take dv_frame_len (drop 9 packet)))
      else if ptype == type_text || ptype == type_temptext
      then text (text_of packet)
      else if ptype == type_status
      then status (text_of packet)
      else if ptype == type_register
      then register (text_of packet)
      else if ptype == type_poll
      then poll (text_of packet)
      else unknown
