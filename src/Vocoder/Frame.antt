-- ===== src/Vocoder/Frame.antt =====
-- radio_server/vocoder/frames.py: the packets of the DV Dongle, `classify` and DvDongleDecoder. Bytes are
-- numbers; `none` is the ValueError of a builder.
pub mod Deframe
pub mod Pieces
pub mod Voice
mod Examples
use radio_server.Base.{
  ℕ, zero, suc, ◌+◌, ◌*◌, ◌/◌, ◌%◌, Bool, true, false, ◌&&◌, ◌||◌, List, [], ◌∷◌, ◌++◌, Option,
  none, some, and_then, length, take, drop, replicate, ltb, ◌==◌, if◌then◌else◌,
}
use radio_server.Base.Struct.{Bytes, le, un_le}

abbrev pub header_len : ℕ
header_len = 2

-- LENGTH_MASK is 0x1FFF: the length is the remainder by its successor, the type the quotient.
abbrev pub length_range : ℕ
length_range = 0x2000

abbrev pub type_audio : ℕ
type_audio = 4

abbrev pub type_ambe : ℕ
type_ambe = 5

abbrev pub ambe_payload_len : ℕ
ambe_payload_len = 48

abbrev pub ambe_voice_offset : ℕ
ambe_voice_offset = 24

abbrev pub voice_frame_len : ℕ
voice_frame_len = 9

abbrev pub audio_payload_len : ℕ
audio_payload_len = 320

abbrev pub max_packet_len : ℕ
max_packet_len = header_len + audio_payload_len

abbrev pub resp_name : Bytes
resp_name = 0x0E ∷ 0 ∷ 1 ∷ 0 ∷ b'D' ∷ b'V' ∷ b' ' ∷ b'D' ∷ b'o' ∷ b'n' ∷ b'g' ∷ b'l' ∷ b'e' ∷ 0 ∷ []

abbrev pub resp_start : Bytes
resp_start = 5 ∷ 0 ∷ 0x18 ∷ 0 ∷ 1 ∷ []

abbrev pub resp_stop : Bytes
resp_stop = 5 ∷ 0 ∷ 0x18 ∷ 0 ∷ 0 ∷ []

abbrev pub resp_nop : Bytes
resp_nop = 2 ∷ 0 ∷ []

-- _AMBE_PARAMS_COMMON
abbrev pub ambe_params_common : Bytes
ambe_params_common =
    0xEC ∷ 0x13 ∷ 0 ∷ 0 ∷ 0x30 ∷ 0x10 ∷ 0 ∷ 0x40 ∷ 0 ∷ 0 ∷ 0 ∷ 0 ∷ 0x48 ∷ 0 ∷ 0 ∷ 0 ∷ 0 ∷ 0 ∷ 0 ∷ 0
    ∷ 0xFF ∷ 0 ∷ []

abbrev pub ambe_enc_params : Bytes
ambe_enc_params = ambe_params_common ++ (4 ∷ 0xF0 ∷ []) ++ replicate 24 0

abbrev pub ambe_dec_params : Bytes
ambe_dec_params = ambe_params_common ++ (0x20 ∷ 0x80 ∷ []) ++ replicate 24 0

-- The two header bytes of a word.
unfoldable pub build_packet : ℕ → Bytes → Option Bytes
build_packet type_bits payload =
    let n = header_len + length payload in
    if ltb n length_range then some (le 2 (type_bits * length_range + n) ++ payload) else none

unfoldable pub build_ambe_packet : Bytes → Option Bytes
build_ambe_packet payload =
    if length payload == ambe_payload_len then build_packet type_ambe payload else none

unfoldable pub build_audio_packet : Bytes → Option Bytes
build_audio_packet pcm =
    if length pcm == audio_payload_len then build_packet type_audio pcm else none

abbrev pub build_encode_config_packet : Option Bytes
build_encode_config_packet = build_ambe_packet ambe_enc_params

unfoldable pub build_decode_ambe_packet : Bytes → Option Bytes
build_decode_ambe_packet voice_frame =
    if length voice_frame == voice_frame_len
    then build_ambe_packet (
        take ambe_voice_offset ambe_dec_params
        ++ voice_frame
        ++ drop (ambe_voice_offset + voice_frame_len) ambe_dec_params)
    else none

abbrev pub build_decode_dummy_audio_packet : Option Bytes
build_decode_dummy_audio_packet = build_audio_packet (replicate audio_payload_len 0)

pub record Packet : Type 0 where
  pub type_bits : ℕ
  pub payload : Bytes

-- `Packet.raw`
abbrev pub raw : Packet → Option Bytes
raw p = build_packet p.type_bits p.payload

pub data ResponseKind : Type 0 where
  name start stop ambe audio nop unknown : ResponseKind

unfoldable pub same : Bytes → Bytes → Bool
same [] [] = true
same (x ∷ xs) (y ∷ ys) = (x == y) && same xs ys
same [] (y ∷ ys) = false
same (x ∷ xs) [] = false

abbrev pub kind_of : Bytes → ResponseKind
kind_of bytes =
    if same bytes resp_name
    then name
    else if same bytes resp_start
    then start
    else if same bytes resp_stop
    then stop
    else if same bytes resp_nop
    then nop
    else unknown

unfoldable pub classify : Packet → Option ResponseKind
classify p =
    if (p.type_bits == type_ambe) && (length p.payload == ambe_payload_len)
    then some ambe
    else if (p.type_bits == type_audio) && (length p.payload == audio_payload_len)
    then some audio
    else and_then (raw p) (λ bytes. some (kind_of bytes))

unfoldable pub ambe_voice_frame : Packet → Bytes
ambe_voice_frame p = take voice_frame_len (drop ambe_voice_offset p.payload)

-- A round of the loop of `feed`: what it appends and leaves, or `none` when the loop ends.
unfoldable pub round : Bytes → Option (List Packet × Bytes)
round buf =
    let word = un_le (take header_len buf) in
    let n = word % length_range in
    if ltb (length buf) header_len
    then none
    else if ltb n header_len || ltb max_packet_len n
    then some ([], drop 1 buf)
    else if ltb (length buf) n
    then none
    else some (
      record { type_bits = word / length_range; payload = drop header_len (take n buf) } ∷ [],
      drop n buf,
    )

-- What follows a round.
abbrev pub after :
    (Bytes → List Packet × Bytes) → Bytes → Option (List Packet × Bytes) → List Packet × Bytes
after loop buf none = ([], buf)
after loop buf (some (packets, left)) = let (more, held) = loop left in (packets ++ more, held)

-- The loop, on fuel.
unfoldable pub deframe : ℕ → Bytes → List Packet × Bytes
deframe zero buf = ([], buf)
deframe (suc fuel) buf = after (deframe fuel) buf (round buf)

-- `feed`, on the buffer that the decoder holds. As much fuel as bytes.
unfoldable pub feed : Bytes → Bytes → List Packet × Bytes
feed buf chunk = let all = buf ++ chunk in deframe (length all) all
