-- ===== src/Uvk5/Frame.antt =====
-- The framing of radio_server/backends/uvk5/frames.py: CRC-16/XMODEM, the obfuscation, `build_frame`
-- and the streaming `Uvk5Decoder`. Bytes are numbers, `^` is `bit_xor`, and shifts and masks are
-- written as arithmetic; `none` is an exception. The CRC and the payload length that are packed into
-- two bytes are in range.
pub mod Decode
pub mod RoundTrip
pub mod Resync
pub mod Corrupt
use Prim.Native.Nat.{bit_xor}
use radio_server.Base.{
  ℕ, zero, suc, ◌+◌, ◌*◌, ◌/◌, ◌%◌, Bool, true, false, ◌&&◌, ◌||◌, not, List, [], ◌∷◌, ◌++◌, Option,
  none, some, length, take, drop, get_or, leb, ltb, ◌==◌, if◌then◌else◌,
}
use radio_server.Base.Struct
use radio_server.Base.Struct.{Bytes, le, un_le}

-- PREAMBLE, FOOTER
abbrev pub preamble : Bytes
preamble = 0xAB ∷ 0xCD ∷ []

abbrev pub footer : Bytes
footer = 0xDC ∷ 0xBA ∷ []

-- OBFUSCATION
abbrev pub obfuscation : Bytes
obfuscation =
    0x16 ∷ 0x6C ∷ 0x14 ∷ 0xE6 ∷ 0x2E ∷ 0x91 ∷ 0x0D ∷ 0x40 ∷ 0x21 ∷ 0x35 ∷ 0xD5 ∷ 0x40 ∷ 0x13 ∷ 0x03
    ∷ 0xE9 ∷ 0x80 ∷ []

abbrev pub max_payload_size : ℕ
max_payload_size = 254

-- One round of the inner loop of `crc16`.
unfoldable pub crc_shift : ℕ → ℕ
crc_shift crc = (if crc * 2 / 65536 % 2 == 1 then bit_xor (crc * 2) 0x1021 else crc * 2) % 65536

unfoldable pub crc_shifts : ℕ → ℕ → ℕ
crc_shifts zero crc = crc
crc_shifts (suc n) crc = crc_shifts n (crc_shift crc)

unfoldable pub crc_loop : ℕ → Bytes → ℕ
crc_loop crc [] = crc
crc_loop crc (b ∷ bs) = crc_loop (crc_shifts 8 (bit_xor crc (b * 256))) bs

unfoldable pub crc16 : Bytes → ℕ
crc16 bs = crc_loop 0 bs

unfoldable pub obfuscate_from : ℕ → Bytes → Bytes
obfuscate_from i [] = []
obfuscate_from i (b ∷ bs) = bit_xor b (get_or obfuscation (i % 16) 0) ∷ obfuscate_from (i + 1) bs

-- `obfuscate`, which is `deobfuscate` too
unfoldable pub obfuscate : Bytes → Bytes
obfuscate bs = obfuscate_from 0 bs

-- What `build_frame` puts around a payload.
unfoldable pub wrap : Bool → Bytes → ℕ → Bytes
wrap obfuscated payload crc =
    let body = payload ++ le 2 crc in
    preamble ++ (le 2 (length payload) ++ ((if obfuscated then obfuscate body else body) ++ footer))

-- `_INNER_HEADER`
abbrev pub inner_header : List ℕ
inner_header = 2 ∷ 2 ∷ []

abbrev pub wrapped : Bool → Bytes → Option Bytes → Option Bytes
wrapped obfuscated params none = none
wrapped obfuscated params (some head) =
    if ltb max_payload_size (length (head ++ params))
    then none
    else some (wrap obfuscated (head ++ params) (crc16 (head ++ params)))

unfoldable pub build_frame : Bool → ℕ → Bytes → Option Bytes
build_frame obfuscated command params =
    wrapped obfuscated params (Struct.pack inner_header (command ∷ length params ∷ []))

pub data Stage : Type 0 where
  idle cd len_lo len_hi in_data crc_lo crc_hi dc ba : Stage

pub record Uvk5Decoder : Type 0 where
  pub obfuscated : Bool
  pub validate_crc : Bool
  pub stage : Stage
  pub size : ℕ
  pub buf : Bytes
  pub crc : Bytes

-- `reset`
unfoldable pub reset : Uvk5Decoder → Uvk5Decoder
reset d = record d { stage = idle; size = 0; buf = []; crc = [] }

abbrev pub new : Bool → Bool → Uvk5Decoder
new obfuscated validate_crc = record {
  obfuscated = obfuscated;
  validate_crc = validate_crc;
  stage = idle;
  size = 0;
  buf = [];
  crc = [];
}

-- `_finish`
unfoldable pub finish : Uvk5Decoder → Option Bytes
finish d =
    let body = if d.obfuscated then obfuscate (d.buf ++ d.crc) else d.buf ++ d.crc in
    let payload = take d.size body in
    if d.validate_crc && not (un_le (drop d.size body) == crc16 payload) then none else some payload

abbrev pub at_stage : Stage → Uvk5Decoder → Uvk5Decoder
at_stage stage d = record d { stage = stage }

-- `_step` in each stage
unfoldable pub step : Stage → ℕ → Uvk5Decoder → Option Bytes × Uvk5Decoder
step idle b d = (none, if b == 0xAB then at_stage cd d else d)
step cd b d = (none, if b == 0xCD then at_stage len_lo d else at_stage idle d)
step len_lo b d = (none, record d { size = b; stage = len_hi })
step len_hi b d =
    let size = d.size + b * 256 in
    let d' = record d { size = size; buf = []; crc = [] } in
    (none, if size == 0 || ltb max_payload_size size then at_stage idle d' else at_stage in_data d')
step in_data b d =
    let d' = record d { buf = d.buf ++ (b ∷ []) } in
    (none, if leb d.size (length d'.buf) then at_stage crc_lo d' else d')
step crc_lo b d = (none, record d { crc = d.crc ++ (b ∷ []); stage = crc_hi })
step crc_hi b d = (none, record d { crc = d.crc ++ (b ∷ []); stage = dc })
step dc b d = (none, if b == 0xDC then at_stage ba d else at_stage idle d)
step ba b d = let d' = at_stage idle d in (if not (b == 0xBA) then none else finish d', d')

abbrev pub emit : Option Bytes → List Bytes → List Bytes
emit none fs = fs
emit (some f) fs = f ∷ fs

unfoldable pub feed : Uvk5Decoder → Bytes → List Bytes × Uvk5Decoder
feed d [] = ([], d)
feed d (b ∷ bs) = let (f, d') = step d.stage b d in let (fs, d'') = feed d' bs in (emit f fs, d'')
