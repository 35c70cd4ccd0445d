-- ===== src/Dstar/Header.antt =====
-- The 41-byte radio header of radio_server/dstar/header.py and its CRC-16/X-25. Bytes are numbers;
-- shifts and masks are written as arithmetic, and `^` is the native `bit_xor`. The callsign fields
-- come as bytes: `format_callsign` and `format_urcall`, which make them of strings, are not modelled.
pub mod Layout
pub mod RoundTrip
use Prim.Native.Nat.{bit_xor}
use radio_server.Base.{
  ℕ, zero, suc, ◌+◌, ◌-◌, ◌*◌, ◌/◌, ◌%◌, Bool, true, false, ◌&&◌, ◌||◌, List, [], ◌∷◌, ◌++◌, Option,
  none, some, map, length, take, drop, get_or, replicate, leb, ltb, ◌==◌, if◌then◌else◌,
}
use radio_server.Dstar.Dsrp.{Bytes, radio_header_len, decode_byte, eq_bytes}

abbrev pub long_callsign_len : ℕ
long_callsign_len = 8

abbrev pub short_callsign_len : ℕ
short_callsign_len = 4

-- The field offsets.
abbrev pub off_rpt2 : ℕ
off_rpt2 = 3

abbrev pub off_rpt1 : ℕ
off_rpt1 = 11

abbrev pub off_ur : ℕ
off_ur = 19

abbrev pub off_my1 : ℕ
off_my1 = 27

abbrev pub off_my2 : ℕ
off_my2 = 35

abbrev pub off_crc : ℕ
off_crc = 39

abbrev pub checksum_bypass : Bytes
checksum_bypass = 0xFF ∷ 0xFF ∷ []

-- One bit of an entry of the table.
unfoldable pub shift_bit : ℕ → ℕ
shift_bit crc = if crc % 2 == 1 then bit_xor (crc / 2) 0x8408 else crc / 2

unfoldable pub shift_bits : ℕ → ℕ → ℕ
shift_bits zero crc = crc
shift_bits (suc n) crc = shift_bits n (shift_bit crc)

-- The entries from `i` on.
unfoldable pub table_from : ℕ → ℕ → List ℕ
table_from zero i = []
table_from (suc n) i = shift_bits 8 i ∷ table_from n (i + 1)

-- `_build_table`
unfoldable pub build_table : List ℕ
build_table = table_from 256 0

unfoldable pub crc_loop : ℕ → Bytes → ℕ
crc_loop crc [] = crc
crc_loop crc (b ∷ bs) =
    crc_loop (bit_xor (crc / 256) (get_or build_table (bit_xor crc b % 256) 0)) bs

-- `(~crc) & 0xFFFF`
unfoldable pub crc16_x25 : Bytes → ℕ
crc16_x25 bytes = 65535 - crc_loop 0xFFFF bytes % 65536

unfoldable pub checksum_bytes : Bytes → Bytes
checksum_bytes body = let crc = crc16_x25 body in crc % 256 ∷ crc / 256 % 256 ∷ []

-- `field[:length].ljust(length, b" ")`
unfoldable pub pad : ℕ → Bytes → Bytes
pad len field = take len field ++ replicate (len - length (take len field)) b' '

-- `body[off : off + len(xs)] = xs`
unfoldable pub put : ℕ → Bytes → Bytes → Bytes
put off xs body = take off body ++ (xs ++ drop (off + length xs) body)

-- The five callsign fields and the flags.
pub record Fields : Type 0 where
  pub rpt1 : List ℕ
  pub rpt2 : List ℕ
  pub ur : List ℕ
  pub my1 : List ℕ
  pub my2 : List ℕ
  pub flags : ℕ × ℕ × ℕ

unfoldable pub header_body : Fields → Bytes
header_body f =
    let (a, b, c) = f.flags in
    put off_my2 (pad short_callsign_len f.my2) (
      put off_my1 (pad long_callsign_len f.my1) (
        put off_ur (pad long_callsign_len f.ur) (
          put off_rpt2 (pad long_callsign_len f.rpt2) (
            put off_rpt1 (pad long_callsign_len f.rpt1) (
              put 2 (c % 256 ∷ [])
                (put 1 (b % 256 ∷ []) (put 0 (a % 256 ∷ []) (replicate 39 0))))))))

unfoldable pub build_header : Fields → Bytes
build_header f = header_body f ++ checksum_bytes (header_body f)

unfoldable pub field : Bytes → ℕ → ℕ → List ℕ
field bytes off len = map decode_byte (take len (drop off bytes))

unfoldable pub checksum_ok : Bytes → Bool
checksum_ok bytes =
    if leb radio_header_len (length bytes)
    then (let on_wire = take 2 (drop off_crc bytes) in
        eq_bytes on_wire checksum_bypass || eq_bytes on_wire (checksum_bytes (take off_crc bytes)))
    else true

-- `parse_header`: the `RadioHeader` with its `checksum_ok`; `none` is the ValueError.
unfoldable pub parse_header : Bytes → Option (Fields × Bool)
parse_header bytes =
    if ltb (length bytes) off_crc
    then none
    else some (
      record {
        rpt1 = field bytes off_rpt1 long_callsign_len;
        rpt2 = field bytes off_rpt2 long_callsign_len;
        ur = field bytes off_ur long_callsign_len;
        my1 = field bytes off_my1 long_callsign_len;
        my2 = field bytes off_my2 short_callsign_len;
        flags = (get_or bytes 0 0, get_or bytes 1 0, get_or bytes 2 0);
      },
      checksum_ok bytes,
    )
