-- ===== src/Dstar/Examples.antt =====
-- The theorems about radio_server/dstar at concrete inputs.
use radio_server.Base.{◌%◌, true, ◌≡◌, refl, [], ◌∷◌, some, replicate}
use radio_server.Dstar.Dsrp.{
  Bytes, data_frame, build_dv_frame, build_data_packet, parse, voice_frame,
}
use radio_server.Dstar.Dsrp.RoundTrip.{data_round_trip}
use radio_server.Dstar.Header.{
  Fields, build_header, parse_header, crc16_x25, crc_loop, build_table, table_from, shift_bits,
  shift_bit,
}
use radio_server.Dstar.Header.RoundTrip.{on_air, parse_header-build_header}

-- The check value of CRC-16/X-25.
crc_check : crc16_x25 (b'1' ∷ b'2' ∷ b'3' ∷ b'4' ∷ b'5' ∷ b'6' ∷ b'7' ∷ b'8' ∷ b'9' ∷ []) ≡ 0x906E
unfolding crc16_x25 crc_loop build_table table_from shift_bits shift_bit
crc_check = refl

abbrev echo : Fields
echo = record {
  rpt1 = b'A' ∷ b'E' ∷ b'9' ∷ b'S' ∷ b' ' ∷ b' ' ∷ b' ' ∷ b'A' ∷ [];
  rpt2 = b'A' ∷ b'E' ∷ b'9' ∷ b'S' ∷ b' ' ∷ b' ' ∷ b' ' ∷ b'G' ∷ [];
  ur = b'C' ∷ b'Q' ∷ b'C' ∷ b'Q' ∷ b'C' ∷ b'Q' ∷ [];
  my1 = b'A' ∷ b'E' ∷ b'9' ∷ b'S' ∷ [];
  my2 = b'I' ∷ b'N' ∷ b'F' ∷ b'O' ∷ [];
  flags = (0, 0, 256);
}

parse_header-build_header_example : parse_header (build_header echo) ≡ some (on_air echo, true)
parse_header-build_header_example = parse_header-build_header echo

data_round_trip_example :
    (dv p : Bytes) × (build_dv_frame (replicate 9 1) (replicate 3 2) ≡ some dv)
    × (build_data_packet dv 513 20 true 0 ≡ some p)
    × (parse p ≡ data_frame (513 % 65536) (20 % 64) true (0 % 256) dv)
    × (voice_frame dv ≡ replicate 9 1)
data_round_trip_example = data_round_trip (replicate 9 1) (replicate 3 2) 513 20 0 true refl refl
