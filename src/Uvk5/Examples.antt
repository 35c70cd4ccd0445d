-- ===== src/Uvk5/Examples.antt =====
-- The theorems about radio_server/backends/uvk5/frames.py at concrete inputs.
use radio_server.Base.{
  ℕ, zero, suc, true, false, ◌≡◌, ◌≢◌, refl, List, [], ◌∷◌, ◌++◌, some, replicate, All, map, arith,
}
use radio_server.Base.Struct.{Bytes, le, un_le, fits, fields, unpack_from, pack, unpack}
use radio_server.Uvk5.Frame
use radio_server.Uvk5.Frame.{
  crc_shift, crc_shifts, crc_loop, crc16, obfuscate_from, obfuscate, wrap, build_frame, idle,
  Uvk5Decoder, feed, step, finish,
}
use radio_server.Uvk5.Frame.Decode.{Waits}
use radio_server.Uvk5.Frame.RoundTrip.{payload_of, IsStream}
use radio_server.Uvk5.Frame.Resync.{IsBounded, feed-IsBounded, feed_resync}
use radio_server.Uvk5.Frame.Corrupt.{feed_corrupt}
use radio_server.Uvk5.Codec.{fixed, bare}
use radio_server.Uvk5.Message.Modulation.{set_modulation_checks}
use radio_server.Uvk5.Message.Reply.{register_info_of}
use radio_server.Uvk5.Message.Broadcast.{
  SetBroadcastFm, tune, set_broadcast_fm_checks, set_broadcast_fm_pack, clear_broadcast_fm_pack,
  probe_broadcast_fm_pack,
}
use radio_server.Uvk5.Message.Broadcast.Mirror.{reads, IsTune, broadcast_fm_mirror}
use radio_server.Uvk5.Message.Parse.{
  Message, set_modulation_message, register_info_message, typed, packed, parse_frame, dispatch,
}
use radio_server.Uvk5.Message.Stream.{IsSent, parse_stream}
use radio_server.Uvk5.Message.Dispatch.{opcode_of, parse_frame-opcode}

-- AM, and register 0x30 as it reads back.
abbrev am : Message
am = set_modulation_message (record { modulation = 1 })

abbrev am_frame : Bytes
am_frame = 171 ∷ 205 ∷ 5 ∷ 0 ∷ 97 ∷ 100 ∷ 21 ∷ 230 ∷ 47 ∷ 17 ∷ 213 ∷ 220 ∷ 186 ∷ []

abbrev register_30 : Message
register_30 = register_info_message (record { register = 0x30; value = 0xBFF1 })

abbrev register_30_frame : Bytes
register_30_frame =
    171 ∷ 205 ∷ 8 ∷ 0 ∷ 71 ∷ 101 ∷ 16 ∷ 230 ∷ 30 ∷ 145 ∷ 252 ∷ 255 ∷ 214 ∷ 206 ∷ 220 ∷ 186 ∷ []

-- Both behind noise.
abbrev wire : Bytes
wire = 1 ∷ 0xCD ∷ (am_frame ++ (7 ∷ (register_30_frame ++ [])))

wire-IsSent : IsSent true (am ∷ register_30 ∷ []) wire
unfolding packed fixed set_modulation_checks build_frame wrap obfuscate obfuscate_from crc16
    crc_loop crc_shifts crc_shift pack fits fields le
wire-IsSent = (
  1 ∷ 0xCD ∷ [],
  am_frame,
  7 ∷ (register_30_frame ++ []),
  refl,
  ((λ e. absurd (omega arith)), ((λ e. absurd (omega arith)), tt)),
  refl,
  refl,
  (7 ∷ [], register_30_frame, [], tt, ((λ e. absurd (omega arith)), tt), refl, refl, refl),
)

parse_stream_example :
    map parse_frame (feed (Frame.new true true) wire).0
    ≡ some (typed am) ∷ some (typed register_30) ∷ []
parse_stream_example =
    parse_stream (Frame.new true true) (am ∷ register_30 ∷ []) wire refl wire-IsSent

-- A truncated frame, then silence.
abbrev junk : Bytes
junk = 0xAB ∷ 0xCD ∷ 254 ∷ 0 ∷ 1 ∷ 2 ∷ []

abbrev silence : Bytes
silence = replicate 261 0

silence-IsNoise : (n : ℕ) → All (λ (b : ℕ). b ≢ 0xAB) (replicate n 0)
silence-IsNoise zero = tt
silence-IsNoise (suc n) = ((λ e. absurd (omega arith)), silence-IsNoise n)

abbrev am_stream : List (ℕ × Bytes)
am_stream = (0x877, 1 ∷ []) ∷ []

am_stream-IsStream : IsStream true am_stream (3 ∷ (am_frame ++ []))
unfolding build_frame wrap obfuscate obfuscate_from crc16 crc_loop crc_shifts crc_shift pack fits
    fields le
am_stream-IsStream = (3 ∷ [], am_frame, [], ((λ e. absurd (omega arith)), tt), refl, refl, refl)

feed_resync_example :
    (feed (feed (feed (Frame.new true true) junk).1 silence).1 (3 ∷ (am_frame ++ []))).0
    ≡ map payload_of am_stream
feed_resync_example =
    feed_resync true true junk silence am_stream (3 ∷ (am_frame ++ [])) (silence-IsNoise 261)
      (omega arith) am_stream-IsStream

feed-IsBounded_example : IsBounded (feed (Frame.new true false) junk).1
feed-IsBounded_example = feed-IsBounded (Frame.new true false) junk tt

-- The parameter of AM arrives as FM.
feed_corrupt_example :
    (d' : Uvk5Decoder) × Waits (Frame.new true true) d'
    × (feed
          (Frame.new true true)
          (wrap true (0x77 ∷ 8 ∷ 1 ∷ 0 ∷ 0 ∷ []) (crc16 (0x77 ∷ 8 ∷ 1 ∷ 0 ∷ 1 ∷ [])) ++ am_frame)
        ≡ feed d' am_frame)
feed_corrupt_example =
    feed_corrupt (Frame.new true true) (0x77 ∷ 8 ∷ 1 ∷ 0 ∷ []) [] 1 0 am_frame refl refl
      (omega arith) tt (omega arith) (omega arith) (λ e. absurd (omega arith))

-- A register reading, the status of which is not asked.
abbrev reading : Bytes
reading = 0x51 ∷ 9 ∷ 4 ∷ 0 ∷ 0x30 ∷ 0 ∷ 0xF1 ∷ 0xBF ∷ []

reading_parsed : parse_frame reading ≡ some (typed register_30)
unfolding parse_frame dispatch fixed bare register_info_of unpack unpack_from un_le
reading_parsed = refl

parse_frame-opcode_example : opcode_of reading ≡ (packed register_30).0
parse_frame-opcode_example = parse_frame-opcode reading register_30 reading_parsed

-- TUNE to 104.3 MHz in the first band.
abbrev station : SetBroadcastFm
station = record { action = tune; hz = some 104300000; band = 0 }

abbrev station_params : Bytes
station_params = 2 ∷ 224 ∷ 125 ∷ 55 ∷ 6 ∷ 0 ∷ []

broadcast_fm_mirror_example :
    IsTune (reads station_params)
    × (reads (0 ∷ 0 ∷ 0 ∷ 0 ∷ 0 ∷ 0 ∷ []) ≡ some (0 ∷ 0 ∷ 0 ∷ []))
    × (reads (2 ∷ 0 ∷ 0 ∷ 0 ∷ 0 ∷ 0 ∷ []) ≡ some (2 ∷ 0 ∷ 0 ∷ []))
unfolding set_broadcast_fm_checks set_broadcast_fm_pack clear_broadcast_fm_pack
    probe_broadcast_fm_pack pack fits fields le
broadcast_fm_mirror_example =
    broadcast_fm_mirror station station_params refl refl (0 ∷ 0 ∷ 0 ∷ 0 ∷ 0 ∷ 0 ∷ [])
      (2 ∷ 0 ∷ 0 ∷ 0 ∷ 0 ∷ 0 ∷ []) refl refl
