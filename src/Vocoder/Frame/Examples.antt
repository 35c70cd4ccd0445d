-- ===== src/Vocoder/Frame/Examples.antt =====
-- The theorems about radio_server/vocoder/frames.py at concrete inputs.
use radio_server.Base.{◌<◌, ◌≡◌, refl, [], ◌∷◌, some, length, arith}
use radio_server.Base.Struct.{Bytes, le}
use radio_server.Vocoder.Frame.{
  max_packet_len, Packet, ResponseKind, build_decode_ambe_packet, build_packet, classify, same,
  ambe_voice_frame, round, feed,
}
use radio_server.Vocoder.Frame.Pieces.{feed_all, feed_all-wire_all, feed_ends}
use radio_server.Vocoder.Frame.Voice.{voice_round_trip}
use radio_server.Base.{none}

abbrev stop_packet : Packet
stop_packet = record { type_bits = 0; payload = 0x18 ∷ 0 ∷ 0 ∷ [] }

abbrev ping : Packet
ping = record { type_bits = 5; payload = 9 ∷ [] }

stop_classified : classify stop_packet ≡ some ResponseKind.stop
unfolding classify build_packet same le
stop_classified = refl

-- Two packets in three pieces.
feed_all-wire_all_example :
    feed_all [] ((5 ∷ []) ∷ (0 ∷ 0x18 ∷ 0 ∷ []) ∷ (0 ∷ 3 ∷ 0xA0 ∷ 9 ∷ []) ∷ [])
    ≡ (stop_packet ∷ ping ∷ [], [])
unfolding le
feed_all-wire_all_example =
    feed_all-wire_all (stop_packet ∷ ping ∷ [])
      ((5 ∷ []) ∷ (0 ∷ 0x18 ∷ 0 ∷ []) ∷ (0 ∷ 3 ∷ 0xA0 ∷ 9 ∷ []) ∷ [])
      (
        record { type_small = omega arith; payload_small = omega arith },
        (record { type_small = omega arith; payload_small = omega arith }, tt),
      )
      refl

feed_ends_example :
    (round (feed (1 ∷ 0 ∷ []) (2 ∷ 0 ∷ 5 ∷ [])).1 ≡ none)
    × (length (feed (1 ∷ 0 ∷ []) (2 ∷ 0 ∷ 5 ∷ [])).1 < max_packet_len)
feed_ends_example = feed_ends (1 ∷ 0 ∷ []) (2 ∷ 0 ∷ 5 ∷ [])

abbrev voice : Bytes
voice = 1 ∷ 2 ∷ 3 ∷ 4 ∷ 5 ∷ 6 ∷ 7 ∷ 8 ∷ 9 ∷ []

voice_round_trip_example :
    (bytes : Bytes) × (p : Packet) × (build_decode_ambe_packet voice ≡ some bytes)
    × (feed [] bytes ≡ (p ∷ [], []))
    × (classify p ≡ some ResponseKind.ambe)
    × (ambe_voice_frame p ≡ voice)
voice_round_trip_example = voice_round_trip voice refl
