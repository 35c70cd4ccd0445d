-- ===== src/Vocoder/Frame/Voice.antt =====
-- A voice frame on its way to the DV Dongle, in radio_server/vocoder/frames.py.
use radio_server.Base.{
  ◌+◌, ◌≡◌, refl, sym, ap, ◌∙◌, true, ◌&&◌, [], ◌∷◌, ◌++◌, Option, none, some, length, take, drop,
  ltb, ◌==◌, ==_iff, if◌then◌else◌, arith, append-nil, length-append, take-append, drop-append,
  and_then,
}
use radio_server.Base.Struct.{Bytes}
use radio_server.Vocoder.Frame
use radio_server.Vocoder.Frame.{
  header_len, length_range, type_ambe, type_audio, ambe_payload_len, ambe_voice_offset,
  voice_frame_len, ambe_dec_params, build_packet, build_ambe_packet, build_decode_ambe_packet,
  Packet, raw, kind_of, ResponseKind, classify, ambe_voice_frame, feed,
}
use radio_server.Vocoder.Frame.Deframe.{IsSent, wire}
use radio_server.Vocoder.Frame.Pieces.{feed_all-wire_all}

-- The packet that a voice frame is sent in.
abbrev pub voice_packet : Bytes → Packet
voice_packet voice = record {
  type_bits = type_ambe;
  payload =
      take ambe_voice_offset ambe_dec_params
      ++ voice
      ++ drop (ambe_voice_offset + voice_frame_len) ambe_dec_params;
}

voice_packet_long :
    (voice : Bytes)
    → length voice ≡ voice_frame_len
    → length (voice_packet voice).payload ≡ ambe_payload_len
voice_packet_long voice h =
    length-append (take ambe_voice_offset ambe_dec_params)
      (voice ++ drop (ambe_voice_offset + voice_frame_len) ambe_dec_params)
    ∙ omega
        (arith, h, length-append voice (drop (ambe_voice_offset + voice_frame_len) ambe_dec_params))

built_lem :
    (voice : Bytes)
    → length voice ≡ voice_frame_len
    → build_decode_ambe_packet voice ≡ some (wire (voice_packet voice))
unfolding build_decode_ambe_packet build_ambe_packet build_packet
built_lem voice h =
    let payload = (voice_packet voice).payload in
    let n = voice_packet_long voice h in
    let fits : ltb (header_len + length payload) length_range ≡ true = ground (arith, n) in
    ap (λ c. if c then build_ambe_packet payload else none)
      ((==_iff (length voice) voice_frame_len).1 h)
    ∙ ap (λ c. if c then build_packet type_ambe payload else none)
        ((==_iff (length payload) ambe_payload_len).1 n)
    ∙ ap (λ c. if c then some (wire (voice_packet voice)) else none) fits

voice_lem :
    (voice : Bytes) → length voice ≡ voice_frame_len → ambe_voice_frame (voice_packet voice) ≡ voice
unfolding ambe_voice_frame
voice_lem voice h =
    let tail = drop (ambe_voice_offset + voice_frame_len) ambe_dec_params in
    ap (take voice_frame_len)
      (drop-append ambe_voice_offset (take ambe_voice_offset ambe_dec_params) (voice ++ tail) refl)
    ∙ take-append voice_frame_len voice tail h

-- A voice frame of nine bytes is built into a packet, which a new decoder that is fed it takes as one packet;
-- that is classified as AMBE, and the voice frame in it is the one that was sent.
pub voice_round_trip :
    (voice : Bytes)
    → length voice ≡ voice_frame_len
    → (bytes : Bytes) × (p : Packet) × (build_decode_ambe_packet voice ≡ some bytes)
      × (feed [] bytes ≡ (p ∷ [], []))
      × (classify p ≡ some ResponseKind.ambe)
      × (ambe_voice_frame p ≡ voice)
unfolding classify
voice_round_trip voice h =
    let p = voice_packet voice in
    let n = voice_packet_long voice h in
    let sent : IsSent p = record { type_small = omega arith; payload_small = omega (arith, n) } in
    let other : Option ResponseKind =
      if (p.type_bits == type_audio) && (length p.payload == Frame.audio_payload_len)
      then some ResponseKind.audio
      else and_then (raw p) (λ bytes. some (kind_of bytes)) in
    let fed = feed_all-wire_all (p ∷ []) (wire p ∷ []) (sent, tt) refl in
    let held : (feed [] (wire p)).1 ≡ [] = ap (λ r. r.1) fed in
    let packets : (feed [] (wire p)).0 ≡ p ∷ [] =
      sym (append-nil (feed [] (wire p)).0) ∙ ap (λ r. r.0) fed in
    (
      wire p,
      p,
      built_lem voice h,
      ap (λ ps. (ps, (feed [] (wire p)).1)) packets ∙ ap (λ l. (p ∷ [], l)) held,
      ap (λ c. if c then some ResponseKind.ambe else other)
          ((==_iff (length p.payload) ambe_payload_len).1 n),
      voice_lem voice h,
    )
