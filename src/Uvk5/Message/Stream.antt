-- ===== src/Uvk5/Message/Stream.antt =====
-- The whole receive path of radio_server/backends/uvk5/frames.py: `Uvk5Decoder.feed`, then `parse_frame`.
use radio_server.Base.{
  and_then, and_then-some, ℕ, ◌<◌, Bool, ◌≡◌, refl, ap, ◌∙◌, List, [], ◌∷◌, ◌++◌, Option, some,
  length, All, map, arith, length-append,
}
use radio_server.Base.Struct.{Bytes, fields}
use radio_server.Uvk5.Frame.{inner_header, build_frame, Uvk5Decoder, idle, feed}
use radio_server.Uvk5.Frame.RoundTrip.{
  payload_of, IsNoise, IsStream, build_frame-shape, feed_stream,
}
use radio_server.Uvk5.Message.Parse.{Message, typed, packed, parse_frame}
use radio_server.Uvk5.Message.RoundTrip.{IsValid, parse_frame-packed}

-- `to_frame` of a message of any class.
abbrev pub frame_of : Bool → Message → Option Bytes
frame_of o m = and_then (packed m).1 (build_frame o (packed m).0)

-- Valid messages, each sent as the frame of its class behind noise.
abbrev pub IsSent : Bool → List Message → Bytes → Type 0
IsSent o [] w = w ≡ []
IsSent o (m ∷ ms) w =
    (noise frame rest : Bytes) × IsValid m
    × All IsNoise noise
    × (frame_of o m ≡ some frame)
    × (w ≡ noise ++ (frame ++ rest))
    × IsSent o ms rest

-- A stream of frames, and what `parse_frame` makes of their payloads.
sent_frames :
    (o : Bool) (ms : List Message) (w : Bytes)
    → IsSent o ms w
    → (fs : List (ℕ × Bytes)) × IsStream o fs w
      × (map parse_frame (map payload_of fs) ≡ map (λ m. some (typed m)) ms)
sent_frames o [] w e = ([], e, refl)
sent_frames o (m ∷ ms) w (noise, frame, rest, valid, clean, built, shape, more) =
    let (params, packed_as, framed) =
      and_then-some (packed m).1 (build_frame o (packed m).0) frame built in
    let (fs, stream, back) = sent_frames o ms rest more in
    let (_, _, small) = build_frame-shape o (packed m).0 params frame framed in
    let n : length params < 65536 =
      omega
        (arith, length-append (fields inner_header ((packed m).0 ∷ length params ∷ [])) params) in
    (
      ((packed m).0, params) ∷ fs,
      (noise, frame, rest, clean, framed, shape, stream),
      ap (λ p. p ∷ map parse_frame (map payload_of fs))
            (parse_frame-packed m params valid packed_as n)
          ∙ ap (λ l. some (typed m) ∷ l) back,
    )

-- Valid messages of any of the classes, sent as frames behind noise that starts no frame, come out of a
-- waiting decoder and `parse_frame` as the same messages in the same order.
pub parse_stream :
    (d : Uvk5Decoder) (ms : List Message) (w : Bytes)
    → d.stage ≡ idle
    → IsSent d.obfuscated ms w
    → map parse_frame (feed d w).0 ≡ map (λ m. some (typed m)) ms
parse_stream d ms w waits sent =
    let (fs, stream, back) = sent_frames d.obfuscated ms w sent in
    ap (map parse_frame) (feed_stream d fs w waits stream).0 ∙ back
