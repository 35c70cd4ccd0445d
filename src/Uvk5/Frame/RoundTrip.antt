-- ===== src/Uvk5/Frame/RoundTrip.antt =====
-- `build_frame` and `Uvk5Decoder` of radio_server/backends/uvk5/frames.py against one another.
use mathlib.Core.Path.{subst}
use mathlib.Core.Option.{none-ne-some, some_inj}
use radio_server.Base.{
  ℕ, ◌<◌, ◌≤◌, Bool, true, false, ◌&&◌, not, ◌≡◌, ◌≢◌, refl, sym, ap, ◌∙◌, List, [], ◌∷◌, ◌++◌,
  none, some, length, ltb, ◌==◌, All, map, arith, if_intro, length-append,
}
use radio_server.Base.Struct
use radio_server.Base.Struct.{Bytes, le, un_le, un_le-le, length-le, length-fields, fits, fields}
use radio_server.Uvk5.Frame.{
  max_payload_size, crc16, wrap, inner_header, wrapped, build_frame, idle, Uvk5Decoder, step, emit,
  feed,
}
use radio_server.Uvk5.Frame.Decode.{feed_step, Waits, feed-wrap, verdict, crc16-lt}

-- The payload of a command: its opcode and the length of its parameters, and these.
abbrev pub payload_of : ℕ × Bytes → Bytes
payload_of (command, params) = fields inner_header (command ∷ length params ∷ []) ++ params

-- Bytes between frames, none of which starts one.
abbrev pub IsNoise : ℕ → Type 0
IsNoise b = b ≢ 0xAB

-- Frames that `build_frame` built, each behind some noise.
abbrev pub IsStream : Bool → List (ℕ × Bytes) → Bytes → Type 0
IsStream o [] w = w ≡ []
IsStream o ((command, params) ∷ ms) w =
    (noise frame rest : Bytes) × All IsNoise noise
    × (build_frame o command params ≡ some frame)
    × (w ≡ noise ++ (frame ++ rest))
    × IsStream o ms rest

idle_step : (b : ℕ) (d : Uvk5Decoder) → b ≢ 0xAB → step idle b d ≡ (none, d)
unfolding step
idle_step b d n = let t : (b == 0xAB) ≡ false = ground arith in simp (t)

-- Noise leaves a decoder that waits as it is.
pub feed_noise :
    (noise rest : Bytes) (d : Uvk5Decoder)
    → d.stage ≡ idle
    → All IsNoise noise
    → feed d (noise ++ rest) ≡ feed d rest
feed_noise [] rest d e h = refl
feed_noise (b ∷ noise) rest d e (n, h) =
    feed_step b (noise ++ rest) d d (ap (λ s. step s b d) e ∙ idle_step b d n)
    ∙ feed_noise noise rest d e h

-- Of what is wrapped, the size is checked.
wrapped-fields :
    (o : Bool) (params head frame : Bytes)
    → 0 < length head
    → wrapped o params (some head) ≡ some frame
    → (frame ≡ wrap o (head ++ params) (crc16 (head ++ params)))
      × (0 < length (head ++ params))
      × (length (head ++ params) ≤ max_payload_size)
wrapped-fields o params head frame pos e =
    let l = length-append head params in
    if_intro
      (λ v.
        v ≡ some frame
        → (frame ≡ wrap o (head ++ params) (crc16 (head ++ params)))
          × (0 < length (head ++ params))
          × (length (head ++ params) ≤ max_payload_size))
      (ltb max_payload_size (length (head ++ params))) (λ t. λ e. absurd (none-ne-some frame e))
      (λ t. λ e. (sym (some_inj.0 e), omega (arith, l), ground arith)) e

-- What a frame is.
pub build_frame-shape :
    (o : Bool) (command : ℕ) (params frame : Bytes)
    → build_frame o command params ≡ some frame
    → (frame ≡ wrap o (payload_of (command, params)) (crc16 (payload_of (command, params))))
      × (0 < length (payload_of (command, params)))
      × (length (payload_of (command, params)) ≤ max_payload_size)
unfolding build_frame Struct.pack
build_frame-shape o command params frame e =
    let head = fields inner_header (command ∷ length params ∷ []) in
    if_intro
      (λ v.
        wrapped o params v ≡ some frame
        → (frame ≡ wrap o (head ++ params) (crc16 (head ++ params)))
          × (0 < length (head ++ params))
          × (length (head ++ params) ≤ max_payload_size))
      (fits inner_header (command ∷ length params ∷ []))
      (λ t.
        wrapped-fields o params head frame
          (omega (arith, length-fields inner_header (command ∷ length params ∷ []) t)))
      (λ t. λ e. absurd (none-ne-some frame e)) e

verdict_sound :
    (d : Uvk5Decoder) (payload : Bytes) → verdict d payload (crc16 payload) ≡ some payload
verdict_sound d payload =
    let t : (crc16 payload == crc16 payload) ≡ true = ground arith in
    if_intro (λ v. v ≡ some payload) (d.validate_crc && not (crc16 payload == crc16 payload))
      (λ h. absurd (ground arith)) (λ h. refl)

-- One frame behind noise.
feed_one :
    (d : Uvk5Decoder) (command : ℕ) (params noise frame rest : Bytes)
    → d.stage ≡ idle
    → All IsNoise noise
    → build_frame d.obfuscated command params ≡ some frame
    → (d' : Uvk5Decoder) × Waits d d'
      × (feed d (noise ++ (frame ++ rest))
          ≡ (payload_of (command, params) ∷ (feed d' rest).0, (feed d' rest).1))
feed_one d command params noise frame rest st clean built =
    let p = payload_of (command, params) in
    let (shape, pos, small) = build_frame-shape d.obfuscated command params frame built in
    let (d', w, e) = feed-wrap d p (crc16 p) rest st pos small (crc16-lt p) in
    (
      d',
      w,
      feed_noise noise (frame ++ rest) d st clean
          ∙ ap (λ f. feed d (f ++ rest)) shape
          ∙ e
          ∙ ap (λ f. (emit f (feed d' rest).0, (feed d' rest).1)) (verdict_sound d p),
    )

-- A stream of frames, each behind noise that starts no frame, comes out of a waiting decoder as the
-- payloads that went in, all of them and in order, whether CRCs are validated or not; the decoder
-- waits again after it.
pub feed_stream :
    (d : Uvk5Decoder) (ms : List (ℕ × Bytes)) (w : Bytes)
    → d.stage ≡ idle
    → IsStream d.obfuscated ms w
    → ((feed d w).0 ≡ map payload_of ms) × ((feed d w).1.stage ≡ idle)
unfolding feed
feed_stream d [] w st e = (ap (λ w. (feed d w).0) e, ap (λ w. (feed d w).1.stage) e ∙ st)
feed_stream d ((command, params) ∷ ms) w st (noise, frame, rest, clean, built, shape, more) =
    let (d', wait, e) = feed_one d command params noise frame rest st clean built in
    let (all, after) =
      feed_stream d' ms rest wait.waits
        (subst (λ o. IsStream o ms rest) (sym wait.same_obfuscated) more) in
    let e' = ap (feed d) shape ∙ e in
    (
      ap (λ (r : List Bytes × Uvk5Decoder). r.0) e'
          ∙ ap (λ l. payload_of (command, params) ∷ l) all,
      ap (λ (r : List Bytes × Uvk5Decoder). r.1.stage) e' ∙ after,
    )
