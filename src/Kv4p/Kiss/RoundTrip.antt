-- ===== src/Kv4p/Kiss/RoundTrip.antt =====
-- `build_kiss_frame` and `KissDecoder` of radio_server/backends/kv4p/frames.py against one another.
use radio_server.Base.{
  ℕ, ◌+◌, ◌%◌, ◌≤◌, ◌<◌, true, false, List, [], ◌∷◌, ◌++◌, length, length-append, ◌≡◌, ◌≢◌, refl,
  ap, sym, ◌∙◌, arith, All, append_assoc, append-nil,
}
use radio_server.Kv4p.Kiss.{
  Bytes, fend, fesc, max_frame_size, escape, build_kiss_frame, KissDecoder, append, pending,
  unescape, process, emit, feed,
}
use radio_server.Kv4p.Kiss.Stream.{feed-append}

-- A decoder inside a frame of which it has `acc`.
abbrev pub holding : Bytes → KissDecoder
holding acc = record { buf = acc; escaped = false; drop = false; in_frame = true }

-- What the delimiter of the next frame closes.
abbrev pub closed : KissDecoder → List Bytes
closed d = emit (pending d) []

pub feed-fend : (d : KissDecoder) → feed d (fend ∷ []) ≡ (closed d, holding [])
unfolding feed process
feed-fend d = refl

-- The escaped form of one byte adds that byte.
pub feed_plain :
    (acc : Bytes) (b : ℕ)
    → b ≢ fend
    → b ≢ fesc
    → length acc < max_frame_size
    → feed (holding acc) (b ∷ []) ≡ ([], holding (acc ++ (b ∷ [])))
unfolding feed process append
feed_plain acc b n m h = ground arith

pub feed_escaped :
    (acc : Bytes) (b : ℕ)
    → length acc < max_frame_size
    → feed (holding acc) (escape (b ∷ [])) ≡ ([], holding (acc ++ (b ∷ [])))
unfolding escape feed process append unescape
feed_escaped acc b h = ground arith

pub escape-cons : (b : ℕ) (bs : Bytes) → escape (b ∷ bs) ≡ escape (b ∷ []) ++ escape bs
unfolding escape
escape-cons b bs = ground arith

-- Two chunks in turn, when the frames and the state after each are known.
pub feed_then :
    (xs ys : Bytes) (d e f : KissDecoder) (fs gs : List Bytes)
    → feed d xs ≡ (fs, e)
    → feed e ys ≡ (gs, f)
    → feed d (xs ++ ys) ≡ (fs ++ gs, f)
feed_then xs ys d e f fs gs p q =
    feed-append xs ys d
    ∙ ap (λ (r : List Bytes × KissDecoder). (r.0 ++ (feed r.1 ys).0, (feed r.1 ys).1)) p
    ∙ ap (λ (r : List Bytes × KissDecoder). (fs ++ r.0, r.1)) q

escape_nil : escape [] ≡ []
unfolding escape
escape_nil = refl

feed_nil : (d : KissDecoder) → feed d [] ≡ ([], d)
unfolding feed
feed_nil d = refl

feed_body :
    (acc payload : Bytes)
    → length acc + length payload ≤ max_frame_size
    → feed (holding acc) (escape payload) ≡ ([], holding (acc ++ payload))
feed_body acc [] h =
    ap (feed (holding acc)) escape_nil
    ∙ feed_nil (holding acc)
    ∙ ap (λ l. ([], holding l)) (sym (append-nil acc))
feed_body acc (b ∷ bs) h =
    ap (feed (holding acc)) (escape-cons b bs)
    ∙ feed_then (escape (b ∷ [])) (escape bs) (holding acc) _ _ [] []
        (feed_escaped acc b (omega arith))
        (feed_body (acc ++ (b ∷ [])) bs (omega (arith, length-append acc (b ∷ []))))
    ∙ ap (λ l. ([], holding l)) (append_assoc acc (b ∷ []) bs)

-- A frame that was built is decoded whole, from any state of the decoder: the frame's first delimiter
-- closes what was pending, the frame follows as command byte and payload, and the decoder is left at
-- the start of a frame. The command byte is none of the two that it is written unescaped for, and the
-- frame fits.
pub feed-build_kiss_frame :
    (d : KissDecoder) (command_byte : ℕ) (payload : Bytes)
    → command_byte % 256 ≢ fend
    → command_byte % 256 ≢ fesc
    → length payload < max_frame_size
    → feed d (build_kiss_frame command_byte payload)
      ≡ (closed d ++ ((command_byte % 256 ∷ payload) ∷ []), holding [])
unfolding build_kiss_frame
feed-build_kiss_frame d command_byte payload n m h =
    let c : ℕ = command_byte % 256 in
    feed_then (fend ∷ []) (c ∷ (escape payload ++ (fend ∷ []))) d (holding []) (holding [])
      (closed d) ((c ∷ payload) ∷ []) (feed-fend d)
      (feed_then (c ∷ []) (escape payload ++ (fend ∷ [])) (holding []) (holding (c ∷ []))
        (holding []) [] ((c ∷ payload) ∷ []) (feed_plain [] c n m (omega arith))
        (feed_then (escape payload) (fend ∷ []) (holding (c ∷ [])) (holding (c ∷ payload))
          (holding []) [] ((c ∷ payload) ∷ []) (feed_body (c ∷ []) payload (omega arith))
          (feed-fend (holding (c ∷ payload)) ∙ (unfold pending in refl))))

-- A stream of frames.
pub build_all : List (ℕ × Bytes) → Bytes
build_all [] = []
build_all ((c, p) ∷ fs) = build_kiss_frame c p ++ build_all fs

abbrev pub decoded : List (ℕ × Bytes) → List Bytes
decoded [] = []
decoded ((c, p) ∷ fs) = (c % 256 ∷ p) ∷ decoded fs

abbrev pub Encodable : ℕ × Bytes → Type 0
Encodable (c, p) = (c % 256 ≢ fend) × (c % 256 ≢ fesc) × (length p < max_frame_size)

feed_frames :
    (fs : List (ℕ × Bytes))
    → All Encodable fs
    → feed (holding []) (build_all fs) ≡ (decoded fs, holding [])
unfolding build_all
feed_frames [] e = feed_nil (holding [])
feed_frames ((c, p) ∷ fs) ((n, m, h), e) =
    feed_then (build_kiss_frame c p) (build_all fs) (holding []) (holding []) (holding [])
      ((c % 256 ∷ p) ∷ []) (decoded fs)
      (feed-build_kiss_frame (holding []) c p n m h
        ∙ (ap (λ l. (l ++ ((c % 256 ∷ p) ∷ []), holding [])) closed_nil))
      (feed_frames fs e)
  where
    closed_nil : closed (holding []) ≡ []
    closed_nil = unfold pending in refl

-- From any state, so whatever noise came before, a stream of one or more frames that fit, with command
-- bytes other than FEND and FESC (which are not escaped), comes out whole and in order, each frame once,
-- behind what the first delimiter closes, and the decoder is left at the start of a frame.
pub feed-build_all :
    (d : KissDecoder) (f : ℕ × Bytes) (fs : List (ℕ × Bytes))
    → All Encodable (f ∷ fs)
    → feed d (build_all (f ∷ fs)) ≡ (closed d ++ decoded (f ∷ fs), holding [])
unfolding build_all
feed-build_all d (c, p) fs ((n, m, h), e) =
    feed_then (build_kiss_frame c p) (build_all fs) d (holding []) (holding [])
      (closed d ++ ((c % 256 ∷ p) ∷ [])) (decoded fs) (feed-build_kiss_frame d c p n m h)
      (feed_frames fs e)
    ∙ ap (λ l. (l, holding [])) (append_assoc (closed d) ((c % 256 ∷ p) ∷ []) (decoded fs))
