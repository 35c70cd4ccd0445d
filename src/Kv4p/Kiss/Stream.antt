-- ===== src/Kv4p/Kiss/Stream.antt =====
-- `KissDecoder` of radio_server/backends/kv4p/frames.py over a stream that is cut anywhere.
use mathlib.Core.Bool.{false≢true}
use radio_server.Base.{
  ℕ, ◌≤◌, false, List, [], ◌∷◌, ◌++◌, Option, none, some, length, length-append, ◌≡◌, refl, ap, sym,
  All, ◌<◌, ◌∙◌, arith,
}
use radio_server.Kv4p.Kiss.{
  Bytes, KissDecoder, process, append, unescape, pending, emit, feed, max_frame_size, fend, fesc,
  is_empty,
}

emit-append : (f : Option Bytes) (fs gs : List Bytes) → emit f fs ++ gs ≡ emit f (fs ++ gs)
emit-append none fs gs = refl
emit-append (some f) fs gs = refl

-- How the bytes are cut into chunks does not matter: feeding two chunks in turn gives the frames, and
-- leaves the decoder, of feeding them as one.
pub feed-append :
    (xs ys : Bytes) (d : KissDecoder)
    → feed d (xs ++ ys) ≡ ((feed d xs).0 ++ (feed (feed d xs).1 ys).0, (feed (feed d xs).1 ys).1)
unfolding feed
feed-append [] ys d = refl
feed-append (x ∷ xs) ys d =
    let (f, d') = process x d in
    let (gs, d'') = feed d' xs in
    ap (λ (q : List Bytes × KissDecoder). (emit f q.0, q.1)) (feed-append xs ys d')
    ∙ ap (λ l. (l, (feed d'' ys).1)) (sym (emit-append f gs (feed d'' ys).0))

append-bounded :
    (b : ℕ) (d : KissDecoder)
    → length d.buf ≤ max_frame_size
    → length (append b d).buf ≤ max_frame_size
unfolding append
append-bounded b d h = ground (arith, length-append d.buf (b ∷ []))

process-bounded :
    (b : ℕ) (d : KissDecoder)
    → length d.buf ≤ max_frame_size
    → length (process b d).1.buf ≤ max_frame_size
unfolding process unescape
process-bounded b d h =
    let plain = record d { escaped = false } in
    ground (arith, append-bounded b d, append-bounded fend plain, append-bounded fesc plain)

nonempty : (bs : Bytes) → is_empty bs ≡ false → 0 < length bs
nonempty [] h = absurd (false≢true (sym h))
nonempty (b ∷ bs) h = omega arith

-- A frame is not empty and no longer than the largest.
abbrev pub FrameFits : Bytes → Type 0
FrameFits f = (0 < length f) × (length f ≤ max_frame_size)

emitted-bounded :
    (b : ℕ) (d : KissDecoder) (f : Bytes)
    → length d.buf ≤ max_frame_size
    → (process b d).0 ≡ some f
    → FrameFits f
unfolding process pending
emitted-bounded b d f h e = ground (arith, nonempty d.buf)

All-emit :
    (o : Option Bytes) (fs : List Bytes)
    → ((f : Bytes) → o ≡ some f → FrameFits f)
    → All FrameFits fs
    → All FrameFits (emit o fs)
All-emit none fs h a = a
All-emit (some f) fs h a = (h f refl, a)

-- Whatever bytes arrive, in whatever state: every frame that the decoder hands on has 1 to 2055
-- bytes, and what it holds back never outgrows 2055 bytes.
pub feed-bounded :
    (bs : Bytes) (d : KissDecoder)
    → length d.buf ≤ max_frame_size
    → All FrameFits (feed d bs).0 × (length (feed d bs).1.buf ≤ max_frame_size)
unfolding feed
feed-bounded [] d h = (tt, h)
feed-bounded (b ∷ bs) d h =
    let (rest, fits) = feed-bounded bs (process b d).1 (process-bounded b d h) in
    (All-emit (process b d).0 _ (λ f. emitted-bounded b d f h) rest, fits)
