-- ===== src/Kv4p/Kiss/Oversize.antt =====
-- Frames that are too long, and an escape that the delimiter cuts off, in
-- radio_server/backends/kv4p/frames.py.
use radio_server.Base.{
  ℕ, ◌+◌, ◌%◌, ◌≤◌, ◌<◌, true, false, [], ◌∷◌, ◌++◌, length, length-append, ◌≡◌, ◌≢◌, refl, ap, ◌∙◌,
  arith, All, append_assoc, append-nil,
}
use radio_server.Kv4p.Kiss.{
  Bytes, fend, fesc, max_frame_size, escape, build_kiss_frame, KissDecoder, append, pending,
  unescape, process, feed,
}
use radio_server.Kv4p.Kiss.RoundTrip.{
  holding, closed, feed-fend, feed_plain, feed_escaped, feed_then, escape-cons,
}
use native.Mathlib.Decide.{dec_lt}

-- No delimiter among the bytes.
abbrev pub NoFend : Bytes → Type 0
NoFend = All (λ b. b ≢ fend)

-- A frame that is being dropped stays dropped up to the next delimiter, which hands nothing on.
pub drop-until_fend :
    (bs : Bytes) (d : KissDecoder)
    → NoFend bs
    → d.drop ≡ true
    → (feed d bs ≡ ([], d))
      × (feed d (bs ++ (fend ∷ []))
          ≡ ([], record { buf = []; escaped = false; drop = false; in_frame = true }))
unfolding feed process pending
drop-until_fend [] d n h = (refl, ground arith)
drop-until_fend (b ∷ bs) d (nb, n) h =
    let (p, q) = drop-until_fend bs d n h in (ground (arith, p), ground (arith, q))

-- The next frame starts clean.
abbrev fresh : KissDecoder
fresh = holding []

NoFend-escape : (bs : Bytes) → NoFend (escape bs)
unfolding escape
NoFend-escape [] = tt
NoFend-escape (b ∷ bs) = ground (arith, NoFend-escape bs)

-- The byte that does not fit any more marks the frame.
feed_overflow :
    (acc : Bytes) (b : ℕ)
    → max_frame_size ≤ length acc
    → feed (holding acc) (escape (b ∷ [])) ≡ ([], record (holding acc) { drop = true })
unfolding escape feed process append unescape
feed_overflow acc b h = ground arith

feed_too_long :
    (acc payload : Bytes)
    → length acc ≤ max_frame_size
    → max_frame_size < length acc + length payload
    → feed (holding acc) (escape payload ++ (fend ∷ [])) ≡ ([], fresh)
feed_too_long acc [] le h = absurd (omega arith)
feed_too_long acc (b ∷ bs) le h = elim (dec_lt (length acc) max_frame_size) [
  | yes lt ↦
      split
      ∙ feed_then (escape (b ∷ [])) _ _ _ fresh [] [] (feed_escaped acc b lt) (
          feed_too_long (acc ++ (b ∷ [])) bs (omega (arith, length-append acc (b ∷ [])))
            (omega (arith, length-append acc (b ∷ []))))
  | no ge ↦
      split
      ∙ feed_then (escape (b ∷ [])) _ _ _ fresh [] [] (feed_overflow acc b (omega arith))
          (drop-until_fend (escape bs) _ (NoFend-escape bs) refl).1
]
  where
    split :
        feed (holding acc) (escape (b ∷ bs) ++ (fend ∷ []))
        ≡ feed (holding acc) (escape (b ∷ []) ++ (escape bs ++ (fend ∷ [])))
    split =
        ap (λ l. feed (holding acc) (l ++ (fend ∷ []))) (escape-cons b bs)
        ∙ ap (feed (holding acc)) (append_assoc (escape (b ∷ [])) (escape bs) (fend ∷ []))

-- A frame that does not fit, with a command byte other than FEND and FESC (which is not escaped), is
-- dropped whole, from any state: nothing but what was pending before it comes out, no truncated frame, and
-- the next frame starts clean.
pub oversize_dropped :
    (d : KissDecoder) (command_byte : ℕ) (payload : Bytes)
    → command_byte % 256 ≢ fend
    → command_byte % 256 ≢ fesc
    → max_frame_size ≤ length payload
    → feed d (build_kiss_frame command_byte payload) ≡ (closed d, holding [])
unfolding build_kiss_frame
oversize_dropped d command_byte payload n m h =
    let c : ℕ = command_byte % 256 in
    feed_then (fend ∷ []) (c ∷ (escape payload ++ (fend ∷ []))) d (holding []) fresh (closed d) []
      (feed-fend d)
      (feed_then (c ∷ []) (escape payload ++ (fend ∷ [])) (holding []) (holding (c ∷ [])) fresh []
        [] (feed_plain [] c n m (omega arith))
        (feed_too_long (c ∷ []) payload (omega arith) (omega arith)))
    ∙ ap (λ l. (l, fresh)) (append-nil (closed d))

-- An escape that the delimiter itself follows drops nothing: the frame comes out as it stood.
pub escape_before_fend :
    (x : ℕ) (acc : Bytes)
    → feed (holding (x ∷ acc)) (fesc ∷ fend ∷ []) ≡ ((x ∷ acc) ∷ [], holding [])
unfolding feed process pending
escape_before_fend x acc = refl
