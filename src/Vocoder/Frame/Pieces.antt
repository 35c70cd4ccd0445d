-- ===== src/Vocoder/Frame/Pieces.antt =====
-- What DvDongleDecoder of radio_server/vocoder/frames.py makes of a stream that arrives in pieces.
use radio_server.Base.{
  ℕ, zero, suc, ◌<◌, ◌≤◌, ◌≡◌, refl, sym, ap, ◌∙◌, inl, inr, List, [], ◌∷◌, ◌++◌, All, none, length,
  Option-cases, arith, append-nil, append_assoc, length-append,
}
use radio_server.Base.Struct.{Bytes}
use radio_server.Vocoder.Frame.{max_packet_len, Packet, round, after, deframe, feed}
use radio_server.Vocoder.Frame.Deframe.{
  round-drop, deframe_ends, deframe_fuel, ended-small, round-append, IsSent, wire, round-wire,
}

-- Packets put before those of a result.
abbrev before : List Packet → List Packet × Bytes → List Packet × Bytes
before packets r = (packets ++ r.0, r.1)

-- The loop over a stream goes on from where it ends over a part of it.
deframe-append :
    (fuel part all : ℕ) (buf more : Bytes)
    → length buf ≤ part
    → length (buf ++ more) ≤ all
    → length ((deframe part buf).1 ++ more) ≤ fuel
    → deframe all (buf ++ more)
      ≡ before (deframe part buf).0 (deframe fuel ((deframe part buf).1 ++ more))
unfolding deframe round
deframe-append fuel zero all buf more h h' h'' = deframe_fuel all fuel (buf ++ more) h' h''
deframe-append fuel (suc part) zero [] more h h' h'' = deframe_fuel zero fuel more h' h''
deframe-append fuel (suc part) zero (b ∷ buf) more h h' h'' = absurd (omega arith)
deframe-append fuel (suc part) (suc all) buf more h h' h'' = elim (Option-cases (round buf)) [
  | inl e ↦
      let stop = ap (after (deframe part) buf) e in
      let same : length (buf ++ more) ≤ fuel =
        omega (arith, h'', ap (λ (r : List Packet × Bytes). length (r.1 ++ more)) stop) in
      deframe_fuel (suc all) fuel (buf ++ more) h' same
      ∙ sym (ap (λ (r : List Packet × Bytes). before r.0 (deframe fuel (r.1 ++ more))) stop)
  | inr ((packets, left), e) ↦
      let go = ap (after (deframe part) buf) e in
      let shorter = round-drop buf packets left e in
      let l = length-append buf more in
      let l' = length-append left more in
      let held : length ((deframe part left).1 ++ more) ≤ fuel =
        omega (arith, h'', ap (λ (r : List Packet × Bytes). length (r.1 ++ more)) go) in
      let rest =
        deframe-append fuel part all left more (omega (arith, h, shorter))
          (omega (arith, h', l, l', shorter)) held in
      ap (after (deframe all) (buf ++ more)) (round-append buf more packets left e)
      ∙ ap (before packets) rest
      ∙ ap (λ ps. (ps, (deframe fuel ((deframe part left).1 ++ more)).1))
          (sym (
            append_assoc packets (deframe part left).0
              (deframe fuel ((deframe part left).1 ++ more)).0))
      ∙ sym (ap (λ (r : List Packet × Bytes). before r.0 (deframe fuel (r.1 ++ more))) go)
]

-- Feeding two chunks in turn is feeding them as one.
pub feed-append :
    (buf chunk chunk' : Bytes)
    → feed buf (chunk ++ chunk') ≡ before (feed buf chunk).0 (feed (feed buf chunk).1 chunk')
unfolding feed
feed-append buf chunk chunk' =
    ap (λ l. deframe (length l) l) (sym (append_assoc buf chunk chunk'))
    ∙ deframe-append _ _ _ (buf ++ chunk) chunk' (omega arith) (omega arith) (omega arith)

-- The chunks that a reader hands on, one call each.
abbrev pub feed_all : Bytes → List Bytes → List Packet × Bytes
feed_all buf [] = ([], buf)
feed_all buf (chunk ∷ chunks) =
    let (packets, held) = feed buf chunk in before packets (feed_all held chunks)

abbrev pub joined : List Bytes → Bytes
joined [] = []
joined (chunk ∷ chunks) = chunk ++ joined chunks

abbrev pub wire_all : List Packet → Bytes
wire_all [] = []
wire_all (p ∷ ps) = wire p ++ wire_all ps

-- Whatever bytes a decoder holds and is fed, the loop of `feed` ends by itself: no further round would go
-- on, and less than the longest packet is held.
pub feed_ends :
    (buf chunk : Bytes)
    → (round (feed buf chunk).1 ≡ none) × (length (feed buf chunk).1 < max_packet_len)
unfolding feed
feed_ends buf chunk =
    let e = deframe_ends (length (buf ++ chunk)) (buf ++ chunk) (omega arith) in
    (e, ended-small (feed buf chunk).1 e)

deframe-wire_all :
    (fuel : ℕ) (ps : List Packet)
    → All IsSent ps
    → length (wire_all ps) ≤ fuel
    → deframe fuel (wire_all ps) ≡ (ps, [])
unfolding deframe round
deframe-wire_all zero [] v h = refl
deframe-wire_all (suc fuel) [] v h = refl
deframe-wire_all zero (p ∷ ps) (v, vs) h = absurd (
    omega (
      arith,
      h,
      round-drop (wire p ++ wire_all ps) (p ∷ []) (wire_all ps) (round-wire p (wire_all ps) v),
    ))
deframe-wire_all (suc fuel) (p ∷ ps) (v, vs) h =
    let e = round-wire p (wire_all ps) v in
    let shorter = round-drop (wire p ++ wire_all ps) (p ∷ []) (wire_all ps) e in
    ap (after (deframe fuel) (wire p ++ wire_all ps)) e
    ∙ ap (before (p ∷ [])) (deframe-wire_all fuel ps vs (omega (arith, h, shorter)))

feed_all-joined :
    (buf : Bytes) (chunks : List Bytes)
    → round buf ≡ none
    → feed_all buf chunks ≡ deframe (length (buf ++ joined chunks)) (buf ++ joined chunks)
unfolding feed deframe
feed_all-joined buf [] e = stay _
  where
    stay : (fuel : ℕ) → ([], buf) ≡ deframe fuel (buf ++ [])
    stay zero = ap (λ l. ([], l)) (sym (append-nil buf))
    stay (suc fuel) =
        sym (ap (deframe (suc fuel)) (append-nil buf) ∙ ap (after (deframe fuel) buf) e)
feed_all-joined buf (chunk ∷ chunks) e =
    let held = (feed buf chunk).1 in
    ap (before (feed buf chunk).0) (feed_all-joined held chunks (feed_ends buf chunk).0)
    ∙ sym (
        ap (λ l. deframe (length l) l) (sym (append_assoc buf chunk (joined chunks)))
        ∙ deframe-append _ _ _ (buf ++ chunk) (joined chunks) (omega arith) (omega arith)
            (omega arith))

-- Packets of at most 320 payload bytes and a type of three bits, sent to a new decoder, come out whole, in
-- order and each once, in whichever pieces their bytes arrive, and nothing is held back.
pub feed_all-wire_all :
    (ps : List Packet) (chunks : List Bytes)
    → All IsSent ps
    → joined chunks ≡ wire_all ps
    → feed_all [] chunks ≡ (ps, [])
unfolding round
feed_all-wire_all ps chunks v e =
    feed_all-joined [] chunks refl
    ∙ ap (λ l. deframe (length l) l) e
    ∙ deframe-wire_all (length (wire_all ps)) ps v (omega arith)
