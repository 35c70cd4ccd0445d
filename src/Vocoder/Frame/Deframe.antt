-- ===== src/Vocoder/Frame/Deframe.antt =====
-- The rounds of DvDongleDecoder.feed of radio_server/vocoder/frames.py.
use radio_server.Base.{
  take-longer, drop-longer, ℕ, zero, suc, ◌+◌, ◌*◌, ◌/◌, ◌%◌, ◌^◌, ◌<◌, ◌≤◌, ◌≡◌, refl, sym, ap,
  ◌∙◌, inl, inr, Bool, false, ◌||◌, List, [], ◌∷◌, ◌++◌, Option, none, some, length, take, drop,
  ltb, if◌then◌else◌, if_intro, Option-cases, arith, append_assoc, length-append, length-drop,
  take-append, drop-append,
}
use mathlib.Core.Option.{none-ne-some, some_inj}
use radio_server.Base.Struct.{Bytes, le, un_le, length-le, un_le-le}
use radio_server.Vocoder.Frame.{
  header_len, length_range, max_packet_len, Packet, round, after, deframe,
}

-- A round that goes on takes at least a byte.
pub round-drop :
    (buf : Bytes) (packets : List Packet) (left : Bytes)
    → round buf ≡ some (packets, left)
    → length left < length buf
unfolding round
round-drop buf packets left =
    let n = un_le (take header_len buf) % length_range in
    if_intro (λ o. o ≡ some (packets, left) → length left < length buf)
      (ltb (length buf) header_len) (λ t e. absurd (none-ne-some _ e))
      (λ t.
        if_intro (λ o. o ≡ some (packets, left) → length left < length buf)
          (ltb n header_len || ltb max_packet_len n)
          (λ t' e.
            let s = ap length (ap (λ x. x.1) (some_inj.0 e)) in
            ground (arith, s, length-drop 1 buf))
          (λ t'.
            if_intro (λ o. o ≡ some (packets, left) → length left < length buf) (ltb (length buf) n)
              (λ t'' e. absurd (none-ne-some _ e))
              (λ t'' e.
                let s = ap length (ap (λ x. x.1) (some_inj.0 e)) in
                ground (arith, s, length-drop n buf))))

-- The loop ends by itself when it has as much fuel as bytes.
pub deframe_ends : (fuel : ℕ) (buf : Bytes) → length buf ≤ fuel → round (deframe fuel buf).1 ≡ none
unfolding deframe round
deframe_ends zero [] h = refl
deframe_ends zero (b ∷ buf) h = absurd (omega arith)
deframe_ends (suc fuel) buf h = elim (Option-cases (round buf)) [
  | inl e ↦ ap (λ o. round (after (deframe fuel) buf o).1) e ∙ e
  | inr ((packets, left), e) ↦
      ap (λ o. round (after (deframe fuel) buf o).1) e
      ∙ deframe_ends fuel left (omega (arith, round-drop buf packets left e, h))
]

-- More fuel changes nothing.
pub deframe_fuel :
    (fuel fuel' : ℕ) (buf : Bytes)
    → length buf ≤ fuel
    → length buf ≤ fuel'
    → deframe fuel buf ≡ deframe fuel' buf
unfolding deframe round
deframe_fuel zero zero buf h h' = refl
deframe_fuel zero (suc fuel') [] h h' = refl
deframe_fuel zero (suc fuel') (b ∷ buf) h h' = absurd (omega arith)
deframe_fuel (suc fuel) zero [] h h' = refl
deframe_fuel (suc fuel) zero (b ∷ buf) h h' = absurd (omega arith)
deframe_fuel (suc fuel) (suc fuel') buf h h' = elim (Option-cases (round buf)) [
  | inl e ↦ ap (after (deframe fuel) buf) e ∙ sym (ap (after (deframe fuel') buf) e)
  | inr ((packets, left), e) ↦
      let shorter = round-drop buf packets left e in
      ap (after (deframe fuel) buf) e
      ∙ ap (λ (r : List Packet × Bytes). (packets ++ r.0, r.1))
          (deframe_fuel fuel fuel' left (omega (arith, shorter, h)) (omega (arith, shorter, h')))
      ∙ sym (ap (after (deframe fuel') buf) e)
]

-- What is held back when the loop has ended: less than a header, or a packet that is not whole yet.
pub ended-small : (buf : Bytes) → round buf ≡ none → length buf < max_packet_len
unfolding round
ended-small buf =
    let n = un_le (take header_len buf) % length_range in
    if_intro (λ o. o ≡ none → length buf < max_packet_len) (ltb (length buf) header_len)
      (λ t e. ground arith)
      (λ t.
        if_intro (λ o. o ≡ none → length buf < max_packet_len)
          (ltb n header_len || ltb max_packet_len n) (λ t' e. absurd (none-ne-some _ (sym e)))
          (λ t'.
            if_intro (λ o. o ≡ none → length buf < max_packet_len) (ltb (length buf) n)
              (λ t'' e. ground arith) (λ t'' e. absurd (none-ne-some _ (sym e)))))

-- A round, from its tests and its word.
abbrev shape : Bool → Bool → ℕ → Bytes → Option (List Packet × Bytes)
shape short partial word buf =
    let n = word % length_range in
    if short
    then none
    else if ltb n header_len || ltb max_packet_len n
    then some ([], drop 1 buf)
    else if partial
    then none
    else some (
      record { type_bits = word / length_range; payload = drop header_len (take n buf) } ∷ [],
      drop n buf,
    )

extended : Bytes → List Packet × Bytes → Option (List Packet × Bytes)
extended more (packets, left) = some (packets, left ++ more)

-- A round that goes on does the same when more has arrived.
pub round-append :
    (buf more : Bytes) (packets : List Packet) (left : Bytes)
    → round buf ≡ some (packets, left)
    → round (buf ++ more) ≡ some (packets, left ++ more)
unfolding round extended
round-append buf more packets left =
    let word = un_le (take header_len buf) in
    let n = word % length_range in
    let all = buf ++ more in
    let l = length-append buf more in
    let cut : Bool → Option (List Packet × Bytes) = λ partial.
      if partial
      then none
      else some (
        record { type_bits = word / length_range; payload = drop header_len (take n all) } ∷ [],
        drop n all,
      ) in
    if_intro (λ o. o ≡ some (packets, left) → round all ≡ some (packets, left ++ more))
      (ltb (length buf) header_len) (λ t e. absurd (none-ne-some _ e))
      (λ t.
        let long : header_len ≤ length buf = ground arith in
        let long' : ltb (length all) header_len ≡ false = ground (arith, l) in
        let begun : round all ≡ shape false (ltb (length all) n) word all =
          ap
            (λ c.
              shape c (ltb (length all) (un_le (take header_len all) % length_range))
                (un_le (take header_len all)) all)
            long'
          ∙ ap (λ w. shape false (ltb (length all) (w % length_range)) w all)
              (ap un_le (take-longer header_len buf more long)) in
        if_intro (λ o. o ≡ some (packets, left) → round all ≡ some (packets, left ++ more))
          (ltb n header_len || ltb max_packet_len n)
          (λ t' e.
            begun
            ∙ ap (λ c. if c then some ([], drop 1 all) else cut (ltb (length all) n)) t'
            ∙ ap (λ l. some ([], l)) (drop-longer 1 buf more (omega arith))
            ∙ ap (extended more) (some_inj.0 e))
          (λ t'.
            if_intro (λ o. o ≡ some (packets, left) → round all ≡ some (packets, left ++ more))
              (ltb (length buf) n) (λ t'' e. absurd (none-ne-some _ e))
              (λ t'' e.
                let whole : n ≤ length buf = ground arith in
                let whole' : ltb (length all) n ≡ false = ground (arith, l) in
                begun
                ∙ ap (λ c. if c then some ([], drop 1 all) else cut (ltb (length all) n)) t'
                ∙ ap cut whole'
                ∙ ap
                    (λ l. some (
                      record { type_bits = word / length_range; payload = drop header_len l } ∷ [],
                      drop n all,
                    ))
                    (take-longer n buf more whole)
                ∙ ap
                    (λ l. some (
                      record {
                        type_bits = word / length_range;
                        payload = drop header_len (take n buf);
                      }
                          ∷ [],
                      l,
                    ))
                    (drop-longer n buf more whole)
                ∙ ap (extended more) (some_inj.0 e))))

-- A packet that the decoder takes, in bytes.
pub record IsSent (p : Packet) : Type 0 where
  pub type_small : p.type_bits < 8
  pub payload_small : header_len + length p.payload ≤ max_packet_len

abbrev pub wire : Packet → Bytes
wire p = le 2 (p.type_bits * length_range + (header_len + length p.payload)) ++ p.payload

-- A round takes a packet off that was sent.
pub round-wire :
    (p : Packet) (rest : Bytes) → IsSent p → round (wire p ++ rest) ≡ some (p ∷ [], rest)
unfolding round
round-wire p rest v =
    let n = header_len + length p.payload in
    let word = p.type_bits * length_range + n in
    let all = wire p ++ rest in
    let whole : length (wire p) ≡ n =
      length-append (le 2 word) p.payload ∙ omega (arith, length-le 2 word) in
    let l = length-append (wire p) rest in
    let word_small : word < 256 ^ 2 = omega (arith, v.type_small, v.payload_small) in
    let head : un_le (take header_len all) ≡ word =
      ap un_le (
        ap (take header_len) (append_assoc (le 2 word) p.payload rest)
        ∙ take-append header_len (le 2 word) (p.payload ++ rest) (length-le 2 word))
      ∙ un_le-le 2 word word_small in
    let n_lem : word % length_range ≡ n = omega (arith, v.payload_small) in
    let type_lem : word / length_range ≡ p.type_bits = omega (arith, v.payload_small) in
    let short : ltb (length all) header_len ≡ false = ground (arith, l, whole) in
    let synced : (ltb n header_len || ltb max_packet_len n) ≡ false =
      ground (arith, v.payload_small) in
    let there : ltb (length all) n ≡ false = ground (arith, l, whole) in
    let cut : Bool → ℕ → Bytes → Bytes → Option (List Packet × Bytes) =
      λ partial type_bits payload left.
        if partial
        then none
        else some (record { type_bits = type_bits; payload = payload } ∷ [], left) in
    ap (λ w. shape (ltb (length all) header_len) (ltb (length all) (w % length_range)) w all) head
    ∙ ap (λ c. shape c (ltb (length all) (word % length_range)) word all) short
    ∙ ap
        (λ m.
          if ltb m header_len || ltb max_packet_len m
          then some ([], drop 1 all)
          else cut (ltb (length all) m) (word / length_range) (drop header_len (take m all))
              (drop m all))
        n_lem
    ∙ ap
        (λ c.
          if c
          then some ([], drop 1 all)
          else cut (ltb (length all) n) (word / length_range) (drop header_len (take n all))
              (drop n all))
        synced
    ∙ ap (λ c. cut c (word / length_range) (drop header_len (take n all)) (drop n all)) there
    ∙ ap (λ b. cut false b (drop header_len (take n all)) (drop n all)) type_lem
    ∙ ap (λ b. cut false p.type_bits (drop header_len b) (drop n all))
        (take-append n (wire p) rest whole)
    ∙ ap (λ b. cut false p.type_bits b (drop n all))
        (drop-append header_len (le 2 word) p.payload (length-le 2 word))
    ∙ ap (cut false p.type_bits p.payload) (drop-append n (wire p) rest whole)
