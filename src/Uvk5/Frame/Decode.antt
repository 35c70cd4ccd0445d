-- ===== src/Uvk5/Frame/Decode.antt =====
-- The stages of `Uvk5Decoder` of radio_server/backends/uvk5/frames.py over one frame.
use Prim.Native.Nat.{bit_xor}
use radio_server.Base.{
  ℕ, zero, suc, ◌+◌, ◌*◌, ◌/◌, ◌%◌, ◌<◌, ◌≤◌, Bool, true, false, ◌&&◌, ◌||◌, not, ◌≡◌, refl, sym,
  ap, ◌∙◌, List, [], ◌∷◌, ◌++◌, Option, none, some, length, take, drop, get_or, leb, ltb, ◌==◌,
  if◌then◌else◌, arith, length-append, take-append, drop-append, append_assoc, bit_xor-twice,
}
use radio_server.Base.Struct.{Bytes, le, un_le, un_le-le, length-le}
use radio_server.Uvk5.Frame.{
  obfuscation, max_payload_size, crc_shift, crc_shifts, crc_loop, crc16, obfuscate_from, obfuscate,
  wrap, footer, idle, cd, len_lo, len_hi, in_data, crc_lo, Uvk5Decoder, finish, at_stage, step,
  emit, feed,
}

emit-append : (f : Option Bytes) (fs gs : List Bytes) → emit f fs ++ gs ≡ emit f (fs ++ gs)
emit-append none fs gs = refl
emit-append (some f) fs gs = refl

-- How the bytes are cut into chunks does not matter.
pub feed-append :
    (xs ys : Bytes) (d : Uvk5Decoder)
    → feed d (xs ++ ys) ≡ ((feed d xs).0 ++ (feed (feed d xs).1 ys).0, (feed (feed d xs).1 ys).1)
unfolding feed
feed-append [] ys d = refl
feed-append (x ∷ xs) ys d =
    let (f, d') = step d.stage x d in
    let (gs, d'') = feed d' xs in
    ap (λ (q : List Bytes × Uvk5Decoder). (emit f q.0, q.1)) (feed-append xs ys d')
    ∙ ap (λ l. (l, (feed d'' ys).1)) (sym (emit-append f gs (feed d'' ys).0))

obfuscate_from-twice : (i : ℕ) (bs : Bytes) → obfuscate_from i (obfuscate_from i bs) ≡ bs
unfolding obfuscate_from
obfuscate_from-twice i [] = refl
obfuscate_from-twice i (b ∷ bs) =
    cc (bit_xor-twice b (get_or obfuscation (i % 16) 0), obfuscate_from-twice (i + 1) bs)

-- The obfuscation is its own inverse.
pub obfuscate-twice : (bs : Bytes) → obfuscate (obfuscate bs) ≡ bs
unfolding obfuscate
obfuscate-twice bs = obfuscate_from-twice 0 bs

length-obfuscate_from : (i : ℕ) (bs : Bytes) → length (obfuscate_from i bs) ≡ length bs
unfolding obfuscate_from
length-obfuscate_from i [] = refl
length-obfuscate_from i (b ∷ bs) = ap suc (length-obfuscate_from (i + 1) bs)

pub length-obfuscate : (bs : Bytes) → length (obfuscate bs) ≡ length bs
unfolding obfuscate
length-obfuscate bs = length-obfuscate_from 0 bs

pub crc_shift-lt : (c : ℕ) → crc_shift c < 65536
unfolding crc_shift
crc_shift-lt c = omega arith

pub crc_shifts-lt : (n c : ℕ) → c < 65536 → crc_shifts n c < 65536
unfolding crc_shifts
crc_shifts-lt zero c h = h
crc_shifts-lt (suc n) c h = crc_shifts-lt n (crc_shift c) (crc_shift-lt c)

pub crc_byte-lt : (c : ℕ) → crc_shifts 8 c < 65536
crc_byte-lt c = unfold crc_shifts in crc_shifts-lt 7 (crc_shift c) (crc_shift-lt c)

pub crc_loop-lt : (c : ℕ) (bs : Bytes) → c < 65536 → crc_loop c bs < 65536
unfolding crc_loop
crc_loop-lt c [] h = h
crc_loop-lt c (b ∷ bs) h =
    crc_loop-lt (crc_shifts 8 (bit_xor c (b * 256))) bs (crc_byte-lt (bit_xor c (b * 256)))

pub crc16-lt : (bs : Bytes) → crc16 bs < 65536
unfolding crc16
crc16-lt bs = crc_loop-lt 0 bs (omega arith)

-- The body that follows the length: obfuscated or not.
abbrev pub body_of : Bool → Bytes → ℕ → Bytes
body_of obfuscated payload crc =
    if obfuscated then obfuscate (payload ++ le 2 crc) else payload ++ le 2 crc

pub length-body_of :
    (o : Bool) (payload : Bytes) (crc : ℕ) → length (body_of o payload crc) ≡ length payload + 2
length-body_of true payload crc =
    length-obfuscate (payload ++ le 2 crc)
    ∙ length-append payload (le 2 crc)
    ∙ omega (arith, length-le 2 crc)
length-body_of false payload crc = length-append payload (le 2 crc) ∙ omega (arith, length-le 2 crc)

-- What the decoder makes of a body, when the two trailing bytes are any CRC.
pub clear_body :
    (o : Bool) (payload : Bytes) (crc : ℕ)
    → (if o then obfuscate (body_of o payload crc) else body_of o payload crc) ≡ payload ++ le 2 crc
clear_body true payload crc = obfuscate-twice (payload ++ le 2 crc)
clear_body false payload crc = refl

pub finish-body :
    (d : Uvk5Decoder) (payload : Bytes) (crc : ℕ)
    → d.buf ++ d.crc ≡ body_of d.obfuscated payload crc
    → d.size ≡ length payload
    → crc < 65536
    → finish d ≡ (if d.validate_crc && not (crc == crc16 payload) then none else some payload)
unfolding finish
finish-body d payload crc e n lt =
    let c : (if d.obfuscated then obfuscate (d.buf ++ d.crc) else d.buf ++ d.crc)
        ≡ payload ++ le 2 crc =
      ap (λ x. if d.obfuscated then obfuscate x else x) e ∙ clear_body d.obfuscated payload crc in
    let t : take d.size (payload ++ le 2 crc) ≡ payload =
      take-append d.size payload (le 2 crc) (sym n) in
    let u : drop d.size (payload ++ le 2 crc) ≡ le 2 crc =
      drop-append d.size payload (le 2 crc) (sym n) in
    let v : un_le (le 2 crc) ≡ crc = un_le-le 2 crc lt in simp (c, t, u, v)

-- A list of n + 2 bytes is n bytes and the two last ones.
pub two_last :
    (n : ℕ) (w : Bytes)
    → length w ≡ n + 2
    → (bs : Bytes) × (x y : ℕ) × (length bs ≡ n) × (w ≡ bs ++ (x ∷ y ∷ []))
two_last n [] e = absurd (omega arith)
two_last n (a ∷ []) e = absurd (omega arith)
two_last zero (a ∷ b ∷ []) e = ([], a, b, refl, refl)
two_last zero (a ∷ b ∷ c ∷ w) e = absurd (omega arith)
two_last (suc n) (a ∷ b ∷ w) e =
    let (bs, x, y, l, s) = two_last n (b ∷ w) (omega arith) in
    (a ∷ bs, x, y, ap suc l, ap (λ r. a ∷ r) s)

-- A step that hands nothing on.
pub feed_step :
    (b : ℕ) (bs : Bytes) (d d' : Uvk5Decoder)
    → step d.stage b d ≡ (none, d')
    → feed d (b ∷ bs) ≡ feed d' bs
unfolding feed
feed_step b bs d d' e =
    ap (λ (p : Option Bytes × Uvk5Decoder). (emit p.0 (feed p.1 bs).0, (feed p.1 bs).1)) e

last_data :
    (x : ℕ) (d : Uvk5Decoder)
    → length d.buf + 1 ≡ d.size
    → step in_data x d ≡ (none, record d { buf = d.buf ++ (x ∷ []); stage = crc_lo })
unfolding step
last_data x d e =
    let n = length-append d.buf (x ∷ []) in
    let l : leb d.size (length (d.buf ++ (x ∷ []))) ≡ true = ground arith in simp (l)

more_data :
    (x : ℕ) (d : Uvk5Decoder)
    → length d.buf + 1 < d.size
    → step in_data x d ≡ (none, record d { buf = d.buf ++ (x ∷ []) })
unfolding step
more_data x d e =
    let n = length-append d.buf (x ∷ []) in
    let l : leb d.size (length (d.buf ++ (x ∷ []))) ≡ false = ground arith in simp (l)

-- The payload bytes of a frame are collected.
pub feed_data :
    (x : ℕ) (xs rest : Bytes) (d : Uvk5Decoder)
    → length d.buf + length (x ∷ xs) ≡ d.size
    → feed (at_stage in_data d) (x ∷ (xs ++ rest))
      ≡ feed (record d { buf = d.buf ++ (x ∷ xs); stage = crc_lo }) rest
feed_data x [] rest d e =
    feed_step x rest (at_stage in_data d) (record d { buf = d.buf ++ (x ∷ []); stage = crc_lo })
      (last_data x (at_stage in_data d) (omega arith))
feed_data x (y ∷ ys) rest d e =
    let d' = record d { buf = d.buf ++ (x ∷ []); stage = in_data } in
    feed_step x (y ∷ (ys ++ rest)) (at_stage in_data d) d'
      (more_data x (at_stage in_data d) (omega arith))
    ∙ feed_data y ys rest d' (omega (arith, length-append d.buf (x ∷ [])))
    ∙ ap (λ l. feed (record d { buf = l; stage = crc_lo }) rest)
        (append_assoc d.buf (x ∷ []) (y ∷ ys))

-- A frame is opened by the preamble and its length.
opened :
    (n : ℕ) (rest : Bytes) (d : Uvk5Decoder)
    → 0 < n
    → n ≤ max_payload_size
    → feed (at_stage idle d) (0xAB ∷ 0xCD ∷ (le 2 n ++ rest))
      ≡ feed (record d { size = n; buf = []; crc = []; stage = in_data }) rest
unfolding step le
opened n rest d pos h =
    feed_step 0xAB (0xCD ∷ n % 256 ∷ n / 256 % 256 ∷ rest) (at_stage idle d) (at_stage cd d) refl
    ∙ feed_step 0xCD (n % 256 ∷ n / 256 % 256 ∷ rest) (at_stage cd d) (at_stage len_lo d) refl
    ∙ feed_step (n % 256) (n / 256 % 256 ∷ rest) (at_stage len_lo d)
        (record d { size = n % 256; stage = len_hi }) refl
    ∙ feed_step (n / 256 % 256) rest (record d { size = n % 256; stage = len_hi })
        (record d { size = n; buf = []; crc = []; stage = in_data })
        (let e : n % 256 + n / 256 % 256 * 256 ≡ n = omega arith in
          let t : (n == 0 || ltb max_payload_size n) ≡ false = ground arith in simp (e, t))

-- It is closed by the two trailing bytes and the footer.
closed :
    (x y : ℕ) (rest : Bytes) (d : Uvk5Decoder)
    → d.crc ≡ []
    → feed (at_stage crc_lo d) (x ∷ y ∷ 0xDC ∷ 0xBA ∷ rest) ≡ (
      emit
          (finish (record d { crc = x ∷ y ∷ []; stage = idle }))
          (feed (record d { crc = x ∷ y ∷ []; stage = idle }) rest).0,
      (feed (record d { crc = x ∷ y ∷ []; stage = idle }) rest).1,
    )
unfolding feed step
closed x y rest d e = simp (e)

-- A decoder that waits for a frame, with the options of `d`.
pub record Waits (d d' : Uvk5Decoder) : Type 0 where
  pub waits : d'.stage ≡ idle
  pub same_obfuscated : d'.obfuscated ≡ d.obfuscated
  pub same_validate : d'.validate_crc ≡ d.validate_crc

-- What the decoder hands on of a frame with some CRC.
abbrev pub verdict : Uvk5Decoder → Bytes → ℕ → Option Bytes
verdict d payload crc = if d.validate_crc && not (crc == crc16 payload) then none else some payload

collected :
    (bs : Bytes) (x y : ℕ) (rest payload : Bytes) (crc : ℕ) (d : Uvk5Decoder)
    → 0 < length bs
    → d.size ≡ length bs
    → d.size ≡ length payload
    → d.buf ≡ []
    → d.crc ≡ []
    → bs ++ (x ∷ y ∷ []) ≡ body_of d.obfuscated payload crc
    → crc < 65536
    → feed (at_stage in_data d) (bs ++ (x ∷ y ∷ 0xDC ∷ 0xBA ∷ rest)) ≡ (
      emit
          (verdict d payload crc)
          (feed (record d { buf = bs; crc = x ∷ y ∷ []; stage = idle }) rest).0,
      (feed (record d { buf = bs; crc = x ∷ y ∷ []; stage = idle }) rest).1,
    )
collected [] x y rest payload crc d pos n m eb ec e lt = absurd (omega arith)
collected (b ∷ bs) x y rest payload crc d pos n m eb ec e lt =
    let d1 = record d { buf = b ∷ bs; stage = idle } in
    feed_data b bs (x ∷ y ∷ 0xDC ∷ 0xBA ∷ rest) d (omega (arith, ap length eb))
    ∙ ap (λ l. feed (record d { buf = l ++ (b ∷ bs); stage = crc_lo }) (x ∷ y ∷ 0xDC ∷ 0xBA ∷ rest))
        eb
    ∙ closed x y rest d1 ec
    ∙ ap
        (λ f. (
          emit f (feed (record d { buf = b ∷ bs; crc = x ∷ y ∷ []; stage = idle }) rest).0,
          (feed (record d { buf = b ∷ bs; crc = x ∷ y ∷ []; stage = idle }) rest).1,
        ))
        (finish-body (record d { buf = b ∷ bs; crc = x ∷ y ∷ []; stage = idle }) payload crc e m lt)

abbrev wrapping : Uvk5Decoder → Bytes → ℕ → Bytes → Bytes
wrapping d payload crc rest = wrap d.obfuscated payload crc ++ rest

-- A frame with any CRC, from a decoder that waits, ahead of anything.
pub feed-wrap :
    (d : Uvk5Decoder) (payload : Bytes) (crc : ℕ) (rest : Bytes)
    → d.stage ≡ idle
    → 0 < length payload
    → length payload ≤ max_payload_size
    → crc < 65536
    → (d' : Uvk5Decoder) × Waits d d'
      × (feed d (wrap d.obfuscated payload crc ++ rest)
          ≡ (emit (verdict d payload crc) (feed d' rest).0, (feed d' rest).1))
unfolding wrap
feed-wrap d payload crc rest st pos le254 lt =
    let n = length payload in
    let (bs, x, y, l, e) =
      two_last n (body_of d.obfuscated payload crc) (length-body_of d.obfuscated payload crc) in
    let d1 = record d { size = n; buf = []; crc = []; stage = in_data } in
    (
      record d1 { buf = bs; crc = x ∷ y ∷ []; stage = idle },
      record { waits = refl; same_obfuscated = refl; same_validate = refl },
      ap (λ s. feed (record d { stage = s }) (wrapping d payload crc rest)) st
          ∙ ap (feed (at_stage idle d)) (
              ap (λ l. 0xAB ∷ 0xCD ∷ l)
                (append_assoc (le 2 n) (body_of d.obfuscated payload crc ++ footer) rest
                  ∙ ap (λ l. le 2 n ++ l)
                      (append_assoc (body_of d.obfuscated payload crc) footer rest
                        ∙ ap (λ l. l ++ (0xDC ∷ 0xBA ∷ rest)) e
                        ∙ append_assoc bs (x ∷ y ∷ []) (0xDC ∷ 0xBA ∷ rest))))
          ∙ opened n ((bs ++ (x ∷ y ∷ 0xDC ∷ 0xBA ∷ rest))) d pos le254
          ∙ collected bs x y rest payload crc d1 (omega arith) (sym l) refl refl refl (sym e) lt,
    )
