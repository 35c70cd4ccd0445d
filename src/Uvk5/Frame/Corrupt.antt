-- ===== src/Uvk5/Frame/Corrupt.antt =====
-- The CRC of radio_server/backends/uvk5/frames.py against a byte that was changed on the way.
use Prim.Native.Nat.{bit_xor}
use native.Mathlib.Decide.{dec_lt}
use radio_server.Base.{
  ℕ, zero, suc, ◌+◌, ◌*◌, ◌/◌, ◌%◌, ◌<◌, ◌≤◌, true, false, ◌≡◌, ◌≢◌, refl, sym, ap, ◌∙◌, [], ◌∷◌,
  ◌++◌, none, length, length-append, All, arith, ◌==◌, if◌then◌else◌, bit_xor-low, bit_xor-div,
  bit_xor-inj, bit_xor_comm, bit_xor-lt,
}
use radio_server.Base.Struct.{Bytes}
use radio_server.Uvk5.Frame.{
  max_payload_size, crc_shift, crc_shifts, crc_loop, crc16, wrap, idle, Uvk5Decoder, emit, feed,
}
use radio_server.Uvk5.Frame.Decode.{
  Waits, feed-wrap, verdict, crc16-lt, crc_shift-lt, crc_byte-lt, crc_loop-lt,
}

abbrev pub IsByte : ℕ → Type 0
IsByte b = b < 256

abbrev polynomial : ℕ → ℕ
polynomial c = bit_xor (c * 2) 0x1021

polynomial-top : (c : ℕ) → 32768 ≤ c → c < 65536 → polynomial c / 65536 ≡ 1
polynomial-top c low h =
    let e : c * 2 / 65536 ≡ 1 = omega arith in
    bit_xor-div 16 (c * 2) 0x1021 ∙ ap (λ n. bit_xor n 0) e

crc_shift-small : (c : ℕ) → c < 32768 → crc_shift c ≡ c * 2
unfolding crc_shift
crc_shift-small c h =
    let t : (c * 2 / 65536 % 2 == 1) ≡ false = ground arith in
    ap (λ t. (if t then polynomial c else c * 2) % 65536) t ∙ omega arith

crc_shift-large : (c : ℕ) → 32768 ≤ c → c < 65536 → crc_shift c + 65536 ≡ polynomial c
unfolding crc_shift
crc_shift-large c low h =
    let t : (c * 2 / 65536 % 2 == 1) ≡ true = ground arith in
    ap (λ t. (if t then polynomial c else c * 2) % 65536 + 65536) t
    ∙ omega (arith, polynomial-top c low h)

polynomial-low : (c : ℕ) → polynomial c % 2 ≡ 1
polynomial-low c = bit_xor-low (c * 2) 0x1021 ∙ omega arith

polynomial-inj : (c d : ℕ) → polynomial c ≡ polynomial d → c ≡ d
polynomial-inj c d e = omega (arith, bit_xor-inj (c * 2) (d * 2) 0x1021 e)

-- One shift of the register loses nothing: its lowest digit is the digit that left.
crc_shift-inj : (c d : ℕ) → c < 65536 → d < 65536 → crc_shift c ≡ crc_shift d → c ≡ d
crc_shift-inj c d h k e = elim (dec_lt c 32768) [
  | yes p ↦ elim (dec_lt d 32768) [
    | yes q ↦ omega (arith, crc_shift-small c p, crc_shift-small d q)
    | no q ↦
        absurd
          (omega (arith, crc_shift-small c p, crc_shift-large d (omega arith) k, polynomial-low d))
  ]
  | no p ↦ elim (dec_lt d 32768) [
    | yes q ↦
        absurd
          (omega (arith, crc_shift-large c (omega arith) h, crc_shift-small d q, polynomial-low c))
    | no q ↦
        polynomial-inj c d
          (omega (arith, crc_shift-large c (omega arith) h, crc_shift-large d (omega arith) k))
  ]
]

crc_shifts-inj : (n c d : ℕ) → c < 65536 → d < 65536 → crc_shifts n c ≡ crc_shifts n d → c ≡ d
unfolding crc_shifts
crc_shifts-inj zero c d h k e = e
crc_shifts-inj (suc n) c d h k e =
    crc_shift-inj c d h k
      (crc_shifts-inj n (crc_shift c) (crc_shift d) (crc_shift-lt c) (crc_shift-lt d) e)

-- The same bytes take different registers to different registers.
crc_loop-inj :
    (bs : Bytes) (c d : ℕ)
    → All IsByte bs
    → c < 65536
    → d < 65536
    → crc_loop c bs ≡ crc_loop d bs
    → c ≡ d
unfolding crc_loop
crc_loop-inj [] c d bytes h k e = e
crc_loop-inj (b ∷ bs) c d (small, bytes) h k e =
    let c' = bit_xor c (b * 256) in
    let d' = bit_xor d (b * 256) in
    bit_xor-inj c d (b * 256) (
      crc_shifts-inj 8 c' d' (bit_xor-lt 16 c (b * 256) h (omega arith))
        (bit_xor-lt 16 d (b * 256) k (omega arith))
        (crc_loop-inj bs (crc_shifts 8 c') (crc_shifts 8 d') bytes (crc_byte-lt c') (crc_byte-lt d')
          e))

crc_loop-append : (c : ℕ) (xs ys : Bytes) → crc_loop c (xs ++ ys) ≡ crc_loop (crc_loop c xs) ys
unfolding crc_loop
crc_loop-append c [] ys = refl
crc_loop-append c (x ∷ xs) ys = crc_loop-append (crc_shifts 8 (bit_xor c (x * 256))) xs ys

crc_byte-inj :
    (s : ℕ) (after : Bytes) (b c : ℕ)
    → All IsByte after
    → IsByte b
    → IsByte c
    → s < 65536
    → crc_loop s (b ∷ after) ≡ crc_loop s (c ∷ after)
    → b ≡ c
unfolding crc_loop
crc_byte-inj s after b c bytes hb hc sl e =
    let b' = bit_xor s (b * 256) in
    let c' = bit_xor s (c * 256) in
    let same : b' ≡ c' =
      crc_shifts-inj 8 b' c' (bit_xor-lt 16 s (b * 256) sl (omega arith))
        (bit_xor-lt 16 s (c * 256) sl (omega arith))
        (crc_loop-inj after (crc_shifts 8 b') (crc_shifts 8 c') bytes (crc_byte-lt b')
          (crc_byte-lt c') e) in
    omega (
      arith,
      bit_xor-inj (b * 256) (c * 256) s
          (bit_xor_comm (b * 256) s ∙ same ∙ bit_xor_comm s (c * 256)),
    )

-- Two messages that differ in one byte have different CRCs.
pub crc16-differs :
    (before after : Bytes) (b c : ℕ)
    → All IsByte after
    → IsByte b
    → IsByte c
    → b ≢ c
    → crc16 (before ++ (b ∷ after)) ≢ crc16 (before ++ (c ∷ after))
unfolding crc16
crc16-differs before after b c bytes hb hc ne e =
    let s = crc_loop 0 before in
    let sl : s < 65536 = crc_loop-lt 0 before (omega arith) in
    let e' =
      sym (crc_loop-append 0 before (b ∷ after)) ∙ e ∙ crc_loop-append 0 before (c ∷ after) in
    ne (crc_byte-inj s after b c bytes hb hc sl e')

-- A waiting decoder that validates CRCs hands nothing on for a frame of which one payload byte was
-- changed under the CRC of the sent payload, and decodes what follows as a decoder that waits.
pub feed_corrupt :
    (d : Uvk5Decoder) (before after : Bytes) (sent got : ℕ) (rest : Bytes)
    → d.stage ≡ idle
    → d.validate_crc ≡ true
    → length (before ++ (got ∷ after)) ≤ max_payload_size
    → All IsByte after
    → IsByte sent
    → IsByte got
    → sent ≢ got
    → (d' : Uvk5Decoder) × Waits d d'
      × (feed d
            (wrap d.obfuscated (before ++ (got ∷ after)) (crc16 (before ++ (sent ∷ after))) ++ rest)
          ≡ feed d' rest)
feed_corrupt d before after sent got rest st valid small bytes hs hg ne =
    let p = before ++ (got ∷ after) in
    let crc = crc16 (before ++ (sent ∷ after)) in
    let (d', w, e) =
      feed-wrap d p crc rest st (omega (arith, length-append before (got ∷ after))) small
        (crc16-lt _) in
    let differs = crc16-differs before after sent got bytes hs hg ne in
    let t : (crc == crc16 p) ≡ false = ground arith in
    let v : verdict d p crc ≡ none = simp (valid, t) in
    (d', w, e ∙ ap (λ f. (emit f (feed d' rest).0, (feed d' rest).1)) v)
