-- ===== src/Uvk5/Message/RoundTrip/Counted.antt =====
-- The classes of radio_server/backends/uvk5/frames.py that are a count and as many entries: `unpack`
-- after `pack`.
use mathlib.Core.Option.{some_inj, none-ne-some}
use native.Mathlib.Nat.{mul-suc}
use radio_server.Base.{
  and_then, ℕ, zero, suc, ◌+◌, ◌*◌, ◌/◌, ◌%◌, ◌<◌, true, ◌≡◌, refl, sym, ap, ◌∙◌, List, [], ◌∷◌,
  ◌++◌, Option, none, some, length, drop, replicate, ◌==◌, if◌then◌else◌, ==_iff, arith,
  drop-append, length-append, append-nil,
}
use radio_server.Base.Struct
use radio_server.Base.Struct.{
  length-pack, Bytes, calcsize, le, fits, fields, pack-fits, unpack_from, unpack_from-fields,
  length-fields,
}
use radio_server.Uvk5.Codec.{RoundTrips}
use radio_server.Uvk5.Message.Registers.{
  Pairs, appended, pack_pairs, pair_of, unpack_pairs, counted_pack, count_of, counted_unpack,
  write_registers, write_gpio, read_gpio, read_registers, read_registers_pack,
  read_registers_unpack,
}
use radio_server.Uvk5.Message.RoundTrip.Fixed.{Unchecked}

appended-some :
    (a b : Option Bytes) (c : Bytes)
    → appended a b ≡ some c
    → (x y : Bytes) × (a ≡ some x) × (b ≡ some y) × (c ≡ x ++ y)
appended-some none b c e = absurd (none-ne-some c e)
appended-some (some x) none c e = absurd (none-ne-some c e)
appended-some (some x) (some y) c e = (x, y, refl, refl, sym (some_inj.0 e))

pair_head :
    (w a b : ℕ) (x rest : Bytes)
    → Struct.pack (w ∷ w ∷ []) (a ∷ b ∷ []) ≡ some x
    → unpack_from (w ∷ w ∷ []) (x ++ rest) ≡ a ∷ b ∷ []
pair_head w a b x rest e =
    let (t, shape) = pack-fits (w ∷ w ∷ []) (a ∷ b ∷ []) x e in
    ap (λ l. unpack_from (w ∷ w ∷ []) (l ++ rest)) (sym shape)
    ∙ unpack_from-fields (w ∷ w ∷ []) (a ∷ b ∷ []) rest t

pairs_back :
    (w : ℕ) (ps : Pairs) (bs : Bytes)
    → pack_pairs w ps ≡ some bs
    → (unpack_pairs w (length ps) bs ≡ ps) × (length bs ≡ (w + w) * length ps)
unfolding pack_pairs unpack_pairs
pairs_back w [] bs e = (refl, ap length (sym (some_inj.0 e)) ∙ omega arith)
pairs_back w ((a, b) ∷ ps) bs e =
    let (x, y, ex, ey, shape) =
      appended-some (Struct.pack (w ∷ w ∷ []) (a ∷ b ∷ [])) (pack_pairs w ps) bs e in
    let (back, size) = pairs_back w ps y ey in
    let n : length x ≡ w + w = length-pack (w ∷ w ∷ []) (a ∷ b ∷ []) x ex ∙ omega arith in
    (
      ap (λ l. pair_of (unpack_from (w ∷ w ∷ []) l) ∷ unpack_pairs w (length ps) (drop (w + w) l))
            shape
          ∙ ap (λ l. pair_of l ∷ unpack_pairs w (length ps) (drop (w + w) (x ++ y)))
              (pair_head w a b x y ex)
          ∙ ap (λ l. (a, b) ∷ unpack_pairs w (length ps) l) (drop-append (w + w) x y n)
          ∙ ap (λ l. (a, b) ∷ l) back,
      ap length shape ∙ length-append x y ∙ omega (arith, n, size, mul-suc (w + w) (length ps)),
    )

-- The two bytes of a count.
abbrev count_bytes : ℕ → Bytes
count_bytes n = n % 256 ∷ n / 256 ∷ []

count_head :
    (n : ℕ) (head : Bytes)
    → Struct.pack (2 ∷ []) (n ∷ []) ≡ some head
    → (head ≡ count_bytes n) × (n < 65536)
unfolding fits fields le
count_head n head e =
    let (t, shape) = pack-fits (2 ∷ []) (n ∷ []) head e in
    let small : n < 65536 = ground arith in
    let h : n / 256 % 256 ≡ n / 256 = omega arith in
    (sym shape ∙ ap (λ h. n % 256 ∷ h ∷ []) h, small)

-- What stands behind a count is counted by it.
count_back :
    {A : Type 0} (n : ℕ) (bs params : Bytes) (f : ℕ → Option A)
    → params ≡ count_bytes n ++ bs
    → and_then (count_of params) f ≡ f n
count_back n bs params f e =
    let c : n % 256 + n / 256 * 256 ≡ n = omega arith in
    ap (λ l. and_then (count_of l) f) e ∙ ap f c

counted_back :
    (w : ℕ) (ps : Pairs) (params : Bytes)
    → counted_pack w ps ≡ some params
    → counted_unpack w params ≡ some ps
unfolding counted_pack counted_unpack
counted_back w ps params e =
    let n = length ps in
    let (head, bs, eh, eb, shape) =
      appended-some (Struct.pack (2 ∷ []) (n ∷ [])) (pack_pairs w ps) params e in
    let (back, size) = pairs_back w ps bs eb in
    let (two, small) = count_head n head eh in
    let s : params ≡ count_bytes n ++ bs = shape ∙ ap (λ l. l ++ bs) two in
    let t : (length params == 2 + (w + w) * n) ≡ true =
      (==_iff _ _).1 (omega (arith, ap length s, size)) in
    count_back n bs params
      (λ n.
        if length params == 2 + (w + w) * n then some (unpack_pairs w n (drop 2 params)) else none)
      s
    ∙ ap (λ t. if t then some (unpack_pairs w n (drop 2 params)) else none) t
    ∙ ap (λ l. some (unpack_pairs w n (drop 2 l))) s
    ∙ ap some back

pub write_registers-RoundTrips : RoundTrips write_registers Unchecked
write_registers-RoundTrips m params v e =
    ap (λ o. and_then o (λ ps. some (record { registers = ps })))
      (counted_back 2 m.registers params e)

pub write_gpio-RoundTrips : RoundTrips write_gpio Unchecked
write_gpio-RoundTrips m params v e =
    ap (λ o. and_then o (λ ps. some (record { pins = ps }))) (counted_back 1 m.pins params e)

pub read_gpio-RoundTrips : RoundTrips read_gpio Unchecked
read_gpio-RoundTrips m params v e =
    ap (λ o. and_then o (λ ps. some (record { pins = ps }))) (counted_back 1 m.pins params e)

-- The registers behind their count.
registers_shape :
    (registers : List ℕ) (params : Bytes)
    → Struct.pack (2 ∷ replicate (length registers) 2) (length registers ∷ registers) ≡ some params
    → (params ≡ count_bytes (length registers) ++ fields (replicate (length registers) 2) registers)
      × (fits (replicate (length registers) 2) registers ≡ true)
unfolding fits fields le
registers_shape registers params e =
    let n = length registers in
    let (t, shape) = pack-fits (2 ∷ replicate n 2) (n ∷ registers) params e in
    let small : n < 65536 = ground arith in
    let h : n / 256 % 256 ≡ n / 256 = omega arith in
    (sym shape ∙ ap (λ h. n % 256 ∷ h ∷ fields (replicate n 2) registers) h, ground arith)

calcsize-replicate : (n : ℕ) → calcsize (replicate n 2) ≡ 2 * n
calcsize-replicate zero = omega arith
calcsize-replicate (suc n) = omega (arith, calcsize-replicate n)

pub read_registers-RoundTrips : RoundTrips read_registers Unchecked
unfolding read_registers_pack read_registers_unpack
read_registers-RoundTrips m params v e =
    let n = length m.registers in
    let (s, t) = registers_shape m.registers params e in
    let bs = fields (replicate n 2) m.registers in
    let size : length bs ≡ 2 * n =
      length-fields (replicate n 2) m.registers t ∙ calcsize-replicate n in
    let whole : (length params == 2 + 2 * n) ≡ true =
      (==_iff _ _).1 (omega (arith, ap length s, size)) in
    let read =
      λ (n : ℕ). some (record { registers = unpack_from (replicate n 2) (drop 2 params) }) in
    let back : unpack_from (replicate n 2) bs ≡ m.registers =
      sym (ap (unpack_from (replicate n 2)) (append-nil bs))
      ∙ unpack_from-fields (replicate n 2) m.registers [] t in
    count_back n bs params (λ n. if length params == 2 + 2 * n then read n else none) s
    ∙ ap (λ t. if t then read n else none) whole
    ∙ ap (λ l. some (record { registers = unpack_from (replicate n 2) (drop 2 l) })) s
    ∙ ap (λ l. some (record { registers = l })) back
