-- ===== src/Base/Struct.antt =====
-- Python's `struct` with the format `<` over unsigned fields: a format is the list of the widths in
-- bytes, and a field is a number. Bytes are numbers.
use Prim.Native.Nat.{ℕ, zero, suc, ◌+◌, ◌-◌, ◌*◌, ◌/◌, ◌%◌, ◌^◌, ◌<◌}
use mathlib.Core.Path.{◌≡◌, refl, sym, ap, ◌∙◌}
use mathlib.Core.Bool.{Bool, true, false, ◌&&◌}
use mathlib.Core.Option.{Option, none, some, none-ne-some, some_inj}
use mathlib.Core.List.{List, [], ◌∷◌, ◌++◌, append_assoc, append-nil}
use native.Mathlib.Nat.{pow-suc}
use native.Mathlib.Omega.{arith}
use radio_server.Base.Tests.{ltb, ◌==◌, if◌then◌else◌, if_intro, ==_iff}
use radio_server.Base.Lists.{length, take, drop, replicate, length-append, take-append, drop-append}

abbrev pub Bytes : Type 0
Bytes = List ℕ

-- A field in little-endian bytes, and back.
unfoldable pub le : ℕ → ℕ → Bytes
le zero v = []
le (suc w) v = v % 256 ∷ le w (v / 256)

unfoldable pub un_le : Bytes → ℕ
un_le [] = 0
un_le (b ∷ bs) = b + un_le bs * 256

abbrev pub calcsize : List ℕ → ℕ
calcsize [] = 0
calcsize (w ∷ ws) = w + calcsize ws

-- What `pack` accepts: as many values as fields, each in range.
unfoldable pub fits : List ℕ → List ℕ → Bool
fits [] [] = true
fits (w ∷ ws) (v ∷ vs) = ltb v (256 ^ w) && fits ws vs
fits [] (v ∷ vs) = false
fits (w ∷ ws) [] = false

unfoldable pub fields : List ℕ → List ℕ → Bytes
fields [] vs = []
fields (w ∷ ws) [] = []
fields (w ∷ ws) (v ∷ vs) = le w v ++ fields ws vs

-- `none` is the struct.error.
unfoldable pub pack : List ℕ → List ℕ → Option Bytes
pack format values = if fits format values then some (fields format values) else none

unfoldable pub unpack_from : List ℕ → Bytes → List ℕ
unpack_from [] bs = []
unpack_from (w ∷ ws) bs = un_le (take w bs) ∷ unpack_from ws (drop w bs)

unfoldable pub unpack : List ℕ → Bytes → Option (List ℕ)
unpack format bs = if length bs == calcsize format then some (unpack_from format bs) else none

-- `%ds`: cut, or filled with NUL.
unfoldable pub pack_bytes : ℕ → Bytes → Bytes
pack_bytes n bs = take n bs ++ replicate (n - length bs) 0

pub length-le : (w v : ℕ) → length (le w v) ≡ w
unfolding le
length-le zero v = refl
length-le (suc w) v = ap suc (length-le w (v / 256))

pub un_le-le : (w v : ℕ) → v < 256 ^ w → un_le (le w v) ≡ v
unfolding le un_le
un_le-le zero v h = omega arith
un_le-le (suc w) v h =
    let p : 256 ^ suc w ≡ 256 ^ w * 256 = pow-suc 256 w in
    omega (arith, un_le-le w (v / 256) (omega arith))

pub length-fields : (ws vs : List ℕ) → fits ws vs ≡ true → length (fields ws vs) ≡ calcsize ws
unfolding fits fields
length-fields [] vs h = refl
length-fields (w ∷ ws) [] h = cc
length-fields (w ∷ ws) (v ∷ vs) h = omega (
  arith,
  length-append (le w v) (fields ws vs),
  length-le w v,
  length-fields ws vs (ground arith),
)

-- What is packed is read back, whatever follows it.
pub unpack_from-fields :
    (ws vs rest : List ℕ) → fits ws vs ≡ true → unpack_from ws (fields ws vs ++ rest) ≡ vs
unfolding fits fields unpack_from
unpack_from-fields [] [] rest h = refl
unpack_from-fields [] (v ∷ vs) rest h = cc
unpack_from-fields (w ∷ ws) [] rest h = cc
unpack_from-fields (w ∷ ws) (v ∷ vs) rest h =
    let lt : v < 256 ^ w = ground arith in
    let e = append_assoc (le w v) (fields ws vs) rest in
    ap (λ l. un_le (take w l) ∷ unpack_from ws (drop w l)) e
    ∙ ap (λ l. un_le l ∷ unpack_from ws (drop w (le w v ++ (fields ws vs ++ rest))))
        (take-append w (le w v) (fields ws vs ++ rest) (length-le w v))
    ∙ ap (λ l. un_le (le w v) ∷ unpack_from ws l)
        (drop-append w (le w v) (fields ws vs ++ rest) (length-le w v))
    ∙ ap (λ n. n ∷ unpack_from ws (fields ws vs ++ rest)) (un_le-le w v lt)
    ∙ ap (λ l. v ∷ l) (unpack_from-fields ws vs rest (ground arith))

unpack-fields : (ws vs : List ℕ) → fits ws vs ≡ true → unpack ws (fields ws vs) ≡ some vs
unfolding unpack
unpack-fields ws vs h =
    let t : (length (fields ws vs) == calcsize ws) ≡ true =
      (==_iff _ _).1 (length-fields ws vs h) in
    let e = sym (ap (unpack_from ws) (append-nil (fields ws vs))) ∙ unpack_from-fields ws vs [] h in
    ap (λ t. if t then some (unpack_from ws (fields ws vs)) else none) t ∙ ap some e

-- What `pack` accepts, and in what bytes.
pub pack-fits :
    (format values bs : List ℕ)
    → pack format values ≡ some bs
    → (fits format values ≡ true) × (fields format values ≡ bs)
unfolding pack
pack-fits format values bs =
    if_intro (λ v. v ≡ some bs → (fits format values ≡ true) × (fields format values ≡ bs))
      (fits format values) (λ t e. (t, some_inj.0 e)) (λ t e. absurd (none-ne-some bs e))

-- `unpack` reads back what `pack` accepts.
pub unpack-pack :
    (format values bs : List ℕ) → pack format values ≡ some bs → unpack format bs ≡ some values
unpack-pack format values bs e =
    let (t, shape) = pack-fits format values bs e in
    ap (unpack format) (sym shape) ∙ unpack-fields format values t

pub length-pack :
    (format values bs : List ℕ) → pack format values ≡ some bs → length bs ≡ calcsize format
length-pack format values bs e =
    let (t, shape) = pack-fits format values bs e in
    ap length (sym shape) ∙ length-fields format values t
