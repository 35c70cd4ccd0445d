-- ===== src/Uvk5/Message/Registers.antt =====
-- The register and GPIO messages of radio_server/backends/uvk5/frames.py.
use radio_server.Base.{
  and_then, ℕ, zero, suc, ◌+◌, ◌*◌, List, [], ◌∷◌, ◌++◌, Option, none, some, length, drop,
  replicate, ◌==◌, if◌then◌else◌,
}
use radio_server.Base.Struct
use radio_server.Base.Struct.{Bytes, pack_bytes, unpack_from}
use radio_server.Uvk5.Codec.{Codec}

-- A two-byte count, then as many pairs; `w` is the width of each of the two.
abbrev pub Pairs : Type 0
Pairs = List (ℕ × ℕ)

abbrev pub appended : Option Bytes → Option Bytes → Option Bytes
appended (some xs) (some ys) = some (xs ++ ys)
appended _ _ = none

-- The loop of `pack` and that of `unpack`.
unfoldable pub pack_pairs : ℕ → Pairs → Option Bytes
pack_pairs w [] = some []
pack_pairs w ((a, b) ∷ ps) = appended (Struct.pack (w ∷ w ∷ []) (a ∷ b ∷ [])) (pack_pairs w ps)

abbrev pub pair_of : List ℕ → ℕ × ℕ
pair_of (a ∷ b ∷ _) = (a, b)
pair_of _ = (0, 0)

unfoldable pub unpack_pairs : ℕ → ℕ → Bytes → Pairs
unpack_pairs w zero bs = []
unpack_pairs w (suc n) bs =
    pair_of (unpack_from (w ∷ w ∷ []) bs) ∷ unpack_pairs w n (drop (w + w) bs)

unfoldable pub counted_pack : ℕ → Pairs → Option Bytes
counted_pack w ps = appended (Struct.pack (2 ∷ []) (length ps ∷ [])) (pack_pairs w ps)

-- `unpack_from` raises when the count itself is missing.
abbrev pub count_of : Bytes → Option ℕ
count_of (a ∷ b ∷ _) = some (a + b * 256)
count_of _ = none

unfoldable pub counted_unpack : ℕ → Bytes → Option Pairs
counted_unpack w params = and_then (count_of params) (λ n.
    if length params == 2 + (w + w) * n then some (unpack_pairs w n (drop 2 params)) else none)

pub record WriteRegisters : Type 0 where
  pub registers : Pairs

abbrev pub write_registers : Codec WriteRegisters
write_registers = record {
  command = 0x0850;
  pack = λ m. counted_pack 2 m.registers;
  unpack = λ params. and_then (counted_unpack 2 params) (λ ps. some (record { registers = ps }));
}

pub record WriteGpio : Type 0 where
  pub pins : Pairs

abbrev pub write_gpio : Codec WriteGpio
write_gpio = record {
  command = 0x0860;
  pack = λ m. counted_pack 1 m.pins;
  unpack = λ params. and_then (counted_unpack 1 params) (λ ps. some (record { pins = ps }));
}

pub record ReadGpio : Type 0 where
  pub pins : Pairs

abbrev pub read_gpio : Codec ReadGpio
read_gpio = record {
  command = 0x0861;
  pack = λ m. counted_pack 1 m.pins;
  unpack = λ params. and_then (counted_unpack 1 params) (λ ps. some (record { pins = ps }));
}

pub record ReadRegisters : Type 0 where
  pub registers : List ℕ

unfoldable pub read_registers_pack : ReadRegisters → Option Bytes
read_registers_pack m =
    Struct.pack (2 ∷ replicate (length m.registers) 2) (length m.registers ∷ m.registers)

unfoldable pub read_registers_unpack : Bytes → Option ReadRegisters
read_registers_unpack params = and_then (count_of params) (λ n.
    if length params == 2 + 2 * n
    then some (record { registers = unpack_from (replicate n 2) (drop 2 params) })
    else none)

abbrev pub read_registers : Codec ReadRegisters
read_registers = record {
  command = 0x0851;
  pack = read_registers_pack;
  unpack = read_registers_unpack;
}
