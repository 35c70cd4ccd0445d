-- ===== src/Uvk5/Codec.antt =====
-- What the message classes of radio_server/backends/uvk5/frames.py have in common: an opcode `COMMAND`,
-- `pack`, `unpack` and `to_frame`. `none` is a ValueError or a struct.error. Integers are natural
-- numbers: `struct` refuses a negative one for each of the formats of the file.
use radio_server.Base.{
  and_then, ℕ, Bool, true, ◌≡◌, ap, ◌∙◌, List, [], ◌∷◌, Option, none, some, if◌then◌else◌,
}
use radio_server.Base.Struct
use radio_server.Base.Struct.{Bytes, unpack-pack}
use radio_server.Uvk5.Frame.{build_frame}

pub record Codec (A : Type 0) : Type 0 where
  pub command : ℕ
  pub pack : A → Option Bytes
  pub unpack : Bytes → Option A

-- What a codec promises of the values that a class holds.
abbrev pub RoundTrips : {A : Type 0} → Codec A → (A → Type 0) → Type 0
RoundTrips {A} codec IsValid =
    (m : A) (params : Bytes) → IsValid m → codec.pack m ≡ some params → codec.unpack params ≡ some m

-- `to_frame`
unfoldable pub to_frame : {A : Type 0} → Codec A → Bool → A → Option Bytes
to_frame codec obfuscate_body m = and_then (codec.pack m) (build_frame obfuscate_body codec.command)

-- A class over one `struct` format: `values` are the arguments of `pack`, and `build` is `cls` over
-- what `unpack` read.
unfoldable pub fixed : {A : Type 0} → ℕ → List ℕ → (A → List ℕ) → (List ℕ → Option A) → Codec A
fixed command format values build = record {
  command = command;
  pack = λ m. Struct.pack format (values m);
  unpack = λ params. and_then (Struct.unpack format params) build;
}

-- A class without parameters.
unfoldable pub empty_of : {A : Type 0} → A → Bytes → Option A
empty_of m [] = some m
empty_of m (b ∷ bs) = none

unfoldable pub bare : {A : Type 0} → ℕ → A → Codec A
bare command m = record { command = command; pack = λ _. some []; unpack = empty_of m }

-- An instance of a class whose `__post_init__` may raise.
abbrev pub checked : {A : Type 0} → (A → Bool) → A → Option A
checked checks m = if checks m then some m else none

pub checked-some :
    {A : Type 0} (checks : A → Bool) (m : A) → checks m ≡ true → checked checks m ≡ some m
checked-some checks m e = ap (λ t. if t then some m else none) e

-- A class over one format gives back what it packed, when `build` undoes `values`.
pub fixed-RoundTrips :
    {A : Type 0} (command : ℕ) (format : List ℕ) (values : A → List ℕ) (build : List ℕ → Option A)
    (IsValid : A → Type 0)
    → ((m : A) → IsValid m → build (values m) ≡ some m)
    → RoundTrips (fixed command format values build) IsValid
unfolding fixed
fixed-RoundTrips command format values build IsValid h m params valid e =
    ap (λ o. and_then o build) (unpack-pack format (values m) params e) ∙ h m valid
