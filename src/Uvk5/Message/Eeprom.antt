-- ===== src/Uvk5/Message/Eeprom.antt =====
-- The EEPROM messages of radio_server/backends/uvk5/frames.py.
use radio_server.Base.{
  and_then, ℕ, ◌%◌, Bool, not, ◌&&◌, List, [], ◌∷◌, ◌++◌, Option, none, some, length, take, drop,
  ltb, leb, ◌==◌, if◌then◌else◌,
}
use radio_server.Base.Struct
use radio_server.Base.Struct.{Bytes, pack_bytes, unpack_from}
use radio_server.Uvk5.Codec.{Codec, fixed, checked}

abbrev pub eeprom_chunk : ℕ
eeprom_chunk = 8

pub record EepromRead : Type 0 where
  pub offset : ℕ
  pub size : ℕ
  pub timestamp : ℕ
  pub padding : ℕ

-- `__post_init__`
unfoldable pub eeprom_read_checks : EepromRead → Bool
eeprom_read_checks m = leb m.offset 0xFFFF && (leb 1 m.size && leb m.size 128)

unfoldable pub eeprom_read_of : List ℕ → Option EepromRead
eeprom_read_of (offset ∷ size ∷ padding ∷ timestamp ∷ []) =
    checked eeprom_read_checks
      (record { offset = offset; size = size; padding = padding; timestamp = timestamp })
eeprom_read_of _ = none

abbrev pub eeprom_read : Codec EepromRead
eeprom_read =
    fixed 0x051B (2 ∷ 1 ∷ 1 ∷ 4 ∷ []) (λ m. m.offset ∷ m.size ∷ m.padding ∷ m.timestamp ∷ [])
      eeprom_read_of

-- The header of `size` body bytes, the body, and what is left of it.
abbrev pub sized : {A : Type 0} → ℕ → (Bytes → Option A) → Bytes → Option A
sized size f body = if ltb (length body) size then none else f (take size body)

pub record EepromReadReply : Type 0 where
  pub offset : ℕ
  pub size : ℕ
  pub body : Bytes
  pub padding : ℕ

unfoldable pub eeprom_read_reply_of : Bytes → List ℕ → Option EepromReadReply
eeprom_read_reply_of body (offset ∷ size ∷ padding ∷ []) =
    sized size
      (λ body. some (record { offset = offset; size = size; body = body; padding = padding })) body
eeprom_read_reply_of body _ = none

-- `data` is `body` here and below.
unfoldable pub eeprom_read_reply_pack : EepromReadReply → Option Bytes
eeprom_read_reply_pack m =
    and_then (Struct.pack (2 ∷ 1 ∷ 1 ∷ []) (m.offset ∷ m.size ∷ m.padding ∷ []))
      (λ head. some (head ++ m.body))

unfoldable pub eeprom_read_reply_unpack : Bytes → Option EepromReadReply
eeprom_read_reply_unpack params =
    if ltb (length params) 4
    then none
    else and_then (Struct.unpack (2 ∷ 1 ∷ 1 ∷ []) (take 4 params))
        (eeprom_read_reply_of (drop 4 params))

abbrev pub eeprom_read_reply : Codec EepromReadReply
eeprom_read_reply = record {
  command = 0x051C;
  pack = eeprom_read_reply_pack;
  unpack = eeprom_read_reply_unpack;
}

pub record EepromWrite : Type 0 where
  pub offset : ℕ
  pub body : Bytes
  pub timestamp : ℕ
  pub allow_password : ℕ

-- `__post_init__`
unfoldable pub eeprom_write_checks : EepromWrite → Bool
eeprom_write_checks m =
    leb m.offset 0xFFFF
    && (not (length m.body == 0)
        && (length m.body % eeprom_chunk == 0 && m.offset % eeprom_chunk == 0))

unfoldable pub eeprom_write_of : Bytes → List ℕ → Option EepromWrite
eeprom_write_of body (offset ∷ size ∷ allow ∷ timestamp ∷ []) =
    sized size
      (λ body.
        checked eeprom_write_checks
          (record { offset = offset; body = body; timestamp = timestamp; allow_password = allow }))
      body
eeprom_write_of body _ = none

unfoldable pub eeprom_write_pack : EepromWrite → Option Bytes
eeprom_write_pack m =
    and_then
      (Struct.pack (2 ∷ 1 ∷ 1 ∷ 4 ∷ [])
        (m.offset ∷ length m.body ∷ m.allow_password ∷ m.timestamp ∷ []))
      (λ head. some (head ++ m.body))

unfoldable pub eeprom_write_unpack : Bytes → Option EepromWrite
eeprom_write_unpack params =
    if ltb (length params) 8
    then none
    else and_then (Struct.unpack (2 ∷ 1 ∷ 1 ∷ 4 ∷ []) (take 8 params))
        (eeprom_write_of (drop 8 params))

abbrev pub eeprom_write : Codec EepromWrite
eeprom_write = record { command = 0x051D; pack = eeprom_write_pack; unpack = eeprom_write_unpack }

pub record EepromWriteReply : Type 0 where
  pub offset : ℕ

unfoldable pub eeprom_write_reply_of : List ℕ → Option EepromWriteReply
eeprom_write_reply_of (offset ∷ []) = some (record { offset = offset })
eeprom_write_reply_of _ = none

-- It alone takes more bytes than it reads.
unfoldable pub eeprom_write_reply_unpack : Bytes → Option EepromWriteReply
eeprom_write_reply_unpack params =
    if ltb (length params) 2
    then none
    else and_then (Struct.unpack (2 ∷ []) (take 2 params)) eeprom_write_reply_of

abbrev pub eeprom_write_reply : Codec EepromWriteReply
eeprom_write_reply = record {
  command = 0x051E;
  pack = λ m. Struct.pack (2 ∷ []) (m.offset ∷ []);
  unpack = eeprom_write_reply_unpack;
}
